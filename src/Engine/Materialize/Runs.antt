-- ===== src/Engine/Materialize/Runs.antt =====
-- One turn of the loop of `materialize` that returns, taken apart.
use enistere_foundation.Base.{
  String, ◌+◌, List, [], ◌∷◌, ◌++◌, Option, map, ◌≡◌, refl, sym, ap, subst, All,
}
use enistere_foundation.Contracts.Digest.{returned}
use enistere_foundation.Contracts.Identity.{MaterializationRecord}
use enistere_foundation.Contracts.Types.Evidence.{WriteDecision}
use enistere_foundation.Contracts.Refs.{Digest}
use enistere_foundation.Contracts.Digest.Returns.{bind-eq-returned, returned-injective}
use enistere_foundation.Engine.Materialize.{
  Directory, PlannedComponent, Compilation, latest_record, DecidedFile, last_written,
  materialization_record, superseded_ref, decide_files, outcome_of, recorded, previous_revision,
}
use enistere_foundation.Engine.Materialize.Apply.{
  Materialized, materialize_component, decisions_of, conflicts, apply,
}
use enistere_foundation.Engine.Materialize.Decisions.{IsDecided, decide_files-IsDecided}

abbrev pub component_path : List String → PlannedComponent → List String
component_path root planned = root ++ planned.component.id ∷ []

abbrev pub written_before : Directory → List (String × Digest)
written_before d = last_written (latest_record d)

module _ (sha256 : String → String) (result : Compilation) (root : List String)
    (executed_at : String) where
  pub record IsRun (planned : PlannedComponent) (d : Directory) (m : Materialized) : Type 0 where
    pub decides :
        All (IsDecided sha256 (component_path root planned) d.files (written_before d)) m.decided
    pub artifacts : map (λ (f : DecidedFile). f.artifact) m.decided ≡ planned.plan.artifacts
    pub outcome : m.new.spec.outcome ≡ outcome_of (decisions_of m.decided)
    pub revision : m.new.metadata.revision ≡ previous_revision (latest_record d) + 1
    pub subject : m.new.spec.subject.component ≡ planned.component.id
    pub recorded : m.new.spec.files ≡ map (recorded (decisions_of m.decided)) planned.plan.artifacts
    pub applied :
        apply m.new.spec.outcome planned.contents m.decided (latest_record d) m.new d
        ≡ returned m.directory
    pub found : m.found ≡ conflicts result planned.component.id m.decided

  materialization_record_lem :
      (planned : PlannedComponent) (decisions : List (String × WriteDecision))
      (previous : Option MaterializationRecord) (r : MaterializationRecord)
      → materialization_record sha256 result planned decisions executed_at previous ≡ returned r
      → (r.spec.outcome ≡ outcome_of decisions)
        × (r.metadata.revision ≡ previous_revision previous + 1)
        × (r.spec.subject.component ≡ planned.component.id)
        × (r.spec.files ≡ map (recorded decisions) planned.plan.artifacts)
  unfolding materialization_record
  materialization_record_lem planned decisions previous r h =
      let (supersedes, _, e) = bind-eq-returned (superseded_ref sha256 previous) _ h in
      let same = returned-injective e in
      (
        sym (ap (λ (x : MaterializationRecord). x.spec.outcome) same),
        sym (ap (λ (x : MaterializationRecord). x.metadata.revision) same),
        sym (ap (λ (x : MaterializationRecord). x.spec.subject.component) same),
        sym (ap (λ (x : MaterializationRecord). x.spec.files) same),
      )

  pub materialize_component-IsRun :
      (planned : PlannedComponent) (d : Directory) (m : Materialized)
      → materialize_component sha256 result root executed_at planned d ≡ returned m
      → IsRun planned d m
  unfolding materialize_component
  materialize_component-IsRun planned d m h =
      let (decided, decides, h') =
        bind-eq-returned
          (decide_files sha256 (component_path root planned) d.files (written_before d)
            planned.plan.artifacts)
          _ h in
      let (new, records, h'') =
        bind-eq-returned
          (materialization_record sha256 result planned (decisions_of decided) executed_at
            (latest_record d))
          _ h' in
      let (directory, applies, e) =
        bind-eq-returned (apply new.spec.outcome planned.contents decided (latest_record d) new d) _
          h'' in
      let (each, all) =
        decide_files-IsDecided sha256 _ d.files _ planned.plan.artifacts decided decides in
      let (outcome, revision, subject, files) =
        materialization_record_lem planned (decisions_of decided) (latest_record d) new records in
      subst (IsRun planned d) (returned-injective e) (record {
        decides = each;
        artifacts = all;
        outcome = outcome;
        revision = revision;
        subject = subject;
        recorded = files;
        applied = applies;
        found = refl;
      })
