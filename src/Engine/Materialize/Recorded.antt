-- ===== src/Engine/Materialize/Recorded.antt =====
-- The record that `materialize` returns, under the rules of A8.
use mathlib.Core.List.{Nodup, Nodup-cons, map-map}
use enistere_foundation.Base.{
  String, ℕ, false, ◌&&◌, ◌||◌, ◌==◌, List, [], ◌∷◌, ◌++◌, Option, none, some, map, any, keep,
  length, includes, ◌≡◌, refl, sym, ap, ap₂, subst, ◌∙◌, All, arith, eq_iff, eq_refl, Bool-cases,
  inl, inr, if◌then◌else◌,
}
use enistere_foundation.Base.Dict.{get}
use enistere_foundation.Base.Text.Sets.{includes_iff}
use enistere_foundation.Contracts.Checks.{timestamp}
use enistere_foundation.Contracts.Digest.{returned}
use enistere_foundation.Contracts.Identity.{MaterializationRecord}
use enistere_foundation.Contracts.Materialization.{
  file_conflicts, file_writes, seeded_and, inconsistent, check_files, check_outcome,
  validate_materialization_record,
}
use enistere_foundation.Contracts.Materialization.Laws.{
  recorded_paths, IsRecordable, check_files-distinct, check_outcome_lem, validate_parts,
}
use enistere_foundation.Contracts.Refs.{Digest}
use enistere_foundation.Contracts.Types.Evidence.{
  ArtifactOwnership, compiler_owned, owner_seeded, WriteDecision, create, update, unchanged,
  keep_owner, RecordedFile, MaterializationOutcome, applied, conflict,
}
use enistere_foundation.Extensions.Adapter.Laws.{paths, IsBacked}
use enistere_foundation.Extensions.Ownership.{
  PlannedArtifact, decide_write, decide_existing, writes, is_conflict,
}
use enistere_foundation.Engine.Materialize.{
  Directory, PlannedComponent, Compilation, DecidedFile, recorded,
}
use enistere_foundation.Engine.Materialize.Apply.{Materialized, materialize_component, in_conflict}
use enistere_foundation.Engine.Materialize.Atomicity.{decisions_of-distinct, outcome-in_conflict}
use enistere_foundation.Engine.Materialize.Decisions.{IsDecided, disk_digest}
use enistere_foundation.Engine.Materialize.Runs.{IsRun, written_before, materialize_component-IsRun}

abbrev artifacts_of : List DecidedFile → List PlannedArtifact
artifacts_of = map (λ (f : DecidedFile). f.artifact)

abbrev entries_of : List DecidedFile → List (String × WriteDecision)
entries_of = map (λ (f : DecidedFile). (f.artifact.path, f.decision))

-- The record's entry of a decided file.
abbrev recorded_file : DecidedFile → RecordedFile
recorded_file f = record {
  path = f.artifact.path;
  ownership = f.artifact.ownership;
  digest = f.artifact.digest;
  decision = f.decision;
}

recorded-skip :
    (k : String) (v : WriteDecision) (es : List (String × WriteDecision)) (fs : List DecidedFile)
    → includes (paths (artifacts_of fs)) k ≡ false
    → map (recorded ((k, v) ∷ es)) (artifacts_of fs) ≡ map (recorded es) (artifacts_of fs)
unfolding get
recorded-skip k v es [] away = refl
recorded-skip k v es (f ∷ fs) away =
    let apart : (k == f.artifact.path) ≡ false =
      ground (arith, eq_iff k f.artifact.path, eq_iff f.artifact.path k) in
    ap₂ (λ x xs. x ∷ xs) (rw apart refl) (recorded-skip k v es fs (ground arith))

recorded-each :
    (fs : List DecidedFile)
    → Nodup (paths (artifacts_of fs))
    → map (recorded (entries_of fs)) (artifacts_of fs) ≡ map recorded_file fs
unfolding get
recorded-each [] n = refl
recorded-each (f ∷ fs) n =
    let (apart, others) = Nodup-cons.0 n in
    let away : includes (paths (artifacts_of fs)) f.artifact.path ≡ false =
      elim (Bool-cases (includes (paths (artifacts_of fs)) f.artifact.path)) [
        | inl i ↦ absurd (apart ((includes_iff _ _).0 i))
        | inr i ↦ i
      ] in
    ap₂ (λ x xs. x ∷ xs) (rw (eq_refl f.artifact.path) refl)
      (recorded-skip f.artifact.path f.decision (entries_of fs) fs away ∙ recorded-each fs others)

-- The ownership rule never updates an owner's file, nor finds it in conflict.
seeded-decide_existing :
    (o : ArtifactOwnership) (digest existing : Digest) (last : Option Digest)
    → seeded_and o (decide_existing o digest existing last) ≡ none
seeded-decide_existing owner_seeded digest existing last = refl
seeded-decide_existing compiler_owned digest existing last = refl

seeded-create : (o : ArtifactOwnership) → seeded_and o create ≡ none
seeded-create owner_seeded = refl
seeded-create compiler_owned = refl

seeded-decide_write :
    (a : PlannedArtifact) (before last : Option Digest)
    → seeded_and a.ownership (decide_write a before last) ≡ none
unfolding decide_write
seeded-decide_write a none last = seeded-create a.ownership
seeded-decide_write a (some existing) last =
    seeded-decide_existing a.ownership a.digest existing last

recorded_paths_lem :
    (fs : List DecidedFile) → recorded_paths (map recorded_file fs) ≡ paths (artifacts_of fs)
recorded_paths_lem fs = map-map _ _ fs ∙ sym (map-map _ _ fs)

any-file_conflicts :
    (fs : List DecidedFile) → any file_conflicts (map recorded_file fs) ≡ any in_conflict fs
any-file_conflicts [] = refl
any-file_conflicts (f ∷ fs) = ap₂ (λ a b. a || b) (same f.decision) (any-file_conflicts fs)
  where
    same :
        (d : WriteDecision)
        → file_conflicts (record (recorded_file f) { decision = d }) ≡ is_conflict d
    same create = refl
    same update = refl
    same unchanged = refl
    same keep_owner = refl
    same WriteDecision.conflict = refl

any-file_writes :
    (fs : List DecidedFile)
    → any file_writes (map recorded_file fs) ≡ any (λ (f : DecidedFile). writes f.decision) fs
any-file_writes [] = refl
any-file_writes (f ∷ fs) = ap₂ (λ a b. a || b) (same f.decision) (any-file_writes fs)
  where
    same : (d : WriteDecision) → file_writes (record (recorded_file f) { decision = d }) ≡ writes d
    same create = refl
    same update = refl
    same unchanged = refl
    same keep_owner = refl
    same WriteDecision.conflict = refl

module _ (sha256 : String → String) where
  All-IsRecordable :
      (directory : List String) (files contents : List (String × String))
      (written : List (String × Digest)) (fs : List DecidedFile)
      → All (IsDecided sha256 directory files written) fs
      → All (IsBacked sha256 contents) (artifacts_of fs)
      → All IsRecordable (map recorded_file fs)
  All-IsRecordable directory files contents written [] d b = tt
  All-IsRecordable directory files contents written (f ∷ fs) (d, ds) (b, bs) = (
    (
      b.safe,
      ap (seeded_and f.artifact.ownership) d.rule
          ∙ seeded-decide_write f.artifact
              (disk_digest sha256 directory files written files f.target)
              (get written f.artifact.path),
    ),
    All-IsRecordable directory files contents written fs ds bs,
  )

  module _ (result : Compilation) (root : List String) (executed_at : String) where
    recorded-decided :
        (planned : PlannedComponent) (d : Directory) (m : Materialized)
        → Nodup (paths planned.plan.artifacts)
        → IsRun sha256 result root executed_at planned d m
        → m.new.spec.files ≡ map recorded_file m.decided
    recorded-decided planned d m distinct run =
        let apart =
          subst (λ (xs : List PlannedArtifact). Nodup (paths xs)) (sym run.artifacts) distinct in
        run.recorded
        ∙ ap₂
            (λ (es : List (String × WriteDecision)) (xs : List PlannedArtifact).
              map (recorded es) xs)
            (decisions_of-distinct m.decided apart) (sym run.artifacts)
        ∙ recorded-each m.decided apart

    record_rules :
        (date_parse : String → Option ℕ) (r : MaterializationRecord) (ref : String)
        (files : List RecordedFile)
        → r.spec.files ≡ files
        → r.spec.outcome ≡ (if any file_conflicts files then conflict else applied)
        → All IsRecordable files
        → Nodup (recorded_paths files)
        → validate_materialization_record date_parse r ref
          ≡ timestamp date_parse (some r.spec.executed_at) "/spec/executedAt" ref
            ++ (if any file_conflicts files && any file_writes files
                then inconsistent "a CONFLICT outcome records at least one conflict and no write"
                    ref "/spec/outcome"
                  ∷ []
                else [])
    record_rules date_parse r ref files same outcome recordable distinct =
        validate_parts date_parse r ref
        ∙ ap (λ end. timestamp date_parse (some r.spec.executed_at) "/spec/executedAt" ref ++ end)
            (ap₂
                (λ (fs : List RecordedFile) (o : MaterializationOutcome).
                  check_files [] 0 ref fs
                  ++ check_outcome o (length (keep file_conflicts fs))
                      (length (keep file_writes fs)) ref)
                same outcome
              ∙ ap
                  (λ front.
                    front
                    ++ check_outcome (if any file_conflicts files then conflict else applied)
                        (length (keep file_conflicts files)) (length (keep file_writes files)) ref)
                  (check_files-distinct ref files recordable distinct)
              ∙ check_outcome_lem files ref)

    -- For a plan whose paths are distinct and whose contents are at hand, the validation of the
    -- record that `materialize_component` returns reports what it says of the timestamp and,
    -- exactly when some file is in conflict and another is decided to be written, that a
    -- CONFLICT outcome records no write.
    pub validate-materialize_component :
        (date_parse : String → Option ℕ) (planned : PlannedComponent) (d : Directory)
        (m : Materialized) (ref : String)
        → Nodup (paths planned.plan.artifacts)
        → All (IsBacked sha256 planned.contents) planned.plan.artifacts
        → materialize_component sha256 result root executed_at planned d ≡ returned m
        → validate_materialization_record date_parse m.new ref
          ≡ timestamp date_parse (some m.new.spec.executed_at) "/spec/executedAt" ref
            ++ (if any in_conflict m.decided
                  && any (λ (f : DecidedFile). writes f.decision) m.decided
                then inconsistent "a CONFLICT outcome records at least one conflict and no write"
                    ref "/spec/outcome"
                  ∷ []
                else [])
    validate-materialize_component date_parse planned d m ref distinct backed h =
        let run = materialize_component-IsRun sha256 result root executed_at planned d m h in
        let apart =
          subst (λ (xs : List PlannedArtifact). Nodup (paths xs)) (sym run.artifacts) distinct in
        let outcome =
          outcome-in_conflict sha256 result root executed_at planned d m distinct run
          ∙ ap (λ b. if b then conflict else applied) (sym (any-file_conflicts m.decided)) in
        record_rules date_parse m.new ref (map recorded_file m.decided)
          (recorded-decided planned d m distinct run) outcome
          (All-IsRecordable _ d.files planned.contents (written_before d) m.decided run.decides
            (subst (All (IsBacked sha256 planned.contents)) (sym run.artifacts) backed))
          (subst Nodup (sym (recorded_paths_lem m.decided)) apart)
        ∙ ap₂
            (λ a b.
              timestamp date_parse (some m.new.spec.executed_at) "/spec/executedAt" ref
              ++ (if a && b
                  then inconsistent "a CONFLICT outcome records at least one conflict and no write"
                      ref "/spec/outcome"
                    ∷ []
                  else []))
            (any-file_conflicts m.decided) (any-file_writes m.decided)
