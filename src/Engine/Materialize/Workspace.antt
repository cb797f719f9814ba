-- ===== src/Engine/Materialize/Workspace.antt =====
-- The loop of `materialize` over the components of a workspace.
use enistere_foundation.Base.{
  String, true, ◌==◌, List, [], ◌∷◌, ◌++◌, Option, none, some, map, is_some, get_or, ◌≡◌, sym, ap,
  subst, ◌∙◌, arith, eq_iff, Bool-cases, inl, inr,
}
use mathlib.Core.List.{append_assoc, map-append, append-nil}
use enistere_foundation.Base.Dict.{get, put, get-put}
use enistere_foundation.Contracts.Digest.{returned}
use enistere_foundation.Contracts.Identity.{MaterializationRecord}
use enistere_foundation.Contracts.Types.Evidence.{MaterializationOutcome, applied, conflict}
use enistere_foundation.Contracts.Digest.Returns.{bind-eq-returned, returned-injective}
use enistere_foundation.Extensions.Ownership.{writes}
use enistere_foundation.Engine.Materialize.{
  Directory, empty_directory, PlannedComponent, Compilation, DecidedFile, write_content,
  write_files,
}
use enistere_foundation.Engine.Materialize.Apply.{
  Materialized, Outcome, materialize_component, materialize_components, apply,
}
use enistere_foundation.Engine.Materialize.Effects.{write_content_lem}
use enistere_foundation.Engine.Materialize.Runs.{materialize_component-IsRun}
use enistere_foundation.Engine.Materialize.Safety.{apply-IsApplied, apply-conflict}

abbrev pub HasFile : List (String × String) → String → Type 0
HasFile files path = is_some (get files path) ≡ true

-- The directory of a component, empty where there is none.
abbrev pub directory_of : List (String × Directory) → String → Directory
directory_of workspace id = get_or (get workspace id) empty_directory

abbrev pub component_ids : List PlannedComponent → List String
component_ids = map (λ (c : PlannedComponent). c.component.id)

abbrev pub subjects : List MaterializationRecord → List String
subjects = map (λ (r : MaterializationRecord). r.spec.subject.component)

write_content-HasFile :
    (c : Option String) (target : String) (files next : List (String × String)) (path : String)
    → write_content c target files ≡ returned next
    → HasFile files path
    → HasFile next path
write_content-HasFile none target files next path h there = cc
write_content-HasFile (some content) target files next path h there =
    rw (write_content_lem (some content) target files next h path) (ground arith)

write_files-HasFile :
    (contents : List (String × String)) (fs : List DecidedFile) (files out : List (String × String))
    (path : String)
    → write_files contents fs files ≡ returned out
    → HasFile files path
    → HasFile out path
unfolding write_files
write_files-HasFile contents [] files out path h there =
    subst (λ (m : List (String × String)). HasFile m path) (returned-injective h) there
write_files-HasFile contents (f ∷ fs) files out path h there =
    elim (Bool-cases (writes f.decision)) [
      | inr skip ↦ write_files-HasFile contents fs files out path (rw skip at h) there
      | inl write ↦
          let (next, put, rest) =
            bind-eq-returned (write_content (get contents f.artifact.path) f.target files) _
              (rw write at h) in
          write_files-HasFile contents fs next out path rest
            (write_content-HasFile _ f.target files next path put there)
    ]

apply-HasFile :
    (o : MaterializationOutcome) (contents : List (String × String)) (fs : List DecidedFile)
    (previous : Option MaterializationRecord) (new : MaterializationRecord) (d after : Directory)
    (path : String)
    → apply o contents fs previous new d ≡ returned after
    → HasFile d.files path
    → HasFile after.files path
apply-HasFile conflict contents fs previous new d after path h there =
    subst (λ (x : Directory). HasFile x.files path)
      (apply-conflict contents fs previous new d after h) there
apply-HasFile applied contents fs previous new d after path h there =
    write_files-HasFile contents fs d.files after.files path
      (apply-IsApplied contents fs previous new d after h).writes there

module _ (sha256 : String → String) (result : Compilation) (root : List String)
    (executed_at : String) where
  -- What the rest of the loop is given.
  abbrev next_outcome : Outcome → PlannedComponent → Materialized → Outcome
  next_outcome o planned m = record {
    workspace = put o.workspace planned.component.id m.directory;
    records = o.records ++ m.new ∷ [];
    diagnostics = o.diagnostics ++ m.found;
  }

  -- One record per component, in their order.
  pub materialize_components-subjects :
      (components : List PlannedComponent) (o after : Outcome)
      → materialize_components sha256 result root executed_at components o ≡ returned after
      → subjects after.records ≡ subjects o.records ++ component_ids components
  unfolding materialize_components
  materialize_components-subjects [] o after h =
      ap (λ (x : Outcome). subjects x.records) (sym (returned-injective h)) ∙ sym (append-nil _)
  materialize_components-subjects (c ∷ components) o after h =
      let (m, turn, rest) =
        bind-eq-returned
          (materialize_component sha256 result root executed_at c
            (directory_of o.workspace c.component.id))
          _ h in
      let run =
        materialize_component-IsRun sha256 result root executed_at c
          (directory_of o.workspace c.component.id) m turn in
      materialize_components-subjects components (next_outcome o c m) after rest
      ∙ ap (λ front. front ++ component_ids components) (map-append _ o.records (m.new ∷ []))
      ∙ append_assoc (subjects o.records) _ (component_ids components)
      ∙ ap (λ id. subjects o.records ++ id ∷ component_ids components) run.subject

  -- A file that was there is there.
  pub materialize_components-HasFile :
      (components : List PlannedComponent) (o after : Outcome) (id path : String)
      → materialize_components sha256 result root executed_at components o ≡ returned after
      → HasFile (directory_of o.workspace id).files path
      → HasFile (directory_of after.workspace id).files path
  unfolding materialize_components
  materialize_components-HasFile [] o after id path h there =
      subst (λ (x : Outcome). HasFile (directory_of x.workspace id).files path)
        (returned-injective h) there
  materialize_components-HasFile (c ∷ components) o after id path h there =
      let (m, turn, rest) =
        bind-eq-returned
          (materialize_component sha256 result root executed_at c
            (directory_of o.workspace c.component.id))
          _ h in
      let run =
        materialize_component-IsRun sha256 result root executed_at c
          (directory_of o.workspace c.component.id) m turn in
      materialize_components-HasFile components (next_outcome o c m) after id path rest
        (elim (Bool-cases (c.component.id == id)) [
          | inr apart ↦ rw (get-put o.workspace c.component.id id m.directory, apart) there
          | inl same ↦
              let here =
                subst (λ i. HasFile (directory_of o.workspace i).files path)
                  (sym ((eq_iff c.component.id id).0 same)) there in
              rw (get-put o.workspace c.component.id id m.directory, same)
                (apply-HasFile m.new.spec.outcome c.contents m.decided _ m.new
                  (directory_of o.workspace c.component.id) m.directory path run.applied here)
        ])
