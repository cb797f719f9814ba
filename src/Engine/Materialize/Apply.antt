-- ===== src/Engine/Materialize/Apply.antt =====
-- engine/materializer/src/materialize.ts: the loop of `materialize` over the planned components.
use enistere_foundation.Base.{
  String, Bool, List, [], ◌∷◌, ◌++◌, Option, none, some, map, keep, get_or, ◌<>◌,
}
use enistere_foundation.Base.Dict.{get, put, from_entries}
use enistere_foundation.Contracts.Diagnostics.{Diagnostic, diagnostic, engine_materializer}
use enistere_foundation.Contracts.Diagnostics.Codes.{materialize_conflict}
use enistere_foundation.Contracts.Digest.{Result, returned, ◌>>=◌}
use enistere_foundation.Contracts.Identity.{MaterializationRecord}
use enistere_foundation.Contracts.Types.Common.{Status}
use enistere_foundation.Contracts.Types.Evidence.{WriteDecision, MaterializationOutcome}
use enistere_foundation.Extensions.Ownership.{is_conflict}
use enistere_foundation.Engine.Materialize.{
  Directory, empty_directory, PlannedComponent, Compilation, record_file, latest_record,
  DecidedFile, last_written, materialization_record, decide_files, write_files,
}

abbrev pub decisions_of : List DecidedFile → List (String × WriteDecision)
decisions_of files =
    from_entries [] (map (λ (f : DecidedFile). (f.artifact.path, f.decision)) files)

abbrev pub in_conflict : DecidedFile → Bool
in_conflict f = is_conflict f.decision

abbrev conflict_at : Compilation → String → DecidedFile → Diagnostic
conflict_at result component f =
    diagnostic materialize_conflict
      ("compiler-owned file '" <> component <> "/" <> f.artifact.path
        <> "' was changed outside the compiler")
      (record { ref = some result.definition; path = none; layer = some engine_materializer })

unfoldable pub conflicts : Compilation → String → List DecidedFile → List Diagnostic
unfolding diagnostic
conflicts result component files = map (conflict_at result component) (keep in_conflict files)

-- `{ ...previous, metadata: { ...previous.metadata, status: 'SUPERSEDED' } }`
abbrev pub superseded : MaterializationRecord → MaterializationRecord
superseded r = record r { metadata = record r.metadata { status = Status.superseded } }

abbrev pub supersede :
    Option MaterializationRecord
    → List (String × MaterializationRecord)
    → List (String × MaterializationRecord)
supersede none records = records
supersede (some previous) records = put records (record_file previous) (superseded previous)

unfoldable pub store_record :
    Option MaterializationRecord
    → MaterializationRecord
    → List (String × MaterializationRecord)
    → List (String × MaterializationRecord)
unfolding record_file put
store_record previous new records = put (supersede previous records) (record_file new) new

-- `if (record.spec.outcome === 'APPLIED')`
unfoldable pub apply :
    MaterializationOutcome
    → List (String × String)
    → List DecidedFile
    → Option MaterializationRecord
    → MaterializationRecord
    → Directory
    → Result Directory
unfolding write_files store_record
apply MaterializationOutcome.conflict contents decided previous new d = returned d
apply MaterializationOutcome.applied contents decided previous new d = do
  files ← write_files contents decided d.files
  returned (record { files = files; records = store_record previous new d.records })

pub record Materialized : Type 0 where
  pub directory : Directory
  pub decided : List DecidedFile
  pub new : MaterializationRecord
  pub found : List Diagnostic

pub record Outcome : Type 0 where
  pub workspace : List (String × Directory)
  pub records : List MaterializationRecord
  pub diagnostics : List Diagnostic

module _ (sha256 : String → String) (result : Compilation) (root : List String)
    (executed_at : String) where
  -- One turn of the loop, on the component's directory.
  unfoldable pub materialize_component : PlannedComponent → Directory → Result Materialized
  unfolding latest_record decide_files materialization_record conflicts apply get from_entries
  materialize_component planned d = do
    decided ←
        decide_files sha256 (root ++ planned.component.id ∷ []) d.files
          (last_written (latest_record d)) planned.plan.artifacts
    new ←
        materialization_record sha256 result planned (decisions_of decided) executed_at
          (latest_record d)
    directory ← apply new.spec.outcome planned.contents decided (latest_record d) new d
    returned (record {
      directory = directory;
      decided = decided;
      new = new;
      found = conflicts result planned.component.id decided;
    })

  unfoldable pub materialize_components : List PlannedComponent → Outcome → Result Outcome
  unfolding materialize_component
  materialize_components [] o = returned o
  materialize_components (planned ∷ components) o = do
    m ←
        materialize_component planned
          (get_or (get o.workspace planned.component.id) empty_directory)
    materialize_components components (record {
      workspace = put o.workspace planned.component.id m.directory;
      records = o.records ++ m.new ∷ [];
      diagnostics = o.diagnostics ++ m.found;
    })
