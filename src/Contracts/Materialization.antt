-- ===== src/Contracts/Materialization.antt =====
-- kernel/contracts/src/contracts/materialization-record.ts: the semantic rules of A8.
pub mod Laws
use enistere_foundation.Base.{
  String, ℕ, suc, Bool, true, false, ◌&&◌, ◌||◌, List, [], ◌∷◌, ◌++◌, Option, none, some, keep,
  length, includes, decimal, eqb, ltb, not, ◌<>◌, if◌then◌else◌,
}
use enistere_foundation.Contracts.Checks.{timestamp}
use enistere_foundation.Contracts.Diagnostics.{Diagnostic, diagnostic, located}
use enistere_foundation.Contracts.Diagnostics.Codes.{
  materialization_unsafe_path, materialization_duplicate_path, materialization_outcome_inconsistent,
}
use enistere_foundation.Contracts.Identity.{MaterializationRecord}
use enistere_foundation.Contracts.Paths.{is_safe_artifact_path}
use enistere_foundation.Contracts.Types.Evidence.{
  ArtifactOwnership, compiler_owned, owner_seeded, MaterializationOutcome, applied, RecordedFile,
  WriteDecision, create, update, unchanged, keep_owner, conflict,
}

abbrev materialization_record_items : MaterializationRecord → List String
materialization_record_items d = d.spec.subject.component ∷ []

abbrev pub is_recorded_conflict : WriteDecision → Bool
is_recorded_conflict conflict = true
is_recorded_conflict _ = false

abbrev pub is_recorded_write : WriteDecision → Bool
is_recorded_write create = true
is_recorded_write update = true
is_recorded_write _ = false

abbrev pub file_conflicts : RecordedFile → Bool
file_conflicts f = is_recorded_conflict f.decision

abbrev pub file_writes : RecordedFile → Bool
file_writes f = is_recorded_write f.decision

-- An owner-seeded file is neither updated nor in conflict.
abbrev pub seeded_and : ArtifactOwnership → WriteDecision → Option String
seeded_and owner_seeded update = some "UPDATE"
seeded_and owner_seeded conflict = some "CONFLICT"
seeded_and _ decision = none

abbrev pub inconsistent : String → String → String → Diagnostic
inconsistent message ref path =
    diagnostic materialization_outcome_inconsistent message (located ref path)

abbrev check_seeded : Option String → RecordedFile → ℕ → String → List Diagnostic
check_seeded none f index ref = []
check_seeded (some decision) f index ref =
    inconsistent ("owner-seeded '" <> f.path <> "' cannot be " <> decision) ref
      ("/spec/files/" <> decimal index <> "/decision")
    ∷ []

abbrev check_path : RecordedFile → String → String → List Diagnostic
check_path f path ref =
    if is_safe_artifact_path f.path
    then []
    else diagnostic materialization_unsafe_path
        ("'" <> f.path <> "' leaves the component directory or uses a reserved path")
        (located ref path)
      ∷ []

abbrev check_new : Bool → RecordedFile → String → String → List Diagnostic
check_new seen f path ref =
    if seen
    then diagnostic materialization_duplicate_path ("'" <> f.path <> "' is recorded twice")
        (located ref path)
      ∷ []
    else []

unfoldable pub check_files : List String → ℕ → String → List RecordedFile → List Diagnostic
unfolding diagnostic is_safe_artifact_path decimal
check_files seen index ref [] = []
check_files seen index ref (f ∷ files) =
    check_path f ("/spec/files/" <> decimal index <> "/path") ref
    ++ check_new (includes seen f.path) f ("/spec/files/" <> decimal index <> "/path") ref
    ++ check_seeded (seeded_and f.ownership f.decision) f index ref
    ++ check_files (f.path ∷ seen) (suc index) ref files

abbrev pub check_outcome : MaterializationOutcome → ℕ → ℕ → String → List Diagnostic
check_outcome MaterializationOutcome.conflict conflicts writes ref =
    if eqb conflicts 0 || ltb 0 writes
    then inconsistent "a CONFLICT outcome records at least one conflict and no write" ref
        "/spec/outcome"
      ∷ []
    else []
check_outcome applied conflicts writes ref =
    if ltb 0 conflicts
    then inconsistent "an APPLIED outcome records no conflict" ref "/spec/outcome" ∷ []
    else []

module _ (date_parse : String → Option ℕ) where
  unfoldable pub validate_materialization_record : MaterializationRecord → String → List Diagnostic
  unfolding timestamp check_files
  validate_materialization_record d ref =
      timestamp date_parse (some d.spec.executed_at) "/spec/executedAt" ref
      ++ check_files [] 0 ref d.spec.files
      ++ check_outcome d.spec.outcome (length (keep file_conflicts d.spec.files))
          (length (keep file_writes d.spec.files)) ref
