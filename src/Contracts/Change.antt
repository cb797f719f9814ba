-- ===== src/Contracts/Change.antt =====
-- kernel/contracts/src/contracts/change-request.ts: the rules of A6.
-- The current document of a base is given as its kind, its metadata and its content digest.
pub mod Apply
pub mod Laws
use enistere_foundation.Base.{
  String, ℕ, Bool, true, false, not, ◌&&◌, ◌||◌, List, [], ◌∷◌, ◌++◌, Option, none, some, map,
  is_empty, is_some, get_or, includes, flat_map_from, decimal, leb, eqb, ◌<>◌, ◌==◌, if◌then◌else◌,
}
use enistere_foundation.Contracts.Checks.{unique_ids, known_ids}
use enistere_foundation.Contracts.Change.Apply.{
  Outcome, document, refused, apply_changes, member_at,
}
use enistere_foundation.Contracts.Diagnostics.{Diagnostic, diagnostic, located}
use enistere_foundation.Contracts.Diagnostics.Codes.{
  change_base_stale, change_target_mismatch, change_unsupported_cannot_proceed,
  change_migration_missing, change_owner_work_missing, change_unknown_component,
  change_inconsistent,
}
use enistere_foundation.Contracts.Digest.{Result, returned, ◌>>=◌, digest_of}
use enistere_foundation.Contracts.Json.{Json, object, unsupported, undefined}
use enistere_foundation.Contracts.Refs.{
  ContractRef, ContractKind, Digest, change_request, kind_text, same_kind, plain_ref, format_ref,
}
use enistere_foundation.Contracts.Types.Change.{
  ChangeClassification, safe_automatic, review_required, migration_required, manual_only,
  unsupported, OwnerWorkItem, Migration, ChangeRequestSpec,
}
use enistere_foundation.Contracts.Types.Common.{Metadata, Status}

abbrev pub work_ids : List OwnerWorkItem → List String
work_ids = map (λ (w : OwnerWorkItem). w.id)

abbrev change_request_items : ChangeRequestSpec → List String
change_request_items spec = work_ids spec.impact.owner_work

-- The statuses of a change that proceeds, and their texts.
abbrev pub is_proceeding : Status → Bool
is_proceeding Status.accepted = true
is_proceeding Status.applied = true
is_proceeding _ = false

abbrev pub is_applied : Status → Bool
is_applied Status.applied = true
is_applied _ = false

abbrev proceeding_text : Status → String
proceeding_text Status.applied = "APPLIED"
proceeding_text _ = "ACCEPTED"

-- A newer revision of the same contract.
abbrev pub is_newer : ContractRef → ContractRef → Bool
is_newer proposed base =
    same_kind proposed.kind base.kind
    && (proposed.id == base.id)
    && not (leb proposed.revision base.revision)

abbrev pub check_target : Option ContractRef → ContractRef → Status → String → List Diagnostic
check_target (some proposed) base status ref =
    if is_newer proposed base
    then []
    else diagnostic change_target_mismatch
        ("proposed " <> format_ref proposed <> " is not a newer revision of " <> format_ref base)
        (located ref "/spec/proposed")
      ∷ []
check_target none base status ref =
    if is_applied status
    then diagnostic change_target_mismatch "an APPLIED change names the revision it produced"
        (located ref "/spec/proposed")
      ∷ []
    else []

abbrev pub check_classification :
    ChangeClassification → Status → Option Migration → List OwnerWorkItem → String → List Diagnostic
check_classification unsupported status migration work ref =
    if is_proceeding status
    then diagnostic change_unsupported_cannot_proceed
        ("an UNSUPPORTED change cannot be " <> proceeding_text status)
        (located ref "/metadata/status")
      ∷ []
    else []
check_classification migration_required status migration work ref =
    if is_some migration
    then []
    else diagnostic change_migration_missing "MIGRATION_REQUIRED without migration strategy"
        (located ref "/spec/impact/migration")
      ∷ []
check_classification manual_only status migration work ref =
    if is_empty work
    then diagnostic change_owner_work_missing "MANUAL_ONLY without owner work"
        (located ref "/spec/impact/ownerWork")
      ∷ []
    else []
check_classification safe_automatic status migration work ref = []
check_classification review_required status migration work ref = []

unfoldable pub validate_change_request : Metadata → ChangeRequestSpec → String → List Diagnostic
unfolding unique_ids diagnostic format_ref kind_text
validate_change_request metadata spec ref =
    unique_ids (work_ids spec.impact.owner_work) "/spec/impact/ownerWork" ref
    ++ check_target spec.proposed spec.base metadata.status ref
    ++ check_classification spec.classification metadata.status spec.impact.migration
        spec.impact.owner_work ref

abbrev check_work_component : List String → String → ℕ → Option String → List Diagnostic
check_work_component components ref index none = []
check_work_component components ref index (some component) =
    if includes components component
    then []
    else diagnostic change_unknown_component ("unknown component '" <> component <> "'")
        (located ref ("/spec/impact/ownerWork/" <> decimal index <> "/component"))
      ∷ []

-- The identifiers of the components of the base, when it is a System Definition.
unfoldable pub cross_validate_change_request :
    ChangeRequestSpec → String → Option (List String) → List Diagnostic
unfolding known_ids diagnostic decimal
cross_validate_change_request spec ref none = []
cross_validate_change_request spec ref (some components) =
    known_ids spec.impact.components components "/spec/impact/components" ref
      change_unknown_component "component"
    ++ flat_map_from 0
        (λ index (w : OwnerWorkItem). check_work_component components ref index w.component)
        spec.impact.owner_work

-- The reference of the request itself.
abbrev pub request_ref : Metadata → String
request_ref metadata = format_ref (plain_ref change_request metadata.id metadata.revision)

-- `document.spec`
abbrev pub spec_of : Json → Json
spec_of (object ms) = get_or (member_at ms "spec") (unsupported undefined)
spec_of _ = unsupported undefined

module _ (sha256 : String → String) (to_index : String → Option ℕ) where
  abbrev pub inconsistent : String → ContractRef → Option ContractRef → List Diagnostic
  inconsistent ref base proposed =
      diagnostic change_inconsistent
        ("applying the changes to "
          <> format_ref base
          <> " does not produce the spec of "
          <> format_ref (get_or proposed base))
        (located ref "/spec/changes")
      ∷ []

  abbrev pub compare_specs : String → ChangeRequestSpec → Json → Outcome → Result (List Diagnostic)
  compare_specs ref spec proposed (refused index reason) =
      returned (
        diagnostic change_inconsistent reason (located ref ("/spec/changes/" <> decimal index))
        ∷ [])
  compare_specs ref spec proposed (document applied) = do
    made ← digest_of sha256 (spec_of applied)
    wanted ← digest_of sha256 (spec_of proposed)
    returned (if made == wanted then [] else inconsistent ref spec.base spec.proposed)

  -- The base and the proposed document as JSON.
  unfoldable pub verify_change_consistency :
      Metadata → ChangeRequestSpec → Json → Json → Result (List Diagnostic)
  unfolding apply_changes digest_of diagnostic format_ref decimal
  verify_change_consistency metadata spec base proposed =
      compare_specs (request_ref metadata) spec proposed (apply_changes to_index base spec.changes)

abbrev is_digest : Option Digest → Digest → Bool
is_digest none digest = false
is_digest (some expected) digest = digest == expected

unfoldable pub verify_change_base :
    Metadata → ChangeRequestSpec → ContractKind → Metadata → Digest → List Diagnostic
unfolding diagnostic format_ref kind_text decimal
verify_change_base metadata spec kind current digest =
    if not (same_kind kind spec.base.kind && (current.id == spec.base.id))
    then diagnostic change_target_mismatch
        ("current document is not " <> kind_text spec.base.kind <> "/" <> spec.base.id)
        (located (request_ref metadata) "/spec/base")
      ∷ []
    else if not (eqb current.revision spec.base.revision && is_digest spec.base.digest digest)
    then diagnostic change_base_stale
        ("base "
          <> format_ref spec.base
          <> " is not the current revision ("
          <> decimal current.revision
          <> ")")
        (located (request_ref metadata) "/spec/base")
      ∷ []
    else []
