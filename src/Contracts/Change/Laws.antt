-- ===== src/Contracts/Change/Laws.antt =====
-- Which change requests A6 accepts.
use enistere_foundation.Base.{
  String, ◌<◌, true, false, List, [], Option, none, some, ◌∷◌, ◌≡◌, ◌≢◌, ◌↔◌, refl, arith, eq_iff,
}
use enistere_foundation.Base.Text.Sets.{all_distinct}
use enistere_foundation.Contracts.Authority.Laws.{both_iff}
use enistere_foundation.Contracts.Checks.Laws.{unique_ids_iff}
use enistere_foundation.Contracts.Change.{
  work_ids, is_proceeding, is_applied, check_target, check_classification, validate_change_request,
}
use enistere_foundation.Contracts.Refs.{ContractRef, kind_text}
use enistere_foundation.Contracts.Types.Change.{
  ChangeClassification, safe_automatic, review_required, migration_required, manual_only,
  unsupported, OwnerWorkItem, Migration, ChangeRequestSpec,
}
use enistere_foundation.Contracts.Types.Common.{Metadata, Status}

-- What is proposed is a later revision of the base; an applied change proposes something.
abbrev pub IsTargeted : Option ContractRef → ContractRef → Status → Type 0
IsTargeted none base status = status ≢ Status.applied
IsTargeted (some p) base status =
    (kind_text p.kind ≡ kind_text base.kind) × (p.id ≡ base.id) × (base.revision < p.revision)

-- An unsupported change does not proceed, and the others have what their class asks for.
abbrev pub IsBounded :
    ChangeClassification → Status → Option Migration → List OwnerWorkItem → Type 0
IsBounded unsupported status migration work = (status ≢ Status.accepted) × (status ≢ Status.applied)
IsBounded migration_required status migration work = migration ≢ none
IsBounded manual_only status migration work = work ≢ []
IsBounded safe_automatic status migration work = Unit
IsBounded review_required status migration work = Unit

not_applied_iff : (s : Status) → (is_applied s ≡ false) ↔ (s ≢ Status.applied)
not_applied_iff s = ((λ h e. ground (arith, h, e)), λ n. ground (arith, n))

not_proceeding_iff :
    (s : Status) → (is_proceeding s ≡ false) ↔ ((s ≢ Status.accepted) × (s ≢ Status.applied))
not_proceeding_iff s = (
  (λ h. ((λ e. ground (arith, h, e)), λ e. ground (arith, h, e))),
  λ (n, m). ground (arith, n, m),
)

check_target_iff :
    (proposed : Option ContractRef) (base : ContractRef) (status : Status) (ref : String)
    → (check_target proposed base status ref ≡ []) ↔ IsTargeted proposed base status
check_target_iff none base status ref =
    let (to, from) = not_applied_iff status in
    ((λ h. to (ground (arith, h))), λ n. rw (from n) refl)
check_target_iff (some p) base status ref = (
  (λ h. (
    (eq_iff (kind_text p.kind) (kind_text base.kind)).0 (ground (arith, h)),
    (eq_iff p.id base.id).0 (ground (arith, h)),
    ground (arith, h),
  )),
  λ h. ground (
    arith,
    (eq_iff (kind_text p.kind) (kind_text base.kind)).1 h.0,
    (eq_iff p.id base.id).1 h.1,
    h.2,
  ),
)

check_classification_iff :
    (c : ChangeClassification) (status : Status) (migration : Option Migration)
    (work : List OwnerWorkItem) (ref : String)
    → (check_classification c status migration work ref ≡ []) ↔ IsBounded c status migration work
check_classification_iff unsupported status migration work ref =
    let (to, from) = not_proceeding_iff status in
    ((λ h. to (ground (arith, h))), λ n. rw (from n) refl)
check_classification_iff migration_required status none work ref =
    ((λ h. cc h), λ n. absurd (n refl))
check_classification_iff migration_required status (some m) work ref = ((λ h e. cc e), λ n. refl)
check_classification_iff manual_only status migration [] ref = ((λ h. cc h), λ n. absurd (n refl))
check_classification_iff manual_only status migration (w ∷ work) ref = ((λ h e. cc e), λ n. refl)
check_classification_iff safe_automatic status migration work ref = ((λ h. tt), λ h. refl)
check_classification_iff review_required status migration work ref = ((λ h. tt), λ h. refl)

pub record IsSoundChange (metadata : Metadata) (spec : ChangeRequestSpec) : Type 0 where
  pub work : all_distinct (work_ids spec.impact.owner_work) ≡ true
  pub targeted : IsTargeted spec.proposed spec.base metadata.status
  pub bounded :
      IsBounded spec.classification metadata.status spec.impact.migration spec.impact.owner_work

-- A change request is accepted exactly when the items of owner work have distinct identifiers;
-- what it proposes, if anything, is a newer revision of a contract of the base's kind and
-- identifier, and it proposes something if its status is APPLIED; and it is neither ACCEPTED
-- nor APPLIED if its classification is UNSUPPORTED, has a migration if that is
-- MIGRATION_REQUIRED, and has owner work if that is MANUAL_ONLY.
pub validate_change_request_iff :
    (metadata : Metadata) (spec : ChangeRequestSpec) (ref : String)
    → (validate_change_request metadata spec ref ≡ []) ↔ IsSoundChange metadata spec
unfolding validate_change_request
validate_change_request_iff metadata spec ref =
    let unique = unique_ids_iff (work_ids spec.impact.owner_work) "/spec/impact/ownerWork" ref in
    let targeted = check_target_iff spec.proposed spec.base metadata.status ref in
    let bounded =
      check_classification_iff spec.classification metadata.status spec.impact.migration
        spec.impact.owner_work ref in
    let (to, from) = both_iff _ _ (both_iff _ _ unique targeted) bounded in
    (
      (λ h. let ((p, q), r) = to h in record { work = p; targeted = q; bounded = r }),
      λ h. from ((h.work, h.targeted), h.bounded),
    )
