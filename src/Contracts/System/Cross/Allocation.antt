-- ===== src/Contracts/System/Cross/Allocation.antt =====
-- Which accepted functional requirements of the baseline are allocated to a component.
use enistere_foundation.Base.{
  String, true, false, List, [], Option, none, some, includes, get_or, ◌≡◌, ◌↔◌, refl, All, Any,
  arith, Bool-cases, inl, inr,
}
use enistere_foundation.Contracts.System.Cross.{
  is_accepted, is_functional, is_uncovered, check_coverage, allocated_of, check_baseline,
}
use enistere_foundation.Contracts.System.Cross.Offers.{includes-flat_map_iff}
use enistere_foundation.Contracts.System.Laws.{flat_map_iff}
use enistere_foundation.Contracts.Types.Baseline.{
  Requirement, RequirementType, RequirementStatus, RequirementBaselineSpec,
}
use enistere_foundation.Contracts.Types.System.{Component}

-- An accepted functional requirement is allocated to some component.
abbrev pub IsAllocated : List Component → Requirement → Type 0
IsAllocated components r =
    r.status ≡ RequirementStatus.accepted
    → r.type ≡ RequirementType.functional
    → Any (λ (c : Component). includes (get_or c.requirements []) r.id ≡ true) components

is_accepted_iff :
    (s : RequirementStatus) → (is_accepted s ≡ true) ↔ (s ≡ RequirementStatus.accepted)
is_accepted_iff s = (ground arith, ground arith)

is_functional_iff :
    (t : RequirementType) → (is_functional t ≡ true) ↔ (t ≡ RequirementType.functional)
is_functional_iff t = (ground arith, ground arith)

is_uncovered_iff :
    (components : List Component) (r : Requirement)
    → (is_uncovered (allocated_of components) r ≡ false) ↔ IsAllocated components r
is_uncovered_iff components r =
    let (to, from) =
      includes-flat_map_iff (λ (c : Component). get_or c.requirements []) components r.id in
    let (status, accepts) = is_accepted_iff r.status in
    let (type, functions) = is_functional_iff r.type in
    (
      (λ h accepted functional. to (ground (arith, h, accepts accepted, functions functional))),
      λ h. elim (Bool-cases (is_accepted r.status)) [
        | inr other ↦ ground (arith, other)
        | inl accepted ↦ elim (Bool-cases (is_functional r.type)) [
          | inr other ↦ ground (arith, other)
          | inl functional ↦ ground (arith, from (h (status accepted) (type functional)))
        ]
      ],
    )

check_coverage_iff :
    (components : List Component) (ref : String) (r : Requirement)
    → (check_coverage (allocated_of components) ref r ≡ []) ↔ IsAllocated components r
check_coverage_iff components ref r =
    let (to, from) = is_uncovered_iff components r in
    elim (Bool-cases (is_uncovered (allocated_of components) r)) [
      | inl missed ↦ ((λ h. absurd (cc (h, missed))), λ h. absurd (cc (from h, missed)))
      | inr done ↦ ((λ h. to done), λ h. rw done refl)
    ]

-- Every accepted functional requirement of the baseline is allocated.
abbrev pub IsCovered : List Component → Option RequirementBaselineSpec → Type 0
IsCovered components none = Unit
IsCovered components (some baseline) = All (IsAllocated components) baseline.requirements

pub check_baseline_iff :
    (components : List Component) (ref : String) (baseline : Option RequirementBaselineSpec)
    → (check_baseline components ref baseline ≡ []) ↔ IsCovered components baseline
check_baseline_iff components ref none = ((λ h. tt), λ h. refl)
check_baseline_iff components ref (some baseline) =
    flat_map_iff (IsAllocated components) _ baseline.requirements
      (λ r. check_coverage_iff components ref r)
