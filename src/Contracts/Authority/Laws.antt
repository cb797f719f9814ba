-- ===== src/Contracts/Authority/Laws.antt =====
-- The authority checks accept exactly the documents that the authority classes allow.
use enistere_foundation.Base.{
  String, Bool, true, List, [], ◌∷◌, ◌++◌, Option, none, some, ◌≡◌, ◌≢◌, ◌↔◌, ◌⊎◌, refl, ap, inl,
  inr, arith, is_some, Option-cases, Bool-cases,
}
use enistere_foundation.Contracts.Types.{ContractDocument, Spec, materialization, evidence}
use enistere_foundation.Contracts.Types.Common.{
  ActorType, Acceptance, AcceptanceDecision, Metadata, ProvenanceOrigin, Status,
}
use enistere_foundation.Contracts.Types.Evidence.{CheckerMode}
use enistere_foundation.Contracts.Authority.{
  StateClass, authoritative, derived, record_of_proof, decide_by, check_decision, check_undecided,
  authoritative_by, derived_by, never_accepted, check_derived, verify_by, apply_by, apply_origin,
  check_record, authority_diagnostics, decided, undecided, expected_verifier, decide_actor,
}

-- Which statuses state a decision, and which say that none was taken.
pub data StatesDecision : Status → AcceptanceDecision → Type 0 where
  by_acceptance : StatesDecision Status.accepted AcceptanceDecision.accepted
  by_rejection : StatesDecision Status.rejected AcceptanceDecision.rejected
  by_application : StatesDecision Status.applied AcceptanceDecision.accepted

pub data IsOpen : Status → Type 0 where
  drafted : IsOpen Status.draft
  submitted : IsOpen Status.proposed
  withdrawn : IsOpen Status.withdrawn

-- DECIDE: a human, or the system under an approval policy.
pub data MayDecide (a : Acceptance) : Type 0 where
  by_human : a.actor.type ≡ ActorType.human → MayDecide a
  by_policy : a.actor.type ≡ ActorType.system → a.approval_policy ≢ none → MayDecide a

abbrev pub HasDecided : Status → Option Acceptance → Type 0
HasDecided status none = (d : AcceptanceDecision) → ¬ StatesDecision status d
HasDecided status (some a) =
    ((d : AcceptanceDecision) → StatesDecision status d → a.decision ≡ d)
    × (¬ IsOpen status)
    × MayDecide a

-- COMPILE_APPLY: the compiler alone. VERIFY: a checker, or a human who reviews.
abbrev pub IsCompiled : Metadata → Type 0
IsCompiled m =
    (m.provenance.origin ≡ ProvenanceOrigin.compiler)
    × (m.provenance.actor.type ≡ ActorType.compiler)
    × (m.acceptance ≡ none)

abbrev pub IsProof : Spec → Metadata → Type 0
IsProof (materialization spec) m = (spec.produced_by.type ≡ ActorType.compiler) × IsCompiled m
IsProof (evidence spec) m =
    (spec.produced_by.type ≡ expected_verifier spec.checker.mode)
    × (m.provenance.actor.type ≡ expected_verifier spec.checker.mode)
    × (m.acceptance ≡ none)
IsProof _ m = ⊥

abbrev pub IsAuthorised : StateClass → ContractDocument → Type 0
IsAuthorised authoritative d = HasDecided d.metadata.status d.metadata.acceptance
IsAuthorised derived d = IsCompiled d.metadata
IsAuthorised record_of_proof d = IsProof d.spec d.metadata

-- Two checks in a row report nothing exactly when neither does.
pub both_iff {ℓ} :
    {A : Type ℓ} {P Q : Type 0} (xs ys : List A)
    → (xs ≡ []) ↔ P
    → (ys ≡ []) ↔ Q
    → (xs ++ ys ≡ []) ↔ (P × Q)
both_iff [] ys p q = (λ h. (p.0 refl, q.0 h), λ h. q.1 h.1)
both_iff (x ∷ xs) ys p q = (λ h. cc, λ h. cc (p.1 h.0))

some_iff {ℓ} : {A : Type ℓ} {P : Type 0} (x y : A) → (x ≡ y) ↔ P → (some x ≡ some y) ↔ P
some_iff x y p = (λ h. p.0 cc, λ h. ap some (p.1 h))

never_accepted_iff :
    (a : Option Acceptance) (message ref : String)
    → (never_accepted a message ref ≡ []) ↔ (a ≡ none)
unfolding never_accepted
never_accepted_iff none message ref = (λ h. refl, λ h. refl)
never_accepted_iff (some a) message ref = (λ h. cc, λ h. cc)

verify_by_iff :
    (type : ActorType) (id : String) (mode : CheckerMode) (path ref : String)
    → (verify_by type id mode path ref ≡ []) ↔ (type ≡ expected_verifier mode)
unfolding verify_by
verify_by_iff type id mode path ref = (λ h. ground arith, λ h. ground arith)

apply_by_iff :
    (type : ActorType) (id path ref : String)
    → (apply_by type id path ref ≡ []) ↔ (type ≡ ActorType.compiler)
unfolding apply_by
apply_by_iff type id path ref = (λ h. ground arith, λ h. ground arith)

apply_origin_iff :
    (origin : ProvenanceOrigin) (ref : String)
    → (apply_origin origin ref ≡ []) ↔ (origin ≡ ProvenanceOrigin.compiler)
unfolding apply_origin
apply_origin_iff origin ref = (λ h. ground arith, λ h. ground arith)

derived_by_iff :
    (origin : ProvenanceOrigin) (type : ActorType) (ref : String)
    → (derived_by origin type ref ≡ [])
      ↔ ((origin ≡ ProvenanceOrigin.compiler) × (type ≡ ActorType.compiler))
unfolding derived_by
derived_by_iff origin type ref = (λ h. ground arith, λ h. ground arith)

decide_by_iff :
    (type : ActorType) (id : String) (has_policy : Bool) (ref : String)
    → (decide_by type id has_policy ref ≡ [])
      ↔ ((type ≡ ActorType.human) ⊎ ((type ≡ ActorType.system) × (has_policy ≡ true)))
unfolding decide_by
decide_by_iff type id has_policy ref = (λ h. ground arith, λ h. ground arith)

decide_actor_iff :
    (a : Acceptance) (ref : String)
    → (decide_actor a.actor (is_some a.approval_policy) ref ≡ []) ↔ MayDecide a
decide_actor_iff a ref =
    let (to, from) = decide_by_iff a.actor.type a.actor.id (is_some a.approval_policy) ref in
    (
      (λ h. elim (to h) [ inl p ↦ by_human p | inr (p, q) ↦ by_policy p (λ e. ground arith) ]),
      λ (m : MayDecide a).
          from (elim m [ by_human p ↦ inl p | by_policy p q ↦ inr (p, ground arith) ]),
    )

decided_of :
    (status : Status) (d : AcceptanceDecision) → StatesDecision status d → decided status ≡ some d
decided_of status d by_acceptance = refl
decided_of status d by_rejection = refl
decided_of status d by_application = refl

states_of :
    (status : Status) (d : AcceptanceDecision) → decided status ≡ some d → StatesDecision status d
states_of Status.accepted AcceptanceDecision.accepted h = by_acceptance
states_of Status.accepted AcceptanceDecision.rejected h = cc
states_of Status.rejected AcceptanceDecision.rejected h = by_rejection
states_of Status.rejected AcceptanceDecision.accepted h = cc
states_of Status.applied AcceptanceDecision.accepted h = by_application
states_of Status.applied AcceptanceDecision.rejected h = cc
states_of _ d h = cc

undecided_of : (status : Status) → IsOpen status → undecided status ≡ true
undecided_of status drafted = refl
undecided_of status submitted = refl
undecided_of status withdrawn = refl

IsOpen-of : (status : Status) → undecided status ≡ true → IsOpen status
IsOpen-of Status.draft h = drafted
IsOpen-of Status.proposed h = submitted
IsOpen-of Status.withdrawn h = withdrawn
IsOpen-of _ h = cc

check_decision_iff :
    (status : Status) (a : Acceptance) (ref : String)
    → (check_decision (decided status) status a ref ≡ [])
      ↔ ((d : AcceptanceDecision) → StatesDecision status d → a.decision ≡ d)
unfolding check_decision
check_decision_iff status a ref = (
  (λ h d s. ground (arith, decided_of status d s)),
  λ h. elim (Option-cases (decided status)) [
    | inl e ↦ rw e
    | inr (d, e) ↦ rw e (ground (arith, h d (states_of status d e)))
  ],
)

check_undecided_iff :
    (status : Status) (a : Acceptance) (ref : String)
    → (check_undecided status a ref ≡ []) ↔ (¬ IsOpen status)
unfolding check_undecided
check_undecided_iff status a ref = (
  (λ h o. ground (arith, undecided_of status o)),
  λ h. elim (Bool-cases (undecided status)) [
    | inl e ↦ absurd (h (IsOpen-of status e))
    | inr e ↦ rw e
  ],
)

authoritative_by_iff :
    (status : Status) (a : Option Acceptance) (ref : String)
    → (authoritative_by status a ref ≡ []) ↔ HasDecided status a
unfolding authoritative_by
authoritative_by_iff status none ref = (
  (λ h d s. ground (arith, decided_of status d s)),
  λ h. elim (Option-cases (decided status)) [
    | inl e ↦ rw e
    | inr (d, e) ↦ absurd (h d (states_of status d e))
  ],
)
authoritative_by_iff status (some a) ref =
    let rest = both_iff _ _ (check_undecided_iff status a ref) (decide_actor_iff a ref) in
    let (to, from) = both_iff _ _ (check_decision_iff status a ref) rest in
    ((λ h. let (p, q) = to h in (p, q.0, q.1)), λ (p, q, r). from (p, (q, r)))

check_derived_iff :
    (d : ContractDocument) (ref : String) → (check_derived d ref ≡ []) ↔ IsCompiled d.metadata
unfolding check_derived
check_derived_iff d ref =
    let m = d.metadata in
    let (to, from) =
      both_iff _ _ (derived_by_iff m.provenance.origin m.provenance.actor.type ref)
        (never_accepted_iff m.acceptance _ ref) in
    ((λ h. let (p, q) = to h in (p.0, p.1, q)), λ (o, t, q). from ((o, t), q))

check_record_iff :
    (spec : Spec) (m : Metadata) (ref : String)
    → (check_record spec m ref ≡ some []) ↔ IsProof spec m
unfolding check_record
check_record_iff (materialization spec) m ref =
    let accepted = never_accepted_iff m.acceptance _ ref in
    let origin = both_iff _ _ (apply_origin_iff m.provenance.origin ref) accepted in
    let actor =
      both_iff _ _ (apply_by_iff m.provenance.actor.type m.provenance.actor.id _ ref) origin in
    let producer =
      both_iff _ _ (apply_by_iff spec.produced_by.type spec.produced_by.id _ ref) actor in
    let (to, from) = some_iff _ [] producer in
    ((λ h. let (p, q) = to h in (p, (q.1.0, q.0, q.1.1))), λ (p, q). from (p, (q.1, (q.0, q.2))))
check_record_iff (evidence spec) m ref =
    let mode = spec.checker.mode in
    let accepted = never_accepted_iff m.acceptance _ ref in
    let actor =
      both_iff _ _ (verify_by_iff m.provenance.actor.type m.provenance.actor.id mode _ ref)
        accepted in
    let producer =
      both_iff _ _ (verify_by_iff spec.produced_by.type spec.produced_by.id mode _ ref) actor in
    let (to, from) = some_iff _ [] producer in
    ((λ h. let (p, q) = to h in (p, q.0, q.1)), λ (p, q, r). from (p, (q, r)))
check_record_iff _ m ref = (λ h. cc, λ h. elim h [ ])

-- The authority checks report nothing exactly when the contract is authorised. For an
-- authoritative contract: the status agrees with an acceptance by a human, or by the system
-- under a policy, and an undecided status has none. For a derived one: it was compiled and
-- never accepted. For a record: it was produced by whoever may apply or verify, and never
-- accepted.
pub authority_diagnostics_iff :
    (class : StateClass) (d : ContractDocument) (ref : String)
    → (authority_diagnostics class d ref ≡ some []) ↔ IsAuthorised class d
unfolding authority_diagnostics
authority_diagnostics_iff authoritative d ref =
    some_iff _ [] (authoritative_by_iff d.metadata.status d.metadata.acceptance ref)
authority_diagnostics_iff derived d ref = some_iff _ [] (check_derived_iff d ref)
authority_diagnostics_iff record_of_proof d ref = check_record_iff d.spec d.metadata ref
