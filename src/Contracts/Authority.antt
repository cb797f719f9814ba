-- ===== src/Contracts/Authority.antt =====
-- kernel/contracts/src/authority.ts: who may decide, verify and apply.
-- `none` is the TypeError of reading an Evidence field off a document of another kind.
pub mod Laws
use enistere_foundation.Base.{
  String, Bool, true, false, ◌&&◌, List, [], ◌∷◌, ◌++◌, Option, none, some, ◌<>◌, is_some,
  if◌then◌else◌,
}
use enistere_foundation.Contracts.Diagnostics.{Diagnostic, DiagnosticCode, diagnostic, located}
use enistere_foundation.Contracts.Diagnostics.Codes.{
  authority_acceptance_missing, authority_acceptance_inconsistent, authority_ai_cannot_decide,
  authority_actor_cannot_decide, authority_system_decision_without_policy,
  authority_ai_cannot_verify, authority_actor_cannot_verify, authority_ai_cannot_apply,
  authority_actor_cannot_apply, authority_derived_not_compiled,
}
use enistere_foundation.Contracts.Types.{ContractDocument, Spec, materialization, evidence}
use enistere_foundation.Contracts.Types.Common.{
  Actor, ActorType, Acceptance, AcceptanceDecision, Metadata, ProvenanceOrigin, Status,
}
use enistere_foundation.Contracts.Types.Evidence.{
  CheckerMode, automated, human_review, EvidenceRecordSpec, MaterializationRecordSpec,
}

pub data StateClass : Type 0 where
  authoritative derived record_of_proof : StateClass

-- The texts of the enumerations.
unfoldable pub actor_text : ActorType → String
actor_text ActorType.human = "HUMAN"
actor_text ActorType.ai_agent = "AI_AGENT"
actor_text ActorType.compiler = "COMPILER"
actor_text ActorType.checker = "CHECKER"
actor_text ActorType.observer = "OBSERVER"
actor_text ActorType.system = "SYSTEM"

unfoldable pub origin_text : ProvenanceOrigin → String
origin_text ProvenanceOrigin.human = "HUMAN"
origin_text ProvenanceOrigin.import = "IMPORT"
origin_text ProvenanceOrigin.ai_proposal = "AI_PROPOSAL"
origin_text ProvenanceOrigin.compiler = "COMPILER"
origin_text ProvenanceOrigin.checker = "CHECKER"
origin_text ProvenanceOrigin.observer = "OBSERVER"
origin_text ProvenanceOrigin.migration = "MIGRATION"

unfoldable pub status_text : Status → String
status_text Status.draft = "DRAFT"
status_text Status.proposed = "PROPOSED"
status_text Status.accepted = "ACCEPTED"
status_text Status.rejected = "REJECTED"
status_text Status.superseded = "SUPERSEDED"
status_text Status.current = "CURRENT"
status_text Status.stale = "STALE"
status_text Status.applied = "APPLIED"
status_text Status.withdrawn = "WITHDRAWN"
status_text Status.valid = "VALID"
status_text Status.expired = "EXPIRED"
status_text Status.invalidated = "INVALIDATED"

unfoldable pub decision_text : AcceptanceDecision → String
decision_text AcceptanceDecision.accepted = "ACCEPTED"
decision_text AcceptanceDecision.rejected = "REJECTED"

mode_text : CheckerMode → String
mode_text automated = "AUTOMATED"
mode_text human_review = "HUMAN_REVIEW"

-- `DECIDED[status]`, `UNDECIDED.has(status)`
abbrev decided : Status → Option AcceptanceDecision
decided Status.accepted = some AcceptanceDecision.accepted
decided Status.rejected = some AcceptanceDecision.rejected
decided Status.applied = some AcceptanceDecision.accepted
decided _ = none

abbrev undecided : Status → Bool
undecided Status.draft = true
undecided Status.proposed = true
undecided Status.withdrawn = true
undecided _ = false

abbrev is_compiler : ActorType → Bool
is_compiler ActorType.compiler = true
is_compiler _ = false

abbrev is_from_compiler : ProvenanceOrigin → Bool
is_from_compiler ProvenanceOrigin.compiler = true
is_from_compiler _ = false

abbrev same_decision : AcceptanceDecision → AcceptanceDecision → Bool
same_decision AcceptanceDecision.accepted AcceptanceDecision.accepted = true
same_decision AcceptanceDecision.rejected AcceptanceDecision.rejected = true
same_decision _ _ = false

-- `switch (actor.type)`
decide_by : ActorType → String → Bool → String → List Diagnostic
decide_by ActorType.human id has_policy ref = []
decide_by ActorType.system id has_policy ref =
    if has_policy
    then []
    else diagnostic authority_system_decision_without_policy
        ("automatic decision by '" <> id <> "' without approval policy")
        (located ref "/metadata/acceptance/actor")
      ∷ []
decide_by ActorType.ai_agent id has_policy ref =
    diagnostic authority_ai_cannot_decide ("AI agent '" <> id <> "' cannot exercise DECIDE")
      (located ref "/metadata/acceptance/actor")
    ∷ []
decide_by type id has_policy ref =
    diagnostic authority_actor_cannot_decide
      (actor_text type <> " '" <> id <> "' cannot exercise DECIDE")
      (located ref "/metadata/acceptance/actor")
    ∷ []

abbrev decide_actor : Actor → Bool → String → List Diagnostic
decide_actor actor has_policy ref = decide_by actor.type actor.id has_policy ref

-- The acceptance of a contract whose status states the decision `expected`.
check_decision : Option AcceptanceDecision → Status → Acceptance → String → List Diagnostic
check_decision none status acceptance ref = []
check_decision (some expected) status acceptance ref =
    if same_decision acceptance.decision expected
    then []
    else diagnostic authority_acceptance_inconsistent
        ("status "
          <> status_text status
          <> " contradicts acceptance decision "
          <> decision_text acceptance.decision)
        (located ref "/metadata/acceptance/decision")
      ∷ []

check_undecided : Status → Acceptance → String → List Diagnostic
check_undecided status acceptance ref =
    if undecided status
    then diagnostic authority_acceptance_inconsistent
        ("status "
          <> status_text status
          <> " cannot carry a decision ("
          <> decision_text acceptance.decision
          <> ")")
        (located ref "/metadata/acceptance")
      ∷ []
    else []

authoritative_by : Status → Option Acceptance → String → List Diagnostic
authoritative_by status none ref =
    if is_some (decided status)
    then diagnostic authority_acceptance_missing
        ("status " <> status_text status <> " requires an explicit DECIDE transition")
        (located ref "/metadata/acceptance")
      ∷ []
    else []
authoritative_by status (some acceptance) ref =
    check_decision (decided status) status acceptance ref
    ++ (check_undecided status acceptance ref
        ++ decide_actor acceptance.actor (is_some acceptance.approval_policy) ref)

abbrev check_authoritative : ContractDocument → String → List Diagnostic
check_authoritative d ref = authoritative_by d.metadata.status d.metadata.acceptance ref

-- `document.metadata.acceptance` of a contract that is never accepted.
never_accepted : Option Acceptance → String → String → List Diagnostic
never_accepted none message ref = []
never_accepted (some acceptance) message ref =
    diagnostic authority_acceptance_inconsistent message (located ref "/metadata/acceptance") ∷ []

derived_by : ProvenanceOrigin → ActorType → String → List Diagnostic
derived_by origin type ref =
    if is_from_compiler origin && is_compiler type
    then []
    else diagnostic authority_derived_not_compiled
        ("derived contract produced by " <> origin_text origin <> "/" <> actor_text type)
        (located ref "/metadata/provenance")
      ∷ []

check_derived : ContractDocument → String → List Diagnostic
check_derived d ref =
    derived_by d.metadata.provenance.origin d.metadata.provenance.actor.type ref
    ++ never_accepted d.metadata.acceptance "a derived contract is recomputed, never accepted" ref

abbrev expected_verifier : CheckerMode → ActorType
expected_verifier automated = ActorType.checker
expected_verifier human_review = ActorType.human

abbrev may_verify : CheckerMode → ActorType → Bool
may_verify automated ActorType.checker = true
may_verify human_review ActorType.human = true
may_verify _ _ = false

verify_by : ActorType → String → CheckerMode → String → String → List Diagnostic
verify_by ActorType.ai_agent id mode path ref =
    diagnostic authority_ai_cannot_verify ("AI agent '" <> id <> "' cannot exercise VERIFY")
      (located ref path)
    ∷ []
verify_by type id mode path ref =
    if may_verify mode type
    then []
    else diagnostic authority_actor_cannot_verify
        (mode_text mode
          <> " evidence must be produced by a "
          <> actor_text (expected_verifier mode)
          <> ", not "
          <> actor_text type
          <> " '"
          <> id
          <> "'")
        (located ref path)
      ∷ []

abbrev verify_actor : Actor → CheckerMode → String → String → List Diagnostic
verify_actor actor mode path ref = verify_by actor.type actor.id mode path ref

apply_by : ActorType → String → String → String → List Diagnostic
apply_by ActorType.ai_agent id path ref =
    diagnostic authority_ai_cannot_apply ("AI agent '" <> id <> "' cannot exercise COMPILE_APPLY")
      (located ref path)
    ∷ []
apply_by ActorType.compiler id path ref = []
apply_by type id path ref =
    diagnostic authority_actor_cannot_apply
      ("a materialization is recorded by the COMPILER, not "
        <> actor_text type
        <> " '"
        <> id
        <> "'")
      (located ref path)
    ∷ []

abbrev apply_actor : Actor → String → String → List Diagnostic
apply_actor actor path ref = apply_by actor.type actor.id path ref

apply_origin : ProvenanceOrigin → String → List Diagnostic
apply_origin origin ref =
    if is_from_compiler origin
    then []
    else diagnostic authority_actor_cannot_apply
        ("a materialization record originates from the COMPILER, not " <> origin_text origin)
        (located ref "/metadata/provenance/origin")
      ∷ []

check_record : Spec → Metadata → String → Option (List Diagnostic)
check_record (materialization spec) metadata ref = some (
    apply_actor spec.produced_by "/spec/producedBy" ref
    ++ (apply_actor metadata.provenance.actor "/metadata/provenance/actor" ref
        ++ (apply_origin metadata.provenance.origin ref
            ++ never_accepted metadata.acceptance
                "a materialization record is applied, never accepted" ref)))
check_record (evidence spec) metadata ref = some (
    verify_actor spec.produced_by spec.checker.mode "/spec/producedBy" ref
    ++ (verify_actor metadata.provenance.actor spec.checker.mode "/metadata/provenance/actor" ref
        ++ never_accepted metadata.acceptance "an Evidence record is verified, never accepted" ref))
check_record _ metadata ref = none

unfoldable pub authority_diagnostics :
    StateClass → ContractDocument → String → Option (List Diagnostic)
unfolding diagnostic authoritative_by check_decision check_undecided decide_by check_derived
    derived_by never_accepted check_record verify_by apply_by apply_origin decision_text origin_text
    mode_text actor_text status_text
authority_diagnostics authoritative d ref = some (check_authoritative d ref)
authority_diagnostics derived d ref = some (check_derived d ref)
authority_diagnostics record_of_proof d ref = check_record d.spec d.metadata ref
