-- ===== src/Contracts/Decisions.antt =====
-- kernel/contracts/src/contracts/decision-set.ts: the rules of A2.
pub mod Laws
use enistere_foundation.Base.{
  String, ℕ, Bool, true, false, ◌&&◌, ◌||◌, not, List, [], ◌∷◌, ◌++◌, Option, none, some, map,
  length, includes, is_some, get_or, flat_map_from, decimal, ltb, ◌<>◌, ◌==◌, if◌then◌else◌,
}
use enistere_foundation.Contracts.Checks.{unique_ids, known_ids}
use enistere_foundation.Contracts.Diagnostics.{Diagnostic, diagnostic, located}
use enistere_foundation.Contracts.Diagnostics.Codes.{
  decision_unknown_option, decision_chosen_option_missing, decision_no_alternative,
  decision_unknown_superseded, decision_not_decided, decision_unknown_requirement,
}
use enistere_foundation.Contracts.Types.Baseline.{Requirement, RequirementBaselineSpec}
use enistere_foundation.Contracts.Types.Common.{Metadata, Status}
use enistere_foundation.Contracts.Types.Decisions.{
  Decision, DecisionOption, DecisionSetSpec, DecisionStatus,
}

abbrev pub decision_ids : List Decision → List String
decision_ids = map (λ (d : Decision). d.id)

abbrev pub option_ids : List DecisionOption → List String
option_ids = map (λ (o : DecisionOption). o.id)

abbrev decision_set_items : DecisionSetSpec → List String
decision_set_items spec = decision_ids spec.decisions

abbrev pub is_accepted : DecisionStatus → Bool
is_accepted DecisionStatus.accepted = true
is_accepted _ = false

abbrev pub is_proposed : DecisionStatus → Bool
is_proposed DecisionStatus.proposed = true
is_proposed _ = false

abbrev pub is_accepted_set : Status → Bool
is_accepted_set Status.accepted = true
is_accepted_set _ = false

abbrev pub check_chosen : Option String → List String → String → String → List Diagnostic
check_chosen none options path ref = []
check_chosen (some chosen) options path ref =
    if includes options chosen
    then []
    else diagnostic decision_unknown_option ("chosen option '" <> chosen <> "' was not evaluated")
        (located ref (path <> "/chosenOption"))
      ∷ []

abbrev pub check_complete : Bool → Bool → String → String → String → List Diagnostic
check_complete has_option has_rationale id path ref =
    if has_option && has_rationale
    then []
    else diagnostic decision_chosen_option_missing
        ("accepted decision '" <> id <> "' lacks its chosen option or rationale") (located ref path)
      ∷ []

abbrev pub check_alternative : ℕ → String → String → String → List Diagnostic
check_alternative options id path ref =
    if ltb options 2
    then diagnostic decision_no_alternative
        ("accepted decision '" <> id <> "' records no alternative")
        (located ref (path <> "/options"))
      ∷ []
    else []

abbrev pub check_accepted : Bool → Decision → String → String → List Diagnostic
check_accepted accepted d path ref =
    if accepted
    then check_complete (is_some d.chosen_option) (is_some d.rationale) d.id path ref
      ++ check_alternative (length d.options) d.id path ref
    else []

abbrev pub check_superseded :
    Option String → List String → String → String → String → List Diagnostic
check_superseded none decisions id path ref = []
check_superseded (some superseded) decisions id path ref =
    if not (includes decisions superseded) || superseded == id
    then diagnostic decision_unknown_superseded
        ("'" <> id <> "' supersedes unknown decision '" <> superseded <> "'")
        (located ref (path <> "/supersedes"))
      ∷ []
    else []

abbrev pub check_open : Bool → String → String → String → List Diagnostic
check_open still_open id path ref =
    if still_open
    then diagnostic decision_not_decided ("decision '" <> id <> "' is still PROPOSED")
        (located ref (path <> "/status"))
      ∷ []
    else []

unfoldable pub validate_decision : Status → List String → String → ℕ → Decision → List Diagnostic
unfolding unique_ids diagnostic decimal
validate_decision status decisions ref index d =
    let path = "/spec/decisions/" <> decimal index in
    unique_ids (option_ids d.options) (path <> "/options") ref
    ++ check_chosen d.chosen_option (option_ids d.options) path ref
    ++ check_accepted (is_accepted d.status) d path ref
    ++ check_superseded d.supersedes decisions d.id path ref
    ++ check_open (is_accepted_set status && is_proposed d.status) d.id path ref

unfoldable pub validate_decision_set : Metadata → DecisionSetSpec → String → List Diagnostic
unfolding validate_decision
validate_decision_set metadata spec ref =
    unique_ids (decision_ids spec.decisions) "/spec/decisions" ref
    ++ flat_map_from 0 (validate_decision metadata.status (decision_ids spec.decisions) ref)
        spec.decisions

abbrev check_satisfies : List String → String → String → ℕ → DecisionOption → List Diagnostic
check_satisfies requirements path ref index option =
    known_ids (get_or option.satisfies []) requirements
      (path <> "/options/" <> decimal index <> "/satisfies") ref decision_unknown_requirement
      "requirement"

unfoldable pub cross_validate_decision : List String → String → ℕ → Decision → List Diagnostic
unfolding known_ids decimal
cross_validate_decision requirements ref index d =
    let path = "/spec/decisions/" <> decimal index in
    known_ids d.drivers requirements (path <> "/drivers") ref decision_unknown_requirement
      "requirement"
    ++ flat_map_from 0 (check_satisfies requirements path ref) d.options

unfoldable pub cross_validate_decision_set :
    DecisionSetSpec → String → RequirementBaselineSpec → List Diagnostic
unfolding cross_validate_decision
cross_validate_decision_set spec ref baseline =
    flat_map_from 0
      (cross_validate_decision (map (λ (r : Requirement). r.id) baseline.requirements) ref)
      spec.decisions
