-- ===== src/Contracts/System/Cross.antt =====
-- kernel/contracts/src/contracts/system-definition.ts: A4 against its pinned inputs.
pub mod Allocation
pub mod Items
pub mod Laws
pub mod Offers
use enistere_foundation.Base.{
  String, ℕ, Bool, true, false, not, ◌&&◌, ◌||◌, List, [], ◌∷◌, ◌++◌, Option, none, some, ◌>>=◌,
  map, keep, find, includes, is_some, get_or, flat_map, flat_map_from, decimal, ◌<>◌, ◌==◌,
  if◌then◌else◌,
}
use enistere_foundation.Base.Dict.{get, put, from_entries}
use enistere_foundation.Contracts.Checks.{known_ids}
use enistere_foundation.Contracts.Diagnostics.{Diagnostic, DiagnosticCode, diagnostic, located}
use enistere_foundation.Contracts.Diagnostics.Codes.{
  system_unknown_requirement, system_unknown_decision, system_unknown_domain_item,
  system_operation_without_provider, system_event_without_producer, system_requirement_uncovered,
}
use enistere_foundation.Contracts.Refs.{parse_domain_item_ref}
use enistere_foundation.Contracts.Types.Baseline.{
  Requirement, RequirementType, RequirementStatus, RequirementBaselineSpec,
}
use enistere_foundation.Contracts.Types.Decisions.{Decision, DecisionSetSpec}
use enistere_foundation.Contracts.Types.Domain.{DomainOperation, Event, DomainContractSpec}
use enistere_foundation.Contracts.Types.System.{Component, Consumed, SystemDefinitionSpec}

pub record SystemDefinitionInputs : Type 0 where
  pub baseline : Option RequirementBaselineSpec
  pub decisions : Option DecisionSetSpec
  pub domains : List (String × DomainContractSpec)

pub data Expected : Type 0 where
  operation event : Expected

abbrev pub expected_text : Expected → String
expected_text operation = "operation"
expected_text event = "event"

abbrev pub items_of : Expected → DomainContractSpec → List String
items_of operation d = map (λ (o : DomainOperation). o.id) d.operations
items_of event d = map (λ (e : Event). e.id) d.events

module _ (domains : List (String × DomainContractSpec)) where
  abbrev known_item : Expected → String × String → Option (String × String)
  known_item expected (contract, item) = elim (get domains contract) [
    | none ↦ none
    | some d ↦ if includes (items_of expected d) item then some (contract, item) else none
  ]

  -- What `domainItem` returns.
  unfoldable pub domain_item : Expected → String → Option (String × String)
  unfolding parse_domain_item_ref get
  domain_item expected text = parse_domain_item_ref text >>= known_item expected

  -- What it pushes.
  abbrev pub check_item : Expected → String → String → ℕ → String → List Diagnostic
  check_item expected path ref index text =
      if is_some (domain_item expected text)
      then []
      else diagnostic system_unknown_domain_item
          ("unknown domain " <> expected_text expected <> " '" <> text <> "'")
          (located ref (path <> "/" <> decimal index))
        ∷ []

  -- `own`, for a component.
  abbrev pub implemented_by : Component → List String
  implemented_by c = keep (λ text. is_some (domain_item operation text)) (get_or c.implements [])

  abbrev emits_of : String → Option DomainContractSpec → List String
  emits_of item none = []
  emits_of item (some d) = elim (find (λ (o : DomainOperation). o.id == item) d.operations) [
    | none ↦ []
    | some o ↦ get_or o.emits []
  ]

  abbrev emitted : Option (String × String) → List String
  emitted none = []
  emitted (some (contract, item)) =
      map (λ e. contract <> "#" <> e) (emits_of item (get domains contract))

  abbrev published_by : Component → List String
  published_by c =
      flat_map (λ text. emitted (domain_item operation text)) (get_or c.implements [])
      ++ keep (λ text. is_some (domain_item event text)) (get_or c.publishes [])

  -- The set `published`, after the first loop.
  unfoldable pub published : List Component → List String
  unfolding domain_item get
  published components = flat_map published_by components

  -- The map `implemented`, after the first loop.
  unfoldable pub implemented : List Component → List (String × List String)
  unfolding domain_item from_entries put
  implemented components =
      from_entries [] (map (λ (c : Component). (c.id, implemented_by c)) components)

  abbrev pub check_known :
      Option (List String)
      → List String
      → String
      → String
      → DiagnosticCode
      → String
      → List Diagnostic
  check_known none values path ref code label = []
  check_known (some known) values path ref code label = known_ids values known path ref code label

  unfoldable pub check_offer :
      Option (List String) → Option (List String) → String → ℕ → Component → List Diagnostic
  unfolding known_ids domain_item diagnostic decimal
  check_offer requirements decisions ref index c =
      let path = "/spec/components/" <> decimal index in
      check_known requirements (get_or c.requirements []) (path <> "/requirements") ref
        system_unknown_requirement "requirement"
      ++ check_known decisions (get_or c.decisions []) (path <> "/decisions") ref
          system_unknown_decision "decision"
      ++ flat_map_from 0 (check_item operation (path <> "/implements") ref) (get_or c.implements [])
      ++ flat_map_from 0 (check_item event (path <> "/publishes") ref) (get_or c.publishes [])

  abbrev pub provides : Option (List String) → String → Bool
  provides none text = false
  provides (some own) text = includes own text

  abbrev pub check_operation :
      List (String × List String) → String → String → String → ℕ → String → List Diagnostic
  check_operation implementers target path ref index text =
      if not (is_some (domain_item operation text))
      then check_item operation path ref index text
      else if not (provides (get implementers target) text)
      then diagnostic system_operation_without_provider
          ("'" <> target <> "' does not implement '" <> text <> "'")
          (located ref (path <> "/" <> decimal index))
        ∷ []
      else []

  abbrev pub check_edge :
      List (String × List String) → String → String → ℕ → Consumed → List Diagnostic
  check_edge implementers path ref index k =
      flat_map_from 0
        (check_operation implementers k.component
          (path <> "/consumes/" <> decimal index <> "/operations") ref)
        (get_or k.operations [])

  abbrev pub check_subscribed : List String → String → String → ℕ → String → List Diagnostic
  check_subscribed events path ref index text =
      if not (is_some (domain_item event text))
      then check_item event path ref index text
      else if not (includes events text)
      then diagnostic system_event_without_producer ("no component publishes '" <> text <> "'")
          (located ref (path <> "/" <> decimal index))
        ∷ []
      else []

  unfoldable pub check_use :
      List (String × List String) → List String → String → ℕ → Component → List Diagnostic
  unfolding domain_item get diagnostic decimal
  check_use implementers events ref index c =
      let path = "/spec/components/" <> decimal index in
      flat_map_from 0 (check_edge implementers path ref) (get_or c.consumes [])
      ++ flat_map_from 0 (check_subscribed events (path <> "/subscribes") ref)
          (get_or c.subscribes [])

abbrev is_functional : RequirementType → Bool
is_functional RequirementType.functional = true
is_functional _ = false

abbrev is_accepted : RequirementStatus → Bool
is_accepted RequirementStatus.accepted = true
is_accepted _ = false

-- The requirement is accepted and functional, and allocated to no component.
abbrev pub is_uncovered : List String → Requirement → Bool
is_uncovered allocated r =
    is_accepted r.status && is_functional r.type && not (includes allocated r.id)

abbrev pub check_coverage : List String → String → Requirement → List Diagnostic
check_coverage allocated ref r =
    if is_uncovered allocated r
    then diagnostic system_requirement_uncovered
        ("accepted requirement '" <> r.id <> "' is allocated to no component")
        (located ref "/spec/components")
      ∷ []
    else []

abbrev pub allocated_of : List Component → List String
allocated_of = flat_map (λ (c : Component). get_or c.requirements [])

abbrev pub check_baseline :
    List Component → String → Option RequirementBaselineSpec → List Diagnostic
check_baseline components ref none = []
check_baseline components ref (some baseline) =
    flat_map (check_coverage (allocated_of components) ref) baseline.requirements

abbrev pub requirement_ids : Option RequirementBaselineSpec → Option (List String)
requirement_ids none = none
requirement_ids (some baseline) = some (map (λ (r : Requirement). r.id) baseline.requirements)

abbrev pub decision_ids : Option DecisionSetSpec → Option (List String)
decision_ids none = none
decision_ids (some set) = some (map (λ (d : Decision). d.id) set.decisions)

unfoldable pub cross_validate_system_definition :
    SystemDefinitionSpec → String → SystemDefinitionInputs → List Diagnostic
unfolding check_offer check_use implemented published diagnostic
cross_validate_system_definition spec ref inputs =
    flat_map_from 0
      (check_offer inputs.domains (requirement_ids inputs.baseline) (decision_ids inputs.decisions)
        ref)
      spec.components
    ++ flat_map_from 0
        (check_use inputs.domains (implemented inputs.domains spec.components)
          (published inputs.domains spec.components) ref)
        spec.components
    ++ check_baseline spec.components ref inputs.baseline
