-- ===== src/Contracts/System/Cross/Laws.antt =====
-- Which system definitions A4 accepts against their inputs.
use enistere_foundation.Base.{
  String, true, List, [], Option, none, some, includes, get_or, map, ◌≡◌, All, Any,
}
use enistere_foundation.Contracts.System.Cross.{SystemDefinitionInputs, operation, event}
use enistere_foundation.Contracts.System.Cross.Allocation.{IsCovered}
use enistere_foundation.Contracts.System.Cross.Items.{IsItem}
use enistere_foundation.Contracts.System.Cross.Offers.{Implements, Publishes}
use enistere_foundation.Contracts.Types.Baseline.{Requirement, RequirementBaselineSpec}
use enistere_foundation.Contracts.Types.Decisions.{Decision, DecisionSetSpec}
use enistere_foundation.Contracts.Types.Domain.{DomainContractSpec}
use enistere_foundation.Contracts.Types.System.{Component, Consumed, SystemDefinitionSpec}

-- Every value is a requirement of the baseline, if there is one.
abbrev pub AreRequirements : Option RequirementBaselineSpec → List String → Type 0
AreRequirements none values = Unit
AreRequirements (some baseline) values =
    All (λ v. includes (map (λ (r : Requirement). r.id) baseline.requirements) v ≡ true) values

-- Every value is a decision of the set, if there is one.
abbrev pub AreDecisions : Option DecisionSetSpec → List String → Type 0
AreDecisions none values = Unit
AreDecisions (some set) values =
    All (λ v. includes (map (λ (d : Decision). d.id) set.decisions) v ≡ true) values

module _ (domains : List (String × DomainContractSpec)) where
  -- What a component declares of itself.
  pub record IsTraced (baseline : Option RequirementBaselineSpec) (decided : Option DecisionSetSpec)
      (c : Component) : Type 0 where
    pub requirements : AreRequirements baseline (get_or c.requirements [])
    pub decisions : AreDecisions decided (get_or c.decisions [])
    pub implements : All (IsItem domains operation) (get_or c.implements [])
    pub publishes : All (IsItem domains event) (get_or c.publishes [])

  -- The text names an operation, and the component of that identifier implements it.
  abbrev IsProvided : List Component → String → String → Type 0
  IsProvided components target text =
      IsItem domains operation text × Implements components target text

  abbrev IsHeard : List Component → String → Type 0
  IsHeard components text = IsItem domains event text × Any (Publishes domains text) components

  -- What a component uses of the others.
  pub record IsServed (components : List Component) (c : Component) : Type 0 where
    pub consumed :
        All
          (λ (k : Consumed). All (IsProvided components k.component) (get_or k.operations []))
          (get_or c.consumes [])
    pub subscribed : All (IsHeard components) (get_or c.subscribes [])

pub record IsTraceable (spec : SystemDefinitionSpec) (inputs : SystemDefinitionInputs)
    : Type 0 where
  pub traced : All (IsTraced inputs.domains inputs.baseline inputs.decisions) spec.components
  pub served : All (IsServed inputs.domains spec.components) spec.components
  pub covered : IsCovered spec.components inputs.baseline
