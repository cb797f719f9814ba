-- ===== src/Contracts/Tests/Systems.antt =====
-- kernel/contracts/src/contracts/system-definition.ts on two components and a domain.
use enistere_foundation.Base.{String, List, [], ◌∷◌, none, some, ◌≡◌, refl, length}
use enistere_foundation.Contracts.Refs.{
  requirement_baseline, decision_set, effective_organization_context, domain_contract, plain_ref,
}
use enistere_foundation.Contracts.System.{validate_system_definition}
use enistere_foundation.Contracts.System.Cross.{
  SystemDefinitionInputs, cross_validate_system_definition,
}
use enistere_foundation.Contracts.Types.Domain.{DomainContractSpec, OperationKind}
use enistere_foundation.Contracts.Types.System.{
  Component, Access, SystemDefinitionSpec, OwnershipClass,
}

abbrev component : String → Component
component id = record {
  id = id;
  name = id;
  kind = "api-service";
  responsibilities = [];
  audience = none;
  requirements = none;
  decisions = none;
  implements = none;
  publishes = none;
  subscribes = none;
  consumes = none;
  data_access = none;
  platform_capabilities = none;
  integrations = none;
  runtime = none;
  experience = none;
  ownership = record { class = OwnershipClass.compiler_owned; team = "core" };
  environments = none;
}

abbrev api : Component
api = record (component "api") {
  implements = some ("orders#place" ∷ []);
  data_access = some (record { store = "store"; access = Access.owner } ∷ []);
}

abbrev web : Component
web = record (component "web") {
  consumes = some (
      record { component = "api"; interaction = "http"; operations = some ("orders#place" ∷ []) }
      ∷ []);
  subscribes = some ("orders#Placed" ∷ []);
  environments = some ("prod" ∷ []);
}

abbrev shop : List Component → SystemDefinitionSpec
shop components = record {
  system = "shop";
  purpose = "sell";
  inputs = record {
    requirement_baseline = plain_ref requirement_baseline "needs" 1;
    decision_set = plain_ref decision_set "choices" 1;
    organization_context = plain_ref effective_organization_context "org" 1;
    domain_contracts = plain_ref domain_contract "orders" 1 ∷ [];
  };
  components = components;
  integrations = [];
  environments =
      record { id = "prod"; kind = "production"; deployment_mode = "saas"; region = none } ∷ [];
}

abbrev orders : DomainContractSpec
orders = record {
  system = "shop";
  bounded_context = "orders";
  requirement_baseline = plain_ref requirement_baseline "needs" 1;
  types = [];
  operations =
      record {
        id = "place";
        kind = OperationKind.command;
        summary = "place";
        input = none;
        output = none;
        errors = none;
        authorization = record { intent = "place"; roles = none };
        emits = some ("Placed" ∷ []);
        invariants = none;
        idempotent = none;
      }
      ∷ [];
  invariants = [];
  events = record { id = "Placed"; version = 1; payload = "string"; description = none } ∷ [];
  acceptance = [];
  facets = [];
}

abbrev inputs : SystemDefinitionInputs
inputs = record { baseline = none; decisions = none; domains = ("orders", orders) ∷ [] }

abbrev complete : SystemDefinitionSpec
complete = shop (api ∷ web ∷ component "store" ∷ [])

complete_accepted : validate_system_definition complete "r" ≡ []
unfolding validate_system_definition
complete_accepted = refl

-- Nobody else may own the store, and a component does not consume itself.
two_owners :
    length (
      validate_system_definition
        (shop (api ∷ record api { id = "old" } ∷ component "store" ∷ []))
        "r")
    ≡ 1
unfolding validate_system_definition
two_owners = refl

complete_traced : cross_validate_system_definition complete "r" inputs ≡ []
unfolding cross_validate_system_definition
complete_traced = refl

-- Without the service, the operation has no provider and the event no producer.
unserved : length (cross_validate_system_definition (shop (web ∷ [])) "r" inputs) ≡ 2
unfolding cross_validate_system_definition
unserved = refl
