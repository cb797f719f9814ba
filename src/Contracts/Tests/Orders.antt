-- ===== src/Contracts/Tests/Orders.antt =====
-- The rules of A5 on a small domain contract.
use enistere_foundation.Base.{
  String, true, false, List, [], ◌∷◌, Option, none, some, map, ◌≡◌, ◌↔◌, refl,
}
use enistere_foundation.Contracts.Diagnostics.{Diagnostic}
use enistere_foundation.Contracts.Domain.{element_type, validate_domain_contract}
use enistere_foundation.Contracts.Domain.Laws.{
  HasDistinctItems, IsClosed, validate_domain_contract_iff,
}
use enistere_foundation.Contracts.Refs.{plain_ref, requirement_baseline}
use enistere_foundation.Contracts.Types.Domain.{
  DomainTypeKind, OperationKind, Enforcement, Field, DomainType, DomainContractSpec,
}

element_of_list : element_type "list<Order>" ≡ "Order"
unfolding element_type
element_of_list = refl

element_of_nested : element_type "list<list<Order>>" ≡ "list<Order>"
unfolding element_type
element_of_nested = refl

element_of_nothing : element_type "list<>" ≡ "list<>"
unfolding element_type
element_of_nothing = refl

abbrev field : String → String → Field
field name type = record {
  name = name;
  type = type;
  required = true;
  sensitive = none;
  description = none;
}

abbrev order : List Field → DomainType
order fields = record {
  id = "Order";
  kind = DomainTypeKind.entity;
  description = none;
  fields = some fields;
  values = none;
}

abbrev orders : List Field → DomainContractSpec
orders fields = record {
  system = "shop";
  bounded_context = "orders";
  requirement_baseline = plain_ref requirement_baseline "shop" 1;
  types = order fields ∷ [];
  operations =
      record {
        id = "place";
        kind = OperationKind.command;
        summary = "Place an order";
        input = some "Order";
        output = some "list<uuid>";
        errors = none;
        authorization = record { intent = "buy"; roles = none };
        emits = some ("placed" ∷ []);
        invariants = some ("paid" ∷ []);
        idempotent = some false;
      }
      ∷ [];
  invariants =
      record {
        id = "paid";
        statement = "paid";
        applies_to = "Order" ∷ [];
        enforcement = Enforcement.deterministic;
      }
      ∷ [];
  events = record { id = "placed"; version = 1; payload = "Order"; description = none } ∷ [];
  acceptance =
      record { id = "a1"; scenario = "buys"; operations = "place" ∷ []; requirements = [] } ∷ [];
  facets =
      record {
        id = "audit";
        version = "1";
        applies_to = "place" ∷ "placed" ∷ [];
        configuration = none;
      }
      ∷ [];
}

abbrev sound : DomainContractSpec
sound = orders (field "id" "uuid" ∷ field "lines" "list<text>" ∷ [])

orders_accepted : validate_domain_contract sound "o" ≡ []
unfolding validate_domain_contract
orders_accepted = refl

abbrev reported_paths : List Diagnostic → List (Option String)
reported_paths = map (λ (d : Diagnostic). d.path)

-- A field twice, the second time of an unknown type.
orders_refused :
    reported_paths
      (validate_domain_contract (orders (field "id" "uuid" ∷ field "id" "list<Line>" ∷ [])) "o")
    ≡ some "/spec/types/0/fields/1/name" ∷ some "/spec/types/0/fields/1/type" ∷ []
unfolding validate_domain_contract
orders_refused = refl

validate_domain_contract_iff_example :
    (validate_domain_contract sound "o" ≡ []) ↔ (HasDistinctItems sound × IsClosed sound)
validate_domain_contract_iff_example = validate_domain_contract_iff sound "o"
