-- ===== src/Compiler/DomainIr.antt =====
-- kernel/compiler/src/domain-ir.ts: the Domain IR of a Domain Contract. The digest of the contract
-- is given, and the digest of the IR itself is left out.
use enistere_foundation.Base.{
  String, ℕ, Bool, false, not, List, [], Option, none, some, map, get_or, includes, compare_text,
  ◌==◌, if◌then◌else◌,
}
use enistere_foundation.Base.Sorting.{sort}
use enistere_foundation.Base.Sorting.Order.{by}
use enistere_foundation.Base.Text.Unique.{sorted}
use enistere_foundation.Contracts.Domain.{domain_primitives, element_type, type_ids}
use enistere_foundation.Contracts.Json.{Json, Members, object}
use enistere_foundation.Contracts.Refs.{Digest, domain_contract, plain_ref, format_ref}
use enistere_foundation.Contracts.Types.Common.{Metadata}
use enistere_foundation.Contracts.Types.Domain.{
  DomainTypeKind, OperationKind, Enforcement, Field, DomainType, DomainOperation, Invariant, Event,
  Scenario, Facet, DomainContractSpec,
}

pub record DomainTypeRef : Type 0 where
  pub expression : String
  pub list : Bool
  pub primitive : Option String
  pub type : Option String

pub record IrField : Type 0 where
  pub name : String
  pub type : DomainTypeRef
  pub required : Bool
  pub sensitive : Bool

pub record IrType : Type 0 where
  pub id : String
  pub ref : String
  pub kind : DomainTypeKind
  pub fields : List IrField
  pub values : List String

pub record IrOperation : Type 0 where
  pub id : String
  pub ref : String
  pub kind : OperationKind
  pub input : Option DomainTypeRef
  pub output : Option DomainTypeRef
  pub errors : List String
  pub intent : String
  pub roles : List String
  pub emits : List String
  pub invariants : List String
  pub idempotent : Bool

pub record IrEvent : Type 0 where
  pub id : String
  pub ref : String
  pub version : ℕ
  pub payload : DomainTypeRef

pub record IrInvariant : Type 0 where
  pub id : String
  pub ref : String
  pub statement : String
  pub applies_to : List String
  pub enforcement : Enforcement

pub record IrScenario : Type 0 where
  pub id : String
  pub ref : String
  pub operations : List String
  pub requirements : List String

pub record IrFacet : Type 0 where
  pub id : String
  pub version : String
  pub applies_to : List String
  pub configuration : Json

pub record ContractEntry : Type 0 where
  pub ref : String
  pub digest : Digest

-- `unsupported` holds the identifiers: the kind and the code of its items are constants.
pub record DomainIr : Type 0 where
  pub contract : ContractEntry
  pub bounded_context : String
  pub types : List IrType
  pub operations : List IrOperation
  pub events : List IrEvent
  pub invariants : List IrInvariant
  pub acceptance : List IrScenario
  pub facets : List IrFacet
  pub unsupported : List String

-- `item(id)`
abbrev pub item_ref : String → ℕ → String → String
item_ref contract revision id =
    format_ref (record (plain_ref domain_contract contract revision) { item = some id })

abbrev pub resolve_type : (String → String) → List String → String → DomainTypeRef
resolve_type item types expression =
    let element = element_type expression in
    record {
      expression = expression;
      list = not (element == expression);
      primitive = if includes domain_primitives element then some element else none;
      type = if includes types element then some (item element) else none;
    }

abbrev optional_type : (String → DomainTypeRef) → Option String → Option DomainTypeRef
optional_type resolve none = none
optional_type resolve (some expression) = some (resolve expression)

abbrev ir_field : (String → DomainTypeRef) → Field → IrField
ir_field resolve f = record {
  name = f.name;
  type = resolve f.type;
  required = f.required;
  sensitive = get_or f.sensitive false;
}

abbrev ir_type : (String → String) → (String → DomainTypeRef) → DomainType → IrType
ir_type item resolve t = record {
  id = t.id;
  ref = item t.id;
  kind = t.kind;
  fields = map (ir_field resolve) (get_or t.fields []);
  values = get_or t.values [];
}

abbrev ir_operation : (String → String) → (String → DomainTypeRef) → DomainOperation → IrOperation
ir_operation item resolve o = record {
  id = o.id;
  ref = item o.id;
  kind = o.kind;
  input = optional_type resolve o.input;
  output = optional_type resolve o.output;
  errors = sorted (get_or o.errors []);
  intent = o.authorization.intent;
  roles = sorted (get_or o.authorization.roles []);
  emits = sorted (map item (get_or o.emits []));
  invariants = sorted (map item (get_or o.invariants []));
  idempotent = get_or o.idempotent false;
}

abbrev ir_event : (String → String) → (String → DomainTypeRef) → Event → IrEvent
ir_event item resolve e = record {
  id = e.id;
  ref = item e.id;
  version = e.version;
  payload = resolve e.payload;
}

abbrev ir_invariant : (String → String) → Invariant → IrInvariant
ir_invariant item i = record {
  id = i.id;
  ref = item i.id;
  statement = i.statement;
  applies_to = sorted (map item i.applies_to);
  enforcement = i.enforcement;
}

abbrev ir_scenario : (String → String) → Scenario → IrScenario
ir_scenario item s = record {
  id = s.id;
  ref = item s.id;
  operations = sorted (map item s.operations);
  requirements = sorted s.requirements;
}

abbrev ir_facet : (String → String) → Facet → IrFacet
ir_facet item f = record {
  id = f.id;
  version = f.version;
  applies_to = sorted (map item f.applies_to);
  configuration = get_or f.configuration (object Members.end);
}

unfoldable pub build_domain_ir : Metadata → DomainContractSpec → Digest → DomainIr
unfolding sorted sort compare_text element_type format_ref
build_domain_ir metadata spec digest =
    let item = item_ref metadata.id metadata.revision in
    let resolve = resolve_type item (type_ids spec.types) in
    record {
      contract = record {
        ref = format_ref (plain_ref domain_contract metadata.id metadata.revision);
        digest = digest;
      };
      bounded_context = spec.bounded_context;
      types = sort (by compare_text (λ (t : IrType). t.id)) (map (ir_type item resolve) spec.types);
      operations =
          sort (by compare_text (λ (o : IrOperation). o.id))
            (map (ir_operation item resolve) spec.operations);
      events =
          sort (by compare_text (λ (e : IrEvent). e.id)) (map (ir_event item resolve) spec.events);
      invariants =
          sort (by compare_text (λ (i : IrInvariant). i.id))
            (map (ir_invariant item) spec.invariants);
      acceptance =
          sort (by compare_text (λ (s : IrScenario). s.id))
            (map (ir_scenario item) spec.acceptance);
      facets = sort (by compare_text (λ (f : IrFacet). f.id)) (map (ir_facet item) spec.facets);
      unsupported = sort compare_text (map (λ (f : Facet). f.id) spec.facets);
    }
