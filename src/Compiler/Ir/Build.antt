-- ===== src/Compiler/Ir/Build.antt =====
-- kernel/compiler/src/ir.ts: the System IR of a definition.
-- The Domain Contracts come with their digests, and the design bindings are given.
use Prim.Native.Nat.{Ordering}
use enistere_foundation.Base.{
  String, Bool, ◌&&◌, ◌||◌, List, [], ◌++◌, Option, none, some, map, keep, any, is_empty, flat_map,
  get_or, includes, compare_text, eqb, ◌<>◌, ◌==◌,
}
use enistere_foundation.Base.Dict.{get, from_entries, put}
use enistere_foundation.Base.Sorting.{sort}
use enistere_foundation.Base.Sorting.Order.{by, or_by}
use enistere_foundation.Base.Text.Unique.{sorted}
use enistere_foundation.Compiler.DomainIr.{IrOperation, IrEvent, DomainIr, build_domain_ir}
use enistere_foundation.Compiler.Ir.{
  IrInteraction, IrRuntime, IrCapability, IrDataAccess, IrComponent, IrEnvironment, IrIntegration,
  DesignBinding, OperationBinding, EventBinding, IntentCode, event_unpublished,
  facet_not_interpreted, operation_unimplemented, UnsupportedIntent, SystemIr,
}
use enistere_foundation.Contracts.Refs.{
  ContractRef, Digest, system_definition, plain_ref, format_ref, parse_domain_item_ref,
}
use enistere_foundation.Contracts.Types.Common.{Metadata}
use enistere_foundation.Contracts.Types.Domain.{DomainContractSpec}
use enistere_foundation.Contracts.Types.System.{
  Component, Consumed, DataAccess, PlatformCapability, Runtime, Integration, Environment,
  SystemDefinitionSpec,
}

abbrev pinned_item : ContractRef → String → String
pinned_item ref item = format_ref (record {
  kind = ref.kind;
  id = ref.id;
  revision = ref.revision;
  digest = none;
  item = some item;
})

abbrev resolved_item : List (String × ContractRef) → String → Option (String × String) → String
resolved_item contracts text none = text
resolved_item contracts text (some (contract, item)) = elim (get contracts contract) [
  | none ↦ text
  | some ref ↦ pinned_item ref item
]

-- `domainItemResolver(definition)`
unfoldable pub resolve_item : SystemDefinitionSpec → String → String
unfolding get from_entries put parse_domain_item_ref format_ref
resolve_item spec text =
    resolved_item
      (from_entries [] (map (λ (r : ContractRef). (r.id, r)) spec.inputs.domain_contracts)) text
      (parse_domain_item_ref text)

abbrev declared_runtime : Option Runtime → IrRuntime
declared_runtime none = record { preferences = []; constraints = [] }
declared_runtime (some r) = record {
  preferences = get_or r.preferences [];
  constraints = get_or r.constraints [];
}

abbrev ir_interaction : (String → String) → Consumed → IrInteraction
ir_interaction resolve edge = record {
  target = edge.component;
  interaction = edge.interaction;
  operations = sorted (map resolve (get_or edge.operations []));
}

unfoldable pub normalize_component : Component → List String → (String → String) → IrComponent
unfolding sorted sort compare_text
normalize_component c all_environments resolve = record {
  id = c.id;
  name = c.name;
  kind = c.kind;
  audience = c.audience;
  runtime = declared_runtime c.runtime;
  platform_capabilities = sort (by compare_text (λ (k : IrCapability). k.id)) (
      map (λ (k : PlatformCapability). record { id = k.id; version = k.version })
        (get_or c.platform_capabilities []));
  interactions =
      sort
        (or_by (by compare_text (λ (i : IrInteraction). i.target))
          (by compare_text (λ i. i.interaction)))
        (map (ir_interaction resolve) (get_or c.consumes []));
  publishes = sorted (map resolve (get_or c.publishes []));
  subscribes = sorted (map resolve (get_or c.subscribes []));
  implements = sorted (map resolve (get_or c.implements []));
  data_access = sort (by compare_text (λ (d : IrDataAccess). d.store)) (
      map (λ (d : DataAccess). record { store = d.store; access = d.access })
        (get_or c.data_access []));
  integrations = sorted (get_or c.integrations []);
  environments = keep (includes (get_or c.environments all_environments)) all_environments;
  ownership = c.ownership;
  requirements = sorted (get_or c.requirements []);
  decisions = sorted (get_or c.decisions []);
}

-- `members(select, item)`
abbrev pub bound_to : (IrComponent → List String) → List IrComponent → String → List String
bound_to select components item =
    map (λ (c : IrComponent). c.id) (keep (λ c. includes (select c) item) components)

abbrev pub consumed_operations : IrComponent → List String
consumed_operations c = flat_map (λ (i : IrInteraction). i.operations) c.interactions

abbrev pub operation_binding : List IrComponent → IrOperation → OperationBinding
operation_binding components o = record {
  item = o.ref;
  implemented_by = bound_to (λ c. c.implements) components o.ref;
  consumed_by = bound_to consumed_operations components o.ref;
}

-- The operations of the domain that emit the event.
abbrev pub emitters : List IrOperation → String → List String
emitters operations event =
    map (λ (o : IrOperation). o.ref) (keep (λ o. includes o.emits event) operations)

abbrev pub publishes_event : List String → String → IrComponent → Bool
publishes_event emitters event c =
    includes c.publishes event || any (includes emitters) c.implements

abbrev pub event_binding : List IrComponent → List IrOperation → IrEvent → EventBinding
event_binding components operations e = record {
  item = e.ref;
  published_by =
      map (λ (c : IrComponent). c.id)
        (keep (publishes_event (emitters operations e.ref) e.ref) components);
  subscribed_by = bound_to (λ c. c.subscribes) components e.ref;
}

abbrev pub operation_bindings_of : List IrComponent → List DomainIr → List OperationBinding
operation_bindings_of components =
    flat_map (λ (d : DomainIr). map (operation_binding components) d.operations)

abbrev pub event_bindings_of : List IrComponent → List DomainIr → List EventBinding
event_bindings_of components =
    flat_map (λ (d : DomainIr). map (event_binding components d.operations) d.events)

abbrev pub unimplemented : List OperationBinding → List UnsupportedIntent
unimplemented bs =
    map (λ (b : OperationBinding). record { item = b.item; code = operation_unimplemented })
      (keep (λ b. is_empty b.implemented_by) bs)

abbrev pub unpublished : List EventBinding → List UnsupportedIntent
unpublished bs =
    map (λ (b : EventBinding). record { item = b.item; code = event_unpublished })
      (keep (λ b. is_empty b.published_by) bs)

abbrev pub uninterpreted : List DomainIr → List UnsupportedIntent
uninterpreted = flat_map (λ (d : DomainIr).
    map (λ facet. record { item = d.contract.ref <> "#" <> facet; code = facet_not_interpreted })
      d.unsupported)

abbrev pub intent_text : IntentCode → String
intent_text event_unpublished = "IR_EVENT_UNPUBLISHED"
intent_text facet_not_interpreted = "IR_FACET_NOT_INTERPRETED"
intent_text operation_unimplemented = "IR_OPERATION_UNIMPLEMENTED"

abbrev pub compare_intents : UnsupportedIntent → UnsupportedIntent → Ordering
compare_intents = or_by (by compare_text (λ u. u.item)) (by compare_text (λ u. intent_text u.code))

abbrev pub unsupported_items : List IrComponent → List DomainIr → List UnsupportedIntent
unsupported_items components domains =
    unimplemented (operation_bindings_of components domains)
    ++ unpublished (event_bindings_of components domains)
    ++ uninterpreted domains

unfoldable pub unsupported_of : List IrComponent → List DomainIr → List UnsupportedIntent
unfolding sort compare_text
unsupported_of components domains = sort compare_intents (unsupported_items components domains)

abbrev ir_environment : Environment → IrEnvironment
ir_environment e = record {
  id = e.id;
  kind = e.kind;
  deployment_mode = e.deployment_mode;
  region = e.region;
}

abbrev ir_integration : Integration → IrIntegration
ir_integration i = record {
  id = i.id;
  kind = i.kind;
  direction = i.direction;
  provider = i.provider;
}

-- A Domain Contract with its digest.
pub record PinnedDomain : Type 0 where
  pub metadata : Metadata
  pub spec : DomainContractSpec
  pub digest : Digest

abbrev is_pinned : List ContractRef → PinnedDomain → Bool
is_pinned pinned d =
    any (λ (r : ContractRef). r.id == d.metadata.id && eqb r.revision d.metadata.revision) pinned

abbrev pub environment_ids : List Environment → List String
environment_ids = map (λ (e : Environment). e.id)

unfoldable pub normalize_components : SystemDefinitionSpec → List IrComponent
unfolding normalize_component resolve_item sort compare_text
normalize_components spec = sort (by compare_text (λ (c : IrComponent). c.id)) (
    map (λ c. normalize_component c (environment_ids spec.environments) (resolve_item spec))
      spec.components)

unfoldable pub build_domains : SystemDefinitionSpec → List PinnedDomain → List DomainIr
unfolding build_domain_ir sort compare_text
build_domains spec contracts = sort (by compare_text (λ (d : DomainIr). d.contract.ref)) (
    map (λ (d : PinnedDomain). build_domain_ir d.metadata d.spec d.digest)
      (keep (is_pinned spec.inputs.domain_contracts) contracts))

abbrev pub ir_of :
    Metadata
    → SystemDefinitionSpec
    → List IrComponent
    → List DomainIr
    → List DesignBinding
    → SystemIr
ir_of metadata spec components domains design_bindings = record {
  system = spec.system;
  definition = format_ref (plain_ref system_definition metadata.id metadata.revision);
  environments = map ir_environment spec.environments;
  integrations =
      sort (by compare_text (λ (i : IrIntegration). i.id)) (map ir_integration spec.integrations);
  components = components;
  domains = domains;
  design_bindings = design_bindings;
  operation_bindings =
      sort (by compare_text (λ (b : OperationBinding). b.item))
        (operation_bindings_of components domains);
  event_bindings =
      sort (by compare_text (λ (b : EventBinding). b.item)) (event_bindings_of components domains);
  unsupported = unsupported_of components domains;
}

unfoldable pub build_system_ir :
    Metadata → SystemDefinitionSpec → List PinnedDomain → List DesignBinding → SystemIr
unfolding normalize_components build_domains unsupported_of sort compare_text format_ref
build_system_ir metadata spec contracts design_bindings =
    ir_of metadata spec (normalize_components spec) (build_domains spec contracts) design_bindings
