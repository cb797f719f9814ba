-- ===== src/Compiler/Plan/Build.antt =====
-- kernel/compiler/src/plan.ts: the plan of a resolved system.
use enistere_foundation.Base.{
  String, Bool, true, false, not, ◌||◌, List, [], ◌∷◌, ◌++◌, Option, none, some, map, keep, any,
  find, flat_map, includes, ◌==◌, if◌then◌else◌,
}
use enistere_foundation.Base.Dict.{get, put, from_entries}
use enistere_foundation.Compiler.ApiContract.{ApiContract}
use enistere_foundation.Compiler.DomainIr.{DomainIr, IrInvariant, IrOperation}
use enistere_foundation.Compiler.Ir.{IrComponent, SystemIr, DesignBinding}
use enistere_foundation.Compiler.Plan.{
  ComponentStep, PlanStep, materialize_step, connect_external_step, bind_capability_step, OwnerWork,
  own_component, implement_operation, enforce_invariant, SharedContract, PlannedDesign,
  ProofObligation, ExecutionPlan,
}
use enistere_foundation.Compiler.Policy.{PolicyReport}
use enistere_foundation.Compiler.Resolve.{
  ExtensionRef, CapabilityStatus, bound, no_provider, ResolvedCapability, ComponentStatus, resolved,
  ResolvedComponent, ResolvedSystem,
}
use enistere_foundation.Contracts.Refs.{Digest}
use enistere_foundation.Contracts.Types.System.{OwnershipClass, compiler_owned, external}

abbrev is_compiler_owned : OwnershipClass → Bool
is_compiler_owned compiler_owned = true
is_compiler_owned _ = false

abbrev team_of : Option IrComponent → String
team_of none = ""
team_of (some c) = c.ownership.team

-- `team(id)`
abbrev team : List IrComponent → String → String
team components id = team_of (find (λ (c : IrComponent). c.id == id) components)

abbrev kept_components : List IrComponent → List OwnerWork
kept_components components =
    map (λ (c : IrComponent). own_component c.id c.ownership.class c.ownership.team)
      (keep (λ c. not (is_compiler_owned c.ownership.class)) components)

-- An invariant on a projected operation, or on a type of the domain.
abbrev is_enforced : List String → List String → IrInvariant → Bool
is_enforced projected operations i =
    any (λ item. includes projected item || not (includes operations item)) i.applies_to

abbrev enforced : List IrComponent → ApiContract → Option DomainIr → List OwnerWork
enforced components c none = []
enforced components c (some d) =
    map
      (λ (i : IrInvariant).
        enforce_invariant c.provider (team components c.provider) i.ref i.enforcement)
      (keep (is_enforced c.operations (map (λ (o : IrOperation). o.ref) d.operations)) d.invariants)

abbrev contract_work : SystemIr → ApiContract → List OwnerWork
contract_work ir c =
    map (λ item. implement_operation c.provider (team ir.components c.provider) item c.id)
      c.operations
    ++ enforced ir.components c (find (λ (d : DomainIr). d.contract.ref == c.domain.ref) ir.domains)

unfoldable pub owner_work : SystemIr → List ApiContract → List OwnerWork
owner_work ir contracts = kept_components ir.components ++ flat_map (contract_work ir) contracts

-- What a turn of the loop pushes.
pub record Turn : Type 0 where
  pub steps : List PlanStep
  pub obligations : List ProofObligation

abbrev pub nothing : Turn
nothing = record { steps = []; obligations = [] }

abbrev pub component_step : OwnershipClass → ComponentStep → PlanStep
component_step external s = connect_external_step s
component_step _ s = materialize_step s

abbrev bind_step : String → String → CapabilityStatus → Option ExtensionRef → List PlanStep
bind_step component capability no_provider provider = []
bind_step component capability bound none = []
bind_step component capability bound (some p) = bind_capability_step component capability p ∷ []

abbrev pub provided_contracts : List ApiContract → String → List String
provided_contracts contracts component =
    map (λ (c : ApiContract). c.id) (keep (λ c. c.provider == component) contracts)

abbrev pub plan_realized :
    List ApiContract → ResolvedComponent → ExtensionRef → String → IrComponent → Turn
plan_realized contracts c adapter runtime source = record {
  steps =
      component_step source.ownership.class (record {
        component = c.id;
        adapter = adapter;
        runtime = runtime;
        ownership = source.ownership.class;
        environments = source.environments;
        contracts = provided_contracts contracts c.id;
      })
      ∷ flat_map (λ (k : ResolvedCapability). bind_step c.id k.id k.status k.provider)
          c.capabilities;
  obligations =
      map (λ requirement. record { component = c.id; requirement = requirement })
        source.requirements;
}

abbrev pub plan_source :
    List ApiContract → ResolvedComponent → ExtensionRef → String → Option IrComponent → Turn
plan_source contracts c adapter runtime none = nothing
plan_source contracts c adapter runtime (some source) =
    plan_realized contracts c adapter runtime source

-- `status !== 'RESOLVED' || !adapter || !runtime`; an empty runtime is falsy.
abbrev pub plan_resolved :
    List ApiContract
    → List (String × IrComponent)
    → ResolvedComponent
    → ComponentStatus
    → Option ExtensionRef
    → Option String
    → Turn
plan_resolved contracts by_id c resolved (some adapter) (some runtime) =
    if runtime == "" then nothing else plan_source contracts c adapter runtime (get by_id c.id)
plan_resolved contracts by_id c _ _ _ = nothing

unfoldable pub plan_component :
    List ApiContract → List (String × IrComponent) → ResolvedComponent → Turn
unfolding get
plan_component contracts by_id c = plan_resolved contracts by_id c c.status c.adapter c.runtime

-- `new Map(ir.components.map(…))`
unfoldable pub components_by_id : List IrComponent → List (String × IrComponent)
unfolding from_entries put
components_by_id components = from_entries [] (map (λ (c : IrComponent). (c.id, c)) components)

abbrev shared_contract : ApiContract → SharedContract
shared_contract c = record {
  id = c.id;
  domain = c.domain.ref;
  provider = c.provider;
  consumers = c.consumers;
  digest = c.digest;
}

abbrev planned_design : DesignBinding → PlannedDesign
planned_design b = record {
  component = b.component;
  design_system = b.design_system.ref;
  context = b.context;
  digest = b.digest;
}

-- The digests of the closure and of the IR, the IR, the resolved system, the contracts, the report.
unfoldable pub plan_system :
    Digest
    → Digest
    → SystemIr
    → ResolvedSystem
    → List ApiContract
    → Option PolicyReport
    → ExecutionPlan
unfolding owner_work plan_component components_by_id
plan_system closure ir_digest ir chosen contracts policy =
    let turns = map (plan_component contracts (components_by_id ir.components)) chosen.components in
    record {
      system = ir.system;
      inputs = record { closure = closure; ir = ir_digest; resolved = chosen.digest };
      steps = flat_map (λ (t : Turn). t.steps) turns;
      unsupported = chosen.unsupported_items;
      unsupported_intent = ir.unsupported;
      shared_contracts = map shared_contract contracts;
      design_bindings = map planned_design ir.design_bindings;
      policy = policy;
      owner_work = owner_work ir contracts;
      proof_obligations = flat_map (λ (t : Turn). t.obligations) turns;
    }
