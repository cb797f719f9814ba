-- ===== src/Compiler/Tests/Ir.antt =====
-- kernel/compiler on a small domain: the System IR, the API contracts and the plan.
use mathlib.Core.List.Perm
use enistere_foundation.Base.{
  String, true, false, not, ◌&&◌, any, List, [], ◌∷◌, Option, none, some, All, ◌≡◌, ◌⊎◌, refl,
}
use enistere_foundation.Compiler.ApiContract.{ApiContract, project_api_contracts}
use enistere_foundation.Compiler.ApiContract.Shared.{
  offers, is_realized, project_api_contracts-offers,
}
use enistere_foundation.Compiler.Ir.{IrComponent, SystemIr}
use enistere_foundation.Compiler.Ir.Build.{PinnedDomain, build_system_ir, unsupported_of}
use enistere_foundation.Compiler.Ir.Order.{build_system_ir-perm}
use enistere_foundation.Compiler.Ir.Unsupported.{
  lists_operation, lists_event, has_operation, is_implemented, is_silent_event,
  lists-unsupported_of,
}
use enistere_foundation.Compiler.Plan.Build.{plan_system}
use enistere_foundation.Compiler.Plan.Complete.{is_step_for, lists_component, plan_system-accounts}
use enistere_foundation.Compiler.Resolve.{ResolvedSystem}
use enistere_foundation.Compiler.Resolve.Report.{resolve_system}
use enistere_foundation.Compiler.Tests.{two, constant}
use enistere_foundation.Contracts.Diagnostics.{Diagnostic}
use enistere_foundation.Contracts.Digest.{Result, returned, thrown}
use enistere_foundation.Contracts.Refs.{
  requirement_baseline, decision_set, effective_organization_context, domain_contract, plain_ref,
}
use enistere_foundation.Contracts.Types.Common.{Metadata, Status, ProvenanceOrigin, ActorType}
use enistere_foundation.Contracts.Types.Domain.{DomainOperation, OperationKind}
use enistere_foundation.Contracts.Types.System.{Component, SystemDefinitionSpec, OwnershipClass}

abbrev pub metadata : String → Metadata
metadata id = record {
  id = id;
  revision = 1;
  title = id;
  description = none;
  status = Status.accepted;
  owner = none;
  provenance = record {
    origin = ProvenanceOrigin.human;
    actor = record { type = ActorType.human; id = "ann"; role = none };
    tool = none;
    sources = none;
    derived_from = none;
    confidence = none;
  };
  acceptance = none;
  supersedes = none;
  labels = none;
}

abbrev operation : String → List String → DomainOperation
operation id emits = record {
  id = id;
  kind = OperationKind.command;
  summary = id;
  input = none;
  output = none;
  errors = none;
  authorization = record { intent = id; roles = none };
  emits = some emits;
  invariants = none;
  idempotent = none;
}

abbrev orders : PinnedDomain
orders = record {
  metadata = metadata "orders";
  spec = record {
    system = "shop";
    bounded_context = "orders";
    requirement_baseline = plain_ref requirement_baseline "needs" 1;
    types = [];
    operations = operation "place" ("Placed" ∷ []) ∷ operation "cancel" ("Cancelled" ∷ []) ∷ [];
    invariants = [];
    events =
        record { id = "Placed"; version = 1; payload = "string"; description = none }
        ∷ record { id = "Cancelled"; version = 1; payload = "string"; description = none }
        ∷ [];
    acceptance = [];
    facets = [];
  };
  digest = "sha256:0";
}

abbrev component : String → String → Option (List String) → Component
component id kind implements = record {
  id = id;
  name = id;
  kind = kind;
  responsibilities = [];
  audience = none;
  requirements = none;
  decisions = none;
  implements = implements;
  publishes = none;
  subscribes = none;
  consumes = none;
  data_access = none;
  platform_capabilities = none;
  integrations = none;
  runtime = some (record { preferences = some ("node" ∷ []); constraints = none });
  experience = none;
  ownership = record { class = OwnershipClass.compiler_owned; team = "core" };
  environments = none;
}

abbrev shop : List Component → SystemDefinitionSpec
shop components = record {
  system = "shop";
  purpose = "sell";
  inputs = record {
    requirement_baseline = plain_ref requirement_baseline "needs" 1;
    decision_set = plain_ref decision_set "choices" 1;
    organization_context = plain_ref effective_organization_context "org" 1;
    domain_contracts = plain_ref domain_contract "orders" 1 ∷ [];
  };
  components = components;
  integrations = [];
  environments = [];
}

abbrev api : Component
api = component "api" "api-service" (some ("orders#place" ∷ []))

abbrev web : Component
web = component "web" "web-app" none

abbrev ir : SystemIr
ir = build_system_ir (metadata "shop") (shop (web ∷ api ∷ [])) (orders ∷ []) []

build_system_ir-perm_example :
    ir ≡ build_system_ir (metadata "shop") (shop (api ∷ web ∷ [])) (orders ∷ []) []
build_system_ir-perm_example =
    build_system_ir-perm (metadata "shop") (shop (web ∷ api ∷ [])) (api ∷ web ∷ []) (orders ∷ []) []
      (Perm.swap api web []) refl

-- Nobody cancels an order.
cancel_missing : lists_operation "DomainContract/orders@1#cancel" ir.unsupported ≡ true
unfolding build_system_ir
cancel_missing = refl

cancelled_missing : lists_event "DomainContract/orders@1#Cancelled" ir.unsupported ≡ true
unfolding build_system_ir
cancelled_missing = refl

placed_published : lists_event "DomainContract/orders@1#Placed" ir.unsupported ≡ false
unfolding build_system_ir
placed_published = refl

lists-unsupported_of_example :
    (lists_operation "DomainContract/orders@1#cancel" (unsupported_of ir.components ir.domains) ≡ (
      has_operation ir.domains "DomainContract/orders@1#cancel"
      && not (is_implemented ir.components "DomainContract/orders@1#cancel")))
    × (lists_event "DomainContract/orders@1#cancel" (unsupported_of ir.components ir.domains)
        ≡ any (is_silent_event ir.components "DomainContract/orders@1#cancel") ir.domains)
lists-unsupported_of_example =
    lists-unsupported_of ir.components ir.domains "DomainContract/orders@1#cancel"

abbrev contracts_in : Result (List ApiContract) → List ApiContract
contracts_in (returned contracts) = contracts
contracts_in (thrown message) = []

abbrev contracts : List ApiContract
contracts = contracts_in (project_api_contracts constant ir.operation_bindings ir.domains)

contracts_returned :
    project_api_contracts constant ir.operation_bindings ir.domains ≡ returned contracts
unfolding project_api_contracts build_system_ir
contracts_returned = refl

place_offered : any (offers "DomainContract/orders@1#place" "api") contracts ≡ true
unfolding project_api_contracts build_system_ir
place_offered = refl

project_api_contracts-offers_example :
    any (offers "DomainContract/orders@1#place" "api") contracts
    ≡ any (is_realized ir.operation_bindings "DomainContract/orders@1#place" "api") ir.domains
project_api_contracts-offers_example =
    project_api_contracts-offers constant ir.operation_bindings "DomainContract/orders@1#place"
      "api" ir.domains contracts contracts_returned

abbrev resolution_in : Result (ResolvedSystem × List Diagnostic) → ResolvedSystem × List Diagnostic
resolution_in (returned r) = r
resolution_in (thrown message) = (
  record {
    system = "";
    ir = "";
    catalog = "";
    components = [];
    unsupported_items = [];
    digest = "";
  },
  [],
)

abbrev resolution : ResolvedSystem × List Diagnostic
resolution =
    resolution_in
      (resolve_system constant ir.system ir.definition "sha256:1" ir.components two "sha256:2")

resolution_returned :
    resolve_system constant ir.system ir.definition "sha256:1" ir.components two "sha256:2"
    ≡ returned (resolution.0, resolution.1)
unfolding resolve_system build_system_ir
resolution_returned = refl

-- The service is planned, and the application has no adapter.
plan_system-accounts_example :
    All
      (λ (c : IrComponent).
        (any
            (is_step_for c.id)
            (plan_system "sha256:3" "sha256:1" ir resolution.0 contracts none).steps
          ≡ true)
        ⊎ (any
              (lists_component c.id)
              (plan_system "sha256:3" "sha256:1" ir resolution.0 contracts none).unsupported
            ≡ true))
      ir.components
unfolding build_system_ir
plan_system-accounts_example =
    plan_system-accounts constant ir two contracts "sha256:3" "sha256:1" "sha256:2" none
      resolution.0 resolution.1 resolution_returned (refl, (refl, tt))
