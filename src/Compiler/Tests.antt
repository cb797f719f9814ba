-- ===== src/Compiler/Tests.antt =====
-- kernel/compiler on small catalogs and components.
pub mod Ir
pub mod Policy
use mathlib.Core.List.{Perm}
use mathlib.Core.List.Perm
use enistere_foundation.Base.{String, true, List, [], ◌∷◌, Option, none, some, All, ◌≡◌, ◌⊎◌, refl}
use enistere_foundation.Compiler.Catalog.{
  RuntimeAdapterDescriptor, ExtensionCatalog, catalog_conflicts,
}
use enistere_foundation.Compiler.Catalog.Input.{CatalogValidation, validate_catalog}
use enistere_foundation.Compiler.Catalog.Input.Accepted.{IsAccepted, validate_catalog-IsAccepted}
use enistere_foundation.Compiler.Ir.{IrComponent, IrCapability}
use enistere_foundation.Compiler.Resolve.{
  ResolvedComponent, ResolvedCapability, CapabilityStatus, resolved, unresolved, resolve_component,
  resolve_components,
}
use enistere_foundation.Compiler.Resolve.Choice.{
  IsChosen, IsUnserved, resolve_component-IsChosen, resolve_component-silent,
}
use enistere_foundation.Compiler.Resolve.Order.{resolve_components-perm}
use enistere_foundation.Contracts.Digest.{returned}
use enistere_foundation.Contracts.Json.{Json, text, array, object, array_of, object_of}
use enistere_foundation.Contracts.Types.System.{OwnershipClass}

abbrev nestjs : RuntimeAdapterDescriptor
nestjs = record {
  id = "nestjs";
  version = "1.0.0";
  component_kinds = "api-service" ∷ [];
  runtime = "node";
}

abbrev spring : RuntimeAdapterDescriptor
spring = record {
  id = "spring";
  version = "1.0.0";
  component_kinds = "api-service" ∷ [];
  runtime = "jvm";
}

abbrev pub two : ExtensionCatalog
two = record {
  runtime_adapters = nestjs ∷ spring ∷ [];
  capability_providers =
      record { id = "pg"; version = "1.0.0"; capability = "storage"; runtimes = "node" ∷ [] } ∷ [];
}

abbrev swapped : ExtensionCatalog
swapped = record two { runtime_adapters = spring ∷ nestjs ∷ [] }

abbrev pub api : List String → IrComponent
api preferences = record {
  id = "api";
  name = "API";
  kind = "api-service";
  audience = none;
  runtime = record { preferences = preferences; constraints = [] };
  platform_capabilities = record { id = "storage"; version = none } ∷ [];
  interactions = [];
  publishes = [];
  subscribes = [];
  implements = [];
  data_access = [];
  integrations = [];
  environments = [];
  ownership = record { class = OwnershipClass.compiler_owned; team = "core" };
  requirements = [];
  decisions = [];
}

abbrev realized : ResolvedComponent
realized = record {
  id = "api";
  kind = "api-service";
  status = resolved;
  runtime = some "node";
  adapter = some (record { id = "nestjs"; version = "1.0.0" });
  capabilities =
      record {
        id = "storage";
        status = CapabilityStatus.bound;
        provider = some (record { id = "pg"; version = "1.0.0" });
      }
      ∷ [];
}

-- The first preference has no adapter.
api_resolved :
    (resolve_component two "SystemDefinition/shop@1" (api ("deno" ∷ "node" ∷ "jvm" ∷ []))).value
    ≡ realized
unfolding resolve_component
api_resolved = refl

resolve_component-IsChosen_example :
    IsChosen two "d"
      (api ("deno" ∷ "node" ∷ []))
      (resolve_component two "d" (api ("deno" ∷ "node" ∷ []))).value
    ⊎ (((resolve_component two "d" (api ("deno" ∷ "node" ∷ []))).value
          ≡ unresolved (api ("deno" ∷ "node" ∷ [])))
        × All (IsUnserved two "api-service") ("deno" ∷ "node" ∷ []))
resolve_component-IsChosen_example = resolve_component-IsChosen two "d" (api ("deno" ∷ "node" ∷ []))

api_silent : (resolve_component two "d" (api ("node" ∷ []))).found ≡ []
unfolding resolve_component
api_silent = refl

resolve_component-silent_example :
    (preferred : String) × (later : List String) × (◌≡◌ {A = List String}
      ("node" ∷ [])
      (preferred ∷ later))
    × ((resolve_component two "d" (api ("node" ∷ []))).value.runtime ≡ some preferred)
    × All
        (λ (k : ResolvedCapability). k.status ≡ CapabilityStatus.bound)
        (resolve_component two "d" (api ("node" ∷ []))).value.capabilities
resolve_component-silent_example = resolve_component-silent two "d" (api ("node" ∷ [])) api_silent

swapped_free : catalog_conflicts swapped ≡ []
unfolding catalog_conflicts
swapped_free = refl

resolve_components-perm_example :
    resolve_components two "d" (api ("node" ∷ []) ∷ [])
    ≡ resolve_components swapped "d" (api ("node" ∷ []) ∷ [])
resolve_components-perm_example =
    resolve_components-perm two swapped "d" (Perm.swap spring nestjs []) (Perm.refl _) swapped_free
      (api ("node" ∷ []) ∷ [])

abbrev catalog_data : Json
catalog_data = object (
    object_of (
      (
        "runtimeAdapters",
        array (
            array_of (
              object (
                object_of (
                  ("id", text "nestjs")
                  ∷ ("version", text "1.0.0-rc.1")
                  ∷ ("componentKinds", array (array_of (text "api-service" ∷ [])))
                  ∷ ("runtime", text "node")
                  ∷ []))
              ∷ [])),
      )
      ∷ ("capabilityProviders", array (array_of []))
      ∷ []))

abbrev one : ExtensionCatalog
one = record {
  runtime_adapters = record nestjs { version = "1.0.0-rc.1" } ∷ [];
  capability_providers = [];
}

abbrev pub constant : String → String
constant t = "0"

abbrev validated : CatalogValidation
validated = record { catalog = some one; digest = some "sha256:0"; diagnostics = [] }

catalog_validated : validate_catalog constant catalog_data ≡ returned validated
unfolding validate_catalog
catalog_validated = refl

validate_catalog-IsAccepted_example : IsAccepted one
validate_catalog-IsAccepted_example =
    validate_catalog-IsAccepted constant catalog_data validated one catalog_validated refl
