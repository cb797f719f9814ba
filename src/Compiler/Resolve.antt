-- ===== src/Compiler/Resolve.antt =====
-- kernel/compiler/src/resolve.ts: which adapter and which providers realize a component.
pub mod Choice
pub mod Order
pub mod Report
use enistere_foundation.Base.{
  String, Bool, ◌&&◌, List, [], ◌∷◌, ◌++◌, Option, none, some, map, find, flat_map, includes, join,
  ◌<>◌, ◌==◌,
}
use enistere_foundation.Compiler.Catalog.{
  ExtensionCatalog, RuntimeAdapterDescriptor, CapabilityProviderDescriptor,
}
use enistere_foundation.Compiler.Ir.{IrComponent, IrCapability}
use enistere_foundation.Contracts.Diagnostics.{
  Diagnostic, DiagnosticCode, DiagnosticInput, diagnostic, kernel_compiler, sort_diagnostics,
}
use enistere_foundation.Contracts.Diagnostics.Codes.{
  resolve_no_runtime_preference, resolve_preference_fallback, resolve_no_capability_provider,
  resolve_no_adapter,
}
use enistere_foundation.Contracts.Digest.{Result, returned, ◌>>=◌, digest_of}
use enistere_foundation.Contracts.Json.{Json, null, text, array, object, array_of, object_of}
use enistere_foundation.Contracts.Refs.{Digest}
use enistere_foundation.Contracts.Types.Evidence.{AdapterId}

abbrev pub ExtensionRef : Type 0
ExtensionRef = AdapterId

pub data CapabilityStatus : Type 0 where
  bound no_provider : CapabilityStatus

pub record ResolvedCapability : Type 0 where
  pub id : String
  pub status : CapabilityStatus
  pub provider : Option ExtensionRef

pub data ComponentStatus : Type 0 where
  resolved unsupported : ComponentStatus

pub record ResolvedComponent : Type 0 where
  pub id : String
  pub kind : String
  pub status : ComponentStatus
  pub runtime : Option String
  pub adapter : Option ExtensionRef
  pub capabilities : List ResolvedCapability

pub data UnsupportedCode : Type 0 where
  no_runtime_preference no_adapter no_capability_provider : UnsupportedCode

pub record UnsupportedItem : Type 0 where
  pub component : String
  pub capability : Option String
  pub code : UnsupportedCode

pub record ResolvedSystem : Type 0 where
  pub system : String
  pub ir : Digest
  pub catalog : Digest
  pub components : List ResolvedComponent
  pub unsupported_items : List UnsupportedItem
  pub digest : Digest

-- A value with what the code pushed on `found` and on `unsupported` while it made it.
pub record Pushed {ℓ} (A : Type ℓ) : Type ℓ where
  pub value : A
  pub found : List Diagnostic
  pub items : List UnsupportedItem

abbrev pub push_all {ℓ} : {A : Type ℓ} → List (Pushed A) → Pushed (List A)
push_all ps = record {
  value = map (λ p. p.value) ps;
  found = flat_map (λ p. p.found) ps;
  items = flat_map (λ p. p.items) ps;
}

-- `{ ...LAYER, ref }`
abbrev pub of_definition : String → DiagnosticInput
of_definition definition = record {
  ref = some definition;
  path = none;
  layer = some kernel_compiler;
}

-- `'a', 'b'`
abbrev pub quoted : List String → String
quoted ts = join ", " (map (λ t. "'" <> t <> "'") ts)

abbrev pub serves : String → String → RuntimeAdapterDescriptor → Bool
serves kind runtime a = a.runtime == runtime && includes a.component_kinds kind

abbrev pub provides : String → String → CapabilityProviderDescriptor → Bool
provides capability runtime p = p.capability == capability && includes p.runtimes runtime

abbrev pub bind_capability :
    String
    → String
    → String
    → String
    → Option CapabilityProviderDescriptor
    → Pushed ResolvedCapability
bind_capability definition component runtime capability (some p) = record {
  value = record {
    id = capability;
    status = bound;
    provider = some (record { id = p.id; version = p.version });
  };
  found = [];
  items = [];
}
bind_capability definition component runtime capability none = record {
  value = record { id = capability; status = no_provider; provider = none };
  found =
      diagnostic resolve_no_capability_provider
        ("capability '" <> capability <> "' of component '" <> component
          <> "' has no provider for runtime '" <> runtime <> "'")
        (of_definition definition)
      ∷ [];
  items =
      record { component = component; capability = some capability; code = no_capability_provider }
      ∷ [];
}

abbrev pub resolve_capability :
    ExtensionCatalog → String → String → String → IrCapability → Pushed ResolvedCapability
resolve_capability catalog definition component runtime c =
    bind_capability definition component runtime c.id
      (find (provides c.id runtime) catalog.capability_providers)

abbrev pub fallback : String → String → String → List String → List Diagnostic
fallback definition component runtime [] = []
fallback definition component runtime (s ∷ skipped) =
    diagnostic resolve_preference_fallback
      ("component '"
        <> component
        <> "' uses runtime '"
        <> runtime
        <> "': no adapter for "
        <> quoted (s ∷ skipped))
      (of_definition definition)
    ∷ []

abbrev pub unresolved : IrComponent → ResolvedComponent
unresolved c = record {
  id = c.id;
  kind = c.kind;
  status = unsupported;
  runtime = none;
  adapter = none;
  capabilities = [];
}

-- The component on the runtime, with its capabilities.
abbrev pub adapted :
    String
    → IrComponent
    → String
    → List String
    → RuntimeAdapterDescriptor
    → Pushed (List ResolvedCapability)
    → Pushed ResolvedComponent
adapted definition c runtime skipped a capabilities = record {
  value = record {
    id = c.id;
    kind = c.kind;
    status = resolved;
    runtime = some runtime;
    adapter = some (record { id = a.id; version = a.version });
    capabilities = capabilities.value;
  };
  found = fallback definition c.id runtime skipped ++ capabilities.found;
  items = capabilities.items;
}

abbrev pub select_adapter :
    ExtensionCatalog
    → String
    → IrComponent
    → String
    → List String
    → RuntimeAdapterDescriptor
    → Pushed ResolvedComponent
select_adapter catalog definition c runtime skipped a =
    adapted definition c runtime skipped a
      (push_all (map (resolve_capability catalog definition c.id runtime) c.platform_capabilities))

abbrev pub no_preference_fits : String → IrComponent → Pushed ResolvedComponent
no_preference_fits definition c = record {
  value = unresolved c;
  found =
      diagnostic resolve_no_adapter
        ("component '"
          <> c.id
          <> "' (kind "
          <> c.kind
          <> ") has no adapter for "
          <> quoted c.runtime.preferences)
        (of_definition definition)
      ∷ [];
  items = record { component = c.id; capability = none; code = no_adapter } ∷ [];
}

-- `if (!adapter)`: skip the preference, or choose it.
abbrev pub choose :
    ExtensionCatalog
    → String
    → IrComponent
    → String
    → List String
    → Option RuntimeAdapterDescriptor
    → Pushed ResolvedComponent
    → Pushed ResolvedComponent
choose catalog definition c runtime skipped none rest = rest
choose catalog definition c runtime skipped (some a) rest =
    select_adapter catalog definition c runtime skipped a

-- The loop over the preferences, with those that were skipped.
unfoldable pub try_preferences :
    ExtensionCatalog → String → IrComponent → List String → List String → Pushed ResolvedComponent
unfolding diagnostic join
try_preferences catalog definition c skipped [] = no_preference_fits definition c
try_preferences catalog definition c skipped (runtime ∷ rs) =
    let rest = try_preferences catalog definition c (skipped ++ runtime ∷ []) rs in
    choose catalog definition c runtime skipped
      (find (serves c.kind runtime) catalog.runtime_adapters) rest

abbrev pub try_declared :
    ExtensionCatalog → String → IrComponent → List String → Pushed ResolvedComponent
try_declared catalog definition c [] = record {
  value = unresolved c;
  found =
      diagnostic resolve_no_runtime_preference
        ("component '" <> c.id <> "' declares no runtime preference") (of_definition definition)
      ∷ [];
  items = record { component = c.id; capability = none; code = no_runtime_preference } ∷ [];
}
try_declared catalog definition c (p ∷ ps) = try_preferences catalog definition c [] (p ∷ ps)

unfoldable pub resolve_component :
    ExtensionCatalog → String → IrComponent → Pushed ResolvedComponent
unfolding try_preferences diagnostic
resolve_component catalog definition c = try_declared catalog definition c c.runtime.preferences

unfoldable pub resolve_components :
    ExtensionCatalog → String → List IrComponent → Pushed (List ResolvedComponent)
unfolding resolve_component
resolve_components catalog definition cs = push_all (map (resolve_component catalog definition) cs)
