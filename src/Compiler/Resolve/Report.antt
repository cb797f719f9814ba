-- ===== src/Compiler/Resolve/Report.antt =====
-- kernel/compiler/src/resolve.ts: the resolved system with its digest.
use enistere_foundation.Base.{String, List, [], ◌∷◌, Option, none, some, map}
use enistere_foundation.Compiler.Catalog.{ExtensionCatalog}
use enistere_foundation.Compiler.Ir.{IrComponent}
use enistere_foundation.Compiler.Resolve.{
  ExtensionRef, CapabilityStatus, bound, no_provider, ResolvedCapability, ComponentStatus, resolved,
  unsupported, ResolvedComponent, UnsupportedCode, no_runtime_preference, no_adapter,
  no_capability_provider, UnsupportedItem, ResolvedSystem, Pushed, resolve_components,
}
use enistere_foundation.Contracts.Diagnostics.{Diagnostic, sort_diagnostics}
use enistere_foundation.Contracts.Digest.{Result, returned, ◌>>=◌, digest_of}
use enistere_foundation.Contracts.Json.{Json, null, text, array, object, array_of, object_of}
use enistere_foundation.Contracts.Refs.{Digest}

abbrev text_or_null : Option String → Json
text_or_null none = null
text_or_null (some t) = text t

abbrev extension_json : Option ExtensionRef → Json
extension_json none = null
extension_json (some e) = object (object_of (("id", text e.id) ∷ ("version", text e.version) ∷ []))

capability_status : CapabilityStatus → String
capability_status bound = "BOUND"
capability_status no_provider = "UNSUPPORTED"

component_status : ComponentStatus → String
component_status resolved = "RESOLVED"
component_status unsupported = "UNSUPPORTED"

unsupported_code : UnsupportedCode → String
unsupported_code no_runtime_preference = "RESOLVE_NO_RUNTIME_PREFERENCE"
unsupported_code no_adapter = "RESOLVE_NO_ADAPTER"
unsupported_code no_capability_provider = "RESOLVE_NO_CAPABILITY_PROVIDER"

capability_json : ResolvedCapability → Json
unfolding capability_status
capability_json c = object (
    object_of (
      ("id", text c.id)
      ∷ ("status", text (capability_status c.status))
      ∷ ("provider", extension_json c.provider)
      ∷ []))

component_json : ResolvedComponent → Json
unfolding component_status capability_json
component_json c = object (
    object_of (
      ("id", text c.id)
      ∷ ("kind", text c.kind)
      ∷ ("status", text (component_status c.status))
      ∷ ("runtime", text_or_null c.runtime)
      ∷ ("adapter", extension_json c.adapter)
      ∷ ("capabilities", array (array_of (map capability_json c.capabilities)))
      ∷ []))

item_json : UnsupportedItem → Json
unfolding unsupported_code
item_json i = object (
    object_of (
      ("component", text i.component)
      ∷ ("capability", text_or_null i.capability)
      ∷ ("code", text (unsupported_code i.code))
      ∷ []))

unfoldable pub resolved_json : String → Digest → Digest → Pushed (List ResolvedComponent) → Json
unfolding component_json item_json
resolved_json system ir catalog_digest p = object (
    object_of (
      ("system", text system)
      ∷ ("ir", text ir)
      ∷ ("catalog", text catalog_digest)
      ∷ ("components", array (array_of (map component_json p.value)))
      ∷ ("unsupported", array (array_of (map item_json p.items)))
      ∷ []))

module _ (sha256 : String → String) where
  abbrev pub with_digest :
      String
      → Digest
      → Digest
      → Pushed (List ResolvedComponent)
      → Digest
      → ResolvedSystem × List Diagnostic
  with_digest system ir catalog_digest p digest = (
    record {
      system = system;
      ir = ir;
      catalog = catalog_digest;
      components = p.value;
      unsupported_items = p.items;
      digest = digest;
    },
    sort_diagnostics p.found,
  )

  -- Of the IR, its system, its definition, its digest and its components.
  unfoldable pub resolve_system :
      String
      → String
      → Digest
      → List IrComponent
      → ExtensionCatalog
      → Digest
      → Result (ResolvedSystem × List Diagnostic)
  unfolding resolve_components resolved_json digest_of sort_diagnostics
  resolve_system system definition ir components catalog catalog_digest =
      let p = resolve_components catalog definition components in
      do
        digest ← digest_of sha256 (resolved_json system ir catalog_digest p)
        returned (with_digest system ir catalog_digest p digest)
