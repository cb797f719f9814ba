-- ===== src/Compiler/Catalog.antt =====
-- kernel/compiler/src/catalog.ts: the extensions that resolution may choose from.
pub mod Coverage
pub mod Distinct
pub mod Input
use Prim.Native.Char.{nul}
use Prim.Native.String
use enistere_foundation.Base.{
  String, ℕ, suc, List, [], ◌∷◌, ◌++◌, Option, none, some, map, flat_map_from, decimal, ◌<>◌,
}
use enistere_foundation.Base.Dict.{get, put}
use enistere_foundation.Contracts.Diagnostics.{
  Diagnostic, DiagnosticCode, DiagnosticInput, diagnostic, kernel_compiler,
}
use enistere_foundation.Contracts.Diagnostics.Codes.{
  catalog_duplicate_id, catalog_overlapping_coverage,
}

pub record RuntimeAdapterDescriptor : Type 0 where
  pub id : String
  pub version : String
  pub component_kinds : List String
  pub runtime : String

pub record CapabilityProviderDescriptor : Type 0 where
  pub id : String
  pub version : String
  pub capability : String
  pub runtimes : List String

pub record ExtensionCatalog : Type 0 where
  pub runtime_adapters : List RuntimeAdapterDescriptor
  pub capability_providers : List CapabilityProviderDescriptor

-- `{ ...LAYER, path }`
abbrev pub catalog_path : String → DiagnosticInput
catalog_path path = record { ref = none; path = some path; layer = some kernel_compiler }

-- A call of `claim` or of `cover`.
pub data Claim : Type 0 where
  claim : String → String → Claim
  cover : String → String → String → Claim

abbrev pub null_text : String
null_text = String.◌∷◌ nul String.[]

abbrev pub adapter_key : String → String → String
adapter_key kind runtime = "adapter" <> null_text <> kind <> null_text <> runtime

abbrev pub capability_key : String → String → String
capability_key capability runtime = "capability" <> null_text <> capability <> null_text <> runtime

abbrev pub adapter_claims : ℕ → RuntimeAdapterDescriptor → List Claim
adapter_claims index a =
    let path = "/runtimeAdapters/" <> decimal index in
    claim a.id path
    ∷ map
        (λ kind.
          cover (adapter_key kind a.runtime)
            ("component kind '" <> kind <> "' on runtime '" <> a.runtime <> "'") path)
        a.component_kinds

abbrev pub provider_claims : ℕ → CapabilityProviderDescriptor → List Claim
provider_claims index p =
    let path = "/capabilityProviders/" <> decimal index in
    claim p.id path
    ∷ map
        (λ runtime.
          cover (capability_key p.capability runtime)
            ("capability '" <> p.capability <> "' on runtime '" <> runtime <> "'") path)
        p.runtimes

-- The calls, in their order.
abbrev pub claims : ExtensionCatalog → List Claim
claims c =
    flat_map_from 0 adapter_claims c.runtime_adapters
    ++ flat_map_from 0 provider_claims c.capability_providers

-- `if (other !== undefined)`: report, or go on with the new entry.
abbrev pub claimed :
    Option String → String → String → List Diagnostic → List Diagnostic → List Diagnostic
claimed none id path rest fresh = fresh
claimed (some other) id path rest fresh =
    diagnostic catalog_duplicate_id ("'" <> id <> "' is declared at " <> other <> " and " <> path)
      (catalog_path path)
    ∷ rest

abbrev pub covered :
    Option String → String → String → List Diagnostic → List Diagnostic → List Diagnostic
covered none label path rest fresh = fresh
covered (some other) label path rest fresh =
    diagnostic catalog_overlapping_coverage
      (label <> " is covered by " <> other <> " and by the descriptor at " <> path)
      (catalog_path path)
    ∷ rest

-- What the calls report, with the maps `ids` and `coverage` so far.
unfoldable pub run_claims :
    List (String × String) → List (String × String) → List Claim → List Diagnostic
unfolding get put diagnostic decimal
run_claims ids coverage [] = []
run_claims ids coverage (claim id path ∷ cs) =
    let rest = run_claims ids coverage cs in
    let fresh = run_claims (put ids id path) coverage cs in claimed (get ids id) id path rest fresh
run_claims ids coverage (cover key label path ∷ cs) =
    let rest = run_claims ids coverage cs in
    let fresh = run_claims ids (put coverage key path) cs in
    covered (get coverage key) label path rest fresh

unfoldable pub catalog_conflicts : ExtensionCatalog → List Diagnostic
unfolding run_claims
catalog_conflicts c = run_claims [] [] (claims c)
