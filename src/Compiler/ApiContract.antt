-- ===== src/Compiler/ApiContract.antt =====
-- kernel/compiler/src/api-contract.ts: the interface contracts that providers share with consumers.
mod Document
pub mod Shared
use Prim.Native.Char.{code}
use Prim.Native.String
use mathlib.Core.Option
use enistere_foundation.Base.{
  String, ℕ, Bool, true, false, not, ◌&&◌, List, [], ◌∷◌, ◌++◌, Option, none, some, map, keep, any,
  is_empty, flat_map, includes, compare_text, decimal, eqb, ◌<>◌, ◌==◌, if◌then◌else◌,
}
use enistere_foundation.Base.Dict.{get, put, from_entries}
use enistere_foundation.Base.Sorting.{sort}
use enistere_foundation.Base.Sorting.Order.{by}
use enistere_foundation.Base.Text.Unique.{sorted, distinct_from}
use enistere_foundation.Compiler.DomainIr.{ContractEntry, IrOperation, IrEvent, DomainIr}
use enistere_foundation.Compiler.Ir.{OperationBinding}
use enistere_foundation.Contracts.Digest.{Result, returned, thrown, ◌>>=◌, digest_of}
use enistere_foundation.Contracts.Domain.{element_type}
use enistere_foundation.Contracts.Json.{
  Json, finite_number, text, array, unsupported, undefined, array_of,
}
use enistere_foundation.Contracts.Refs.{Digest}
use Document.{
  api_contract_projection, json, texts_json, type_schema, schemas, operation_path, operation_method,
  operation_object,
}

pub record ApiContract : Type 0 where
  pub id : String
  pub domain : ContractEntry
  pub bounded_context : String
  pub provider : String
  pub consumers : List String
  pub operations : List String
  pub document : Json
  pub digest : Digest

-- The text before the next `@`.
until_at : String → String
until_at String.[] = ""
until_at (String.◌∷◌ c s) =
    let rest = until_at s in if eqb (code c) b'@' then "" else String.◌∷◌ c rest

-- `ref.split('@')[1]`
after_at : String → Option String
after_at String.[] = none
after_at (String.◌∷◌ c s) =
    let rest = after_at s in if eqb (code c) b'@' then some (until_at s) else rest

abbrev version_json : Option String → Json
version_json none = unsupported undefined
version_json (some version) = text version

abbrev binding_map : List OperationBinding → List (String × OperationBinding)
binding_map bs = from_entries [] (map (λ (b : OperationBinding). (b.item, b)) bs)

abbrev pub implementers : Option OperationBinding → List String
implementers none = []
implementers (some b) = b.implemented_by

abbrev pub consumers_of : Option OperationBinding → List String
consumers_of none = []
consumers_of (some b) = b.consumed_by

-- The operations of the domain that the provider implements.
unfoldable pub provided : List OperationBinding → DomainIr → String → List IrOperation
unfolding get put from_entries
provided bindings d provider =
    keep (λ (o : IrOperation). includes (implementers (get (binding_map bindings) o.ref)) provider)
      d.operations

-- `[...new Set(…)].filter((id) => id !== provider).sort()`
unfoldable pub consuming : List OperationBinding → List IrOperation → String → List String
unfolding get put from_entries sort compare_text distinct_from
consuming bindings operations provider = sort compare_text (
    keep (λ id. not (id == provider))
      (distinct_from [] (
        flat_map (λ (o : IrOperation). consumers_of (get (binding_map bindings) o.ref))
          operations)))

abbrev event_json : IrEvent → Json
event_json e = json (
    ("id", text e.id)
    ∷ ("ref", text e.ref)
    ∷ ("version", finite_number (decimal e.version))
    ∷ ("payload", json (type_schema e.payload))
    ∷ [])

abbrev entry_json : ContractEntry → Json
entry_json e = json (("ref", text e.ref) ∷ ("digest", text e.digest) ∷ [])

abbrev paths_json : DomainIr → List IrOperation → Json
paths_json d operations = json (
    from_entries [] (
      map
        (λ (o : IrOperation).
          (operation_path d o, json ((operation_method o, operation_object o) ∷ [])))
        operations))

unfoldable pub api_document : DomainIr → String → List IrOperation → List String → Json
unfolding element_type get put from_entries decimal after_at until_at
api_document d provider operations consumers = json (
    ("openapi", text "3.1.0")
    ∷ (
      "info",
      json (
          ("title", text (d.bounded_context <> " — " <> provider))
          ∷ ("version", version_json (after_at d.contract.ref))
          ∷ []),
    )
    ∷ (
      "x-foundation",
      json (
          ("projection", text api_contract_projection)
          ∷ ("contract", entry_json d.contract)
          ∷ ("provider", text provider)
          ∷ ("consumers", texts_json consumers)
          ∷ []),
    )
    ∷ ("paths", paths_json d operations)
    ∷ ("components", json (("schemas", json (schemas d)) ∷ []))
    ∷ ("x-foundation-events", array (array_of (map event_json d.events)))
    ∷ [])

abbrev pub contract_of :
    DomainIr → String → List IrOperation → List String → Json → Digest → ApiContract
contract_of d provider operations consumers document digest = record {
  id = provider <> "." <> d.bounded_context;
  domain = d.contract;
  bounded_context = d.bounded_context;
  provider = provider;
  consumers = consumers;
  operations = map (λ (o : IrOperation). o.ref) operations;
  document = document;
  digest = digest;
}

-- Which operations of the IR belong to the domain, and who implements them.
unfoldable pub providers_of : List OperationBinding → DomainIr → List String
unfolding sorted
providers_of bindings d = sorted (
    flat_map (λ (b : OperationBinding). b.implemented_by)
      (keep (λ b. any (λ (o : IrOperation). o.ref == b.item) d.operations) bindings))

module _ (sha256 : String → String) where
  abbrev pub project_operations :
      List OperationBinding → DomainIr → String → List IrOperation → Result (Option ApiContract)
  project_operations bindings d provider [] = returned none
  project_operations bindings d provider (o ∷ os) =
      let consumers = consuming bindings (o ∷ os) provider in
      let document = api_document d provider (o ∷ os) consumers in
      do
        digest ← digest_of sha256 document
        returned (some (contract_of d provider (o ∷ os) consumers document digest))

  unfoldable pub project_api_contract :
      List OperationBinding → DomainIr → String → Result (Option ApiContract)
  unfolding provided consuming api_document digest_of
  project_api_contract bindings d provider =
      project_operations bindings d provider (provided bindings d provider)

  abbrev push_contract : Option ApiContract → List ApiContract → List ApiContract
  push_contract none contracts = contracts
  push_contract (some c) contracts = c ∷ contracts

  unfoldable pub project_providers :
      List OperationBinding → DomainIr → List String → Result (List ApiContract)
  unfolding project_api_contract
  project_providers bindings d [] = returned []
  project_providers bindings d (p ∷ ps) = do
    contract ← project_api_contract bindings d p
    contracts ← project_providers bindings d ps
    returned (push_contract contract contracts)

  unfoldable pub project_domains : List OperationBinding → List DomainIr → Result (List ApiContract)
  unfolding project_providers providers_of
  project_domains bindings [] = returned []
  project_domains bindings (d ∷ ds) = do
    contracts ← project_providers bindings d (providers_of bindings d)
    others ← project_domains bindings ds
    returned (contracts ++ others)

  abbrev by_id : List ApiContract → List ApiContract
  by_id = sort (by compare_text (λ (c : ApiContract). c.id))

  unfoldable pub project_api_contracts :
      List OperationBinding → List DomainIr → Result (List ApiContract)
  unfolding project_domains sort compare_text
  project_api_contracts bindings domains = do
    contracts ← project_domains bindings domains
    returned (by_id contracts)
