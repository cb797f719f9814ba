-- ===== src/Contracts/System.antt =====
-- kernel/contracts/src/contracts/system-definition.ts: the rules of A4.
pub mod Cross
pub mod Laws
use enistere_foundation.Base.{
  String, ℕ, suc, Bool, true, false, not, ◌&&◌, ◌||◌, List, [], ◌∷◌, ◌++◌, map, keep, length,
  includes, get_or, flat_map, flat_map_from, decimal, join, ◌<>◌, ◌==◌, if◌then◌else◌,
}
use enistere_foundation.Base.Text.Unique.{sorted}
use enistere_foundation.Contracts.Checks.{unique_ids, known_ids}
use enistere_foundation.Contracts.Diagnostics.{Diagnostic, diagnostic, located}
use enistere_foundation.Contracts.Diagnostics.Codes.{
  system_self_dependency, system_unknown_component, system_unknown_integration,
  system_unknown_environment, system_data_owner_conflict, system_data_store_without_owner,
}
use enistere_foundation.Contracts.Types.System.{
  Component, Consumed, Access, owner, DataAccess, Integration, Environment, SystemDefinitionSpec,
}

abbrev pub component_ids : List Component → List String
component_ids = map (λ (c : Component). c.id)

abbrev pub integration_ids : List Integration → List String
integration_ids = map (λ (i : Integration). i.id)

abbrev pub environment_ids : List Environment → List String
environment_ids = map (λ (e : Environment). e.id)

abbrev system_definition_items : SystemDefinitionSpec → List String
system_definition_items spec =
    component_ids spec.components
    ++ integration_ids spec.integrations
    ++ environment_ids spec.environments

abbrev pub check_consumed : List String → String → String → String → ℕ → Consumed → List Diagnostic
check_consumed components id path ref index consumed =
    let consumed_path = path <> "/consumes/" <> decimal index <> "/component" in
    if consumed.component == id
    then diagnostic system_self_dependency ("component '" <> id <> "' consumes itself")
        (located ref consumed_path)
      ∷ []
    else if not (includes components consumed.component)
    then diagnostic system_unknown_component ("unknown component '" <> consumed.component <> "'")
        (located ref consumed_path)
      ∷ []
    else []

abbrev pub check_access : List String → String → String → ℕ → DataAccess → List Diagnostic
check_access components path ref index access =
    if includes components access.store
    then []
    else diagnostic system_unknown_component ("unknown data store '" <> access.store <> "'")
        (located ref (path <> "/data/" <> decimal index <> "/store"))
      ∷ []

unfoldable pub check_component :
    List String → List String → List String → String → ℕ → Component → List Diagnostic
unfolding known_ids diagnostic decimal
check_component components integrations environments ref index c =
    let path = "/spec/components/" <> decimal index in
    flat_map_from 0 (check_consumed components c.id path ref) (get_or c.consumes [])
    ++ flat_map_from 0 (check_access components path ref) (get_or c.data_access [])
    ++ known_ids (get_or c.integrations []) integrations (path <> "/integrations") ref
        system_unknown_integration "integration"
    ++ known_ids (get_or c.environments []) environments (path <> "/environments") ref
        system_unknown_environment "environment"

abbrev is_owner : Access → Bool
is_owner owner = true
is_owner _ = false

abbrev owned_by : String → Component → List String
owned_by store c =
    map (λ (a : DataAccess). c.id)
      (keep (λ a. (a.store == store) && is_owner a.access) (get_or c.data_access []))

-- `owners.get(store) ?? []`, for a store that is a component: who owns it, in the order of the loop.
unfoldable pub owners_of : List Component → String → List String
owners_of components store = flat_map (owned_by store) components

unfoldable pub stores_of : List Component → List String
stores_of =
    flat_map (λ (c : Component). map (λ (a : DataAccess). a.store) (get_or c.data_access []))

-- `findIndex` of an identifier that is there.
abbrev index_of : List String → String → ℕ
index_of [] id = 0
index_of (i ∷ ids) id = let rest = index_of ids id in if i == id then 0 else suc rest

abbrev pub check_owners : List String → String → String → String → List Diagnostic
check_owners [] store path ref =
    diagnostic system_data_store_without_owner
      ("data store '" <> store <> "' has no owning component") (located ref path)
    ∷ []
check_owners (o ∷ []) store path ref = []
check_owners (o ∷ p ∷ os) store path ref =
    diagnostic system_data_owner_conflict
      ("data store '" <> store <> "' is owned by " <> join ", " (o ∷ p ∷ os)) (located ref path)
    ∷ []

unfoldable pub check_store : List Component → String → String → List Diagnostic
unfolding owners_of diagnostic decimal join
check_store components ref store =
    let ids = component_ids components in
    if not (includes ids store)
    then []
    else check_owners (owners_of components store) store
        ("/spec/components/" <> decimal (index_of ids store)) ref

unfoldable pub validate_system_definition : SystemDefinitionSpec → String → List Diagnostic
unfolding unique_ids check_component check_store stores_of sorted
validate_system_definition spec ref =
    unique_ids (component_ids spec.components) "/spec/components" ref
    ++ unique_ids (integration_ids spec.integrations) "/spec/integrations" ref
    ++ unique_ids (environment_ids spec.environments) "/spec/environments" ref
    ++ flat_map_from 0
        (check_component (component_ids spec.components) (integration_ids spec.integrations)
          (environment_ids spec.environments) ref)
        spec.components
    ++ flat_map (check_store spec.components ref) (sorted (stores_of spec.components))
