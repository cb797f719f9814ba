-- ===== src/Contracts/System/Laws.antt =====
-- Which system definitions the rules of A4 accept.
use enistere_foundation.Base.{
  String, Bool, true, not, ◌||◌, List, [], ◌∷◌, length, includes, get_or, flat_map, ◌≡◌, ◌≢◌, ◌↔◌,
  refl, All, eqb,
}
use enistere_foundation.Base.Text.Sets.{all_distinct}
use enistere_foundation.Contracts.Authority.Laws.{both_iff}
use enistere_foundation.Contracts.Diagnostics.{Diagnostic}
use enistere_foundation.Contracts.System.{
  component_ids, integration_ids, environment_ids, owners_of, stores_of,
}
use enistere_foundation.Contracts.Types.System.{
  Component, Consumed, DataAccess, SystemDefinitionSpec,
}

-- A component's edges, data and placement name what the definition declares.
pub record IsSoundComponent (components integrations environments : List String) (c : Component)
    : Type 0 where
  pub consumed :
      All
        (λ (k : Consumed). (k.component ≢ c.id) × (includes components k.component ≡ true))
        (get_or c.consumes [])
  pub stored :
      All (λ (a : DataAccess). includes components a.store ≡ true) (get_or c.data_access [])
  pub integrated : All (λ i. includes integrations i ≡ true) (get_or c.integrations [])
  pub placed : All (λ e. includes environments e ≡ true) (get_or c.environments [])

-- A data store that is a component has exactly one owner.
abbrev pub is_owned : List Component → String → Bool
is_owned components store =
    not (includes (component_ids components) store) || eqb (length (owners_of components store)) 1

pub record IsSoundSystem (spec : SystemDefinitionSpec) : Type 0 where
  pub components : all_distinct (component_ids spec.components) ≡ true
  pub integrations : all_distinct (integration_ids spec.integrations) ≡ true
  pub environments : all_distinct (environment_ids spec.environments) ≡ true
  pub sound :
      All
        (IsSoundComponent
          (component_ids spec.components)
          (integration_ids spec.integrations)
          (environment_ids spec.environments))
        spec.components
  pub owned : All (λ store. is_owned spec.components store ≡ true) (stores_of spec.components)

pub flat_map_iff {ℓ} :
    {A : Type ℓ} (P : A → Type 0) (f : A → List Diagnostic) (xs : List A)
    → ((x : A) → (f x ≡ []) ↔ P x)
    → (flat_map f xs ≡ []) ↔ All P xs
flat_map_iff P f [] h = ((λ e. tt), λ a. refl)
flat_map_iff P f (x ∷ xs) h = both_iff (f x) (flat_map f xs) (h x) (flat_map_iff P f xs h)
