-- ===== src/Compiler/Catalog/Distinct.antt =====
-- A catalog without conflicts declares no identifier twice and covers no pair twice.
use mathlib.Core.List.{Nodup, Nodup-nil, Nodup-cons, map-append, mem-map_of_mem}
use enistere_foundation.Base.{
  String, ℕ, suc, true, false, List, [], ◌∷◌, ◌++◌, map, flat_map, flat_map_from, ◌≡◌, refl, sym,
  ap, ap₂, ◌∙◌, All, arith, Option-cases, inl, inr,
}
use enistere_foundation.Base.Dict.{get, put, has}
use enistere_foundation.Base.Dict.Fresh.{All-put}
use enistere_foundation.Base.Text.Sets.{all_distinct, includes_iff}
use enistere_foundation.Compiler.Catalog.{
  RuntimeAdapterDescriptor, CapabilityProviderDescriptor, ExtensionCatalog, Claim, claim, cover,
  adapter_key, capability_key, adapter_claims, provider_claims, claims, run_claims,
  catalog_conflicts,
}
use enistere_foundation.Compiler.Catalog.Coverage.{
  adapter_keys, provider_keys, distinct_keys, all_distinct-append_left, all_distinct-append_right,
}

abbrev claim_ids : List Claim → List String
claim_ids [] = []
claim_ids (claim id path ∷ cs) = id ∷ claim_ids cs
claim_ids (cover key label path ∷ cs) = claim_ids cs

claim_ids-append : (cs ds : List Claim) → claim_ids (cs ++ ds) ≡ claim_ids cs ++ claim_ids ds
claim_ids-append [] ds = refl
claim_ids-append (claim id path ∷ cs) ds = ap (λ t. id ∷ t) (claim_ids-append cs ds)
claim_ids-append (cover key label path ∷ cs) ds = claim_ids-append cs ds

run_claims_ids :
    (ids coverage : List (String × String)) (cs : List Claim)
    → run_claims ids coverage cs ≡ []
    → (all_distinct (claim_ids cs) ≡ true) × All (λ k. has ids k ≡ false) (claim_ids cs)
unfolding run_claims
run_claims_ids ids coverage [] h = (refl, tt)
run_claims_ids ids coverage (cover key label path ∷ cs) h = elim (Option-cases (get coverage key)) [
  | inl new ↦ run_claims_ids ids (put coverage key path) cs (rw new at h)
  | inr (other, e) ↦ cc
]
run_claims_ids ids coverage (claim id path ∷ cs) h = elim (Option-cases (get ids id)) [
  | inl new ↦
      let (others, fresh) = run_claims_ids (put ids id path) coverage cs (rw new at h) in
      let (away, old) = (All-put ids id path (claim_ids cs)).0 fresh in
      (ground (arith, others, away), (rw new refl, old))
  | inr (other, e) ↦ cc
]

claim_ids-covers :
    (key label : String → String) (path : String) (ts : List String)
    → claim_ids (map (λ t. cover (key t) (label t) path) ts) ≡ []
claim_ids-covers key label path [] = refl
claim_ids-covers key label path (t ∷ ts) = claim_ids-covers key label path ts

claim_ids-flat_map {ℓ} :
    {D : Type ℓ} (calls : ℕ → D → List Claim) (id_of : D → String)
    → ((i : ℕ) (d : D) → claim_ids (calls i d) ≡ id_of d ∷ [])
    → (i : ℕ) (ds : List D) → claim_ids (flat_map_from i calls ds) ≡ map id_of ds
claim_ids-flat_map calls id_of h i [] = refl
claim_ids-flat_map calls id_of h i (d ∷ ds) =
    claim_ids-append (calls i d) (flat_map_from (suc i) calls ds)
    ∙ rw (h i d) (ap (λ t. id_of d ∷ t) (claim_ids-flat_map calls id_of h (suc i) ds))

-- The identifiers of all descriptors.
abbrev pub declared_ids : ExtensionCatalog → List String
declared_ids c =
    map (λ (a : RuntimeAdapterDescriptor). a.id) c.runtime_adapters
    ++ map (λ (p : CapabilityProviderDescriptor). p.id) c.capability_providers

claim_ids-claims : (c : ExtensionCatalog) → claim_ids (claims c) ≡ declared_ids c
claim_ids-claims c =
    claim_ids-append (flat_map_from 0 adapter_claims c.runtime_adapters)
      (flat_map_from 0 provider_claims c.capability_providers)
    ∙ rw
        (claim_ids-flat_map adapter_claims (λ (a : RuntimeAdapterDescriptor). a.id)
          (λ i a. ap (λ t. a.id ∷ t) (claim_ids-covers _ _ _ a.component_kinds)) 0
          c.runtime_adapters)
        (rw
          (claim_ids-flat_map provider_claims (λ (p : CapabilityProviderDescriptor). p.id)
            (λ i p. ap (λ t. p.id ∷ t) (claim_ids-covers _ _ _ p.runtimes)) 0
            c.capability_providers)
          refl)

pub distinct_ids :
    (c : ExtensionCatalog) → catalog_conflicts c ≡ [] → all_distinct (declared_ids c) ≡ true
unfolding catalog_conflicts
distinct_ids c h =
    ap all_distinct (sym (claim_ids-claims c)) ∙ (run_claims_ids [] [] (claims c) h).0

-- The pairs that a descriptor covers: a kind or a capability, and a runtime.
abbrev pub adapter_pairs : RuntimeAdapterDescriptor → List (String × String)
adapter_pairs a = map (λ kind. (kind, a.runtime)) a.component_kinds

abbrev pub provider_pairs : CapabilityProviderDescriptor → List (String × String)
provider_pairs p = map (λ runtime. (p.capability, runtime)) p.runtimes

-- Elements whose images are distinct are distinct.
Nodup-preimage {ℓ} :
    {A : Type ℓ} (f : A → String) (xs : List A) → all_distinct (map f xs) ≡ true → Nodup xs
Nodup-preimage f [] h = Nodup-nil
Nodup-preimage f (x ∷ xs) h = Nodup-cons.1 (
  (λ m. ground (arith, h, (includes_iff (map f xs) (f x)).1 (mem-map_of_mem f m))),
  Nodup-preimage f xs (ground (arith, h)),
)

map-flat_map {ℓ} :
    {D : Type ℓ} (f : String × String → String) (pairs : D → List (String × String))
    (keys_of : D → List String)
    → ((d : D) → map f (pairs d) ≡ keys_of d)
    → (ds : List D) → map f (flat_map pairs ds) ≡ flat_map keys_of ds
map-flat_map f pairs keys_of h [] = refl
map-flat_map f pairs keys_of h (d ∷ ds) =
    map-append f (pairs d) (flat_map pairs ds)
    ∙ ap₂ (λ xs ys. xs ++ ys) (h d) (map-flat_map f pairs keys_of h ds)

map-map_pairs :
    (f : String × String → String) (g : String → String × String) (ts : List String)
    → map f (map g ts) ≡ map (λ t. f (g t)) ts
map-map_pairs f g [] = refl
map-map_pairs f g (t ∷ ts) = ap (λ us. f (g t) ∷ us) (map-map_pairs f g ts)

-- Two descriptors of one sort never cover the same pair.
pub distinct_pairs :
    (c : ExtensionCatalog)
    → catalog_conflicts c ≡ []
    → Nodup (flat_map adapter_pairs c.runtime_adapters)
      × Nodup (flat_map provider_pairs c.capability_providers)
distinct_pairs c h =
    let keys = distinct_keys c h in
    let adapters = flat_map adapter_keys c.runtime_adapters in
    let providers = flat_map provider_keys c.capability_providers in
    (
      Nodup-preimage (λ (q : String × String). adapter_key q.0 q.1) _
          (ap all_distinct (
              map-flat_map (λ (q : String × String). adapter_key q.0 q.1) adapter_pairs adapter_keys
                (λ a. map-map_pairs _ _ a.component_kinds) c.runtime_adapters)
            ∙ all_distinct-append_left adapters providers keys),
      Nodup-preimage (λ (q : String × String). capability_key q.0 q.1) _
          (ap all_distinct (
              map-flat_map (λ (q : String × String). capability_key q.0 q.1) provider_pairs
                provider_keys (λ p. map-map_pairs _ _ p.runtimes) c.capability_providers)
            ∙ all_distinct-append_right adapters providers keys),
    )
