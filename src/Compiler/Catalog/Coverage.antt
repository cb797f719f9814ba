-- ===== src/Compiler/Catalog/Coverage.antt =====
-- A catalog without conflicts has at most one descriptor for each thing that is looked up.
use enistere_foundation.Base.{
  String, ℕ, suc, Bool, true, false, List, [], ◌∷◌, ◌++◌, map, any, flat_map, flat_map_from,
  includes, ◌≡◌, refl, sym, ap, ◌∙◌, All, arith, eq_iff, Bool-cases, Option-cases, inl, inr, ◌==◌,
}
use enistere_foundation.Base.Dict.{get, put, has}
use enistere_foundation.Base.Dict.Fresh.{All-put}
use enistere_foundation.Base.Text.Sets.{all_distinct, includes-append}
use enistere_foundation.Compiler.Catalog.{
  RuntimeAdapterDescriptor, CapabilityProviderDescriptor, ExtensionCatalog, Claim, claim, cover,
  adapter_key, capability_key, adapter_claims, provider_claims, claims, run_claims,
  catalog_conflicts,
}

abbrev cover_keys : List Claim → List String
cover_keys [] = []
cover_keys (claim id path ∷ cs) = cover_keys cs
cover_keys (cover key label path ∷ cs) = key ∷ cover_keys cs

cover_keys-append : (cs ds : List Claim) → cover_keys (cs ++ ds) ≡ cover_keys cs ++ cover_keys ds
cover_keys-append [] ds = refl
cover_keys-append (claim id path ∷ cs) ds = cover_keys-append cs ds
cover_keys-append (cover key label path ∷ cs) ds = ap (λ t. key ∷ t) (cover_keys-append cs ds)

run_claims_nil :
    (ids coverage : List (String × String)) (cs : List Claim)
    → run_claims ids coverage cs ≡ []
    → (all_distinct (cover_keys cs) ≡ true) × All (λ k. has coverage k ≡ false) (cover_keys cs)
unfolding run_claims
run_claims_nil ids coverage [] h = (refl, tt)
run_claims_nil ids coverage (claim id path ∷ cs) h = elim (Option-cases (get ids id)) [
  | inl new ↦ run_claims_nil (put ids id path) coverage cs (rw new at h)
  | inr (other, e) ↦ cc
]
run_claims_nil ids coverage (cover key label path ∷ cs) h = elim (Option-cases (get coverage key)) [
  | inl new ↦
      let (others, fresh) = run_claims_nil ids (put coverage key path) cs (rw new at h) in
      let (away, old) = (All-put coverage key path (cover_keys cs)).0 fresh in
      (ground (arith, others, away), (rw new refl, old))
  | inr (other, e) ↦ cc
]

pub all_distinct-append_left :
    (xs ys : List String) → all_distinct (xs ++ ys) ≡ true → all_distinct xs ≡ true
all_distinct-append_left [] ys h = refl
all_distinct-append_left (x ∷ xs) ys h =
    ground (arith, h, includes-append xs ys x, all_distinct-append_left xs ys)

pub all_distinct-append_right :
    (xs ys : List String) → all_distinct (xs ++ ys) ≡ true → all_distinct ys ≡ true
all_distinct-append_right [] ys h = h
all_distinct-append_right (x ∷ xs) ys h = all_distinct-append_right xs ys (ground (arith, h))

-- What the first part has, the second has not.
all_distinct-append :
    (xs ys : List String) (k : String)
    → all_distinct (xs ++ ys) ≡ true
    → includes xs k ≡ true
    → includes ys k ≡ false
all_distinct-append [] ys k h e = cc
all_distinct-append (x ∷ xs) ys k h e = elim (Bool-cases (x == k)) [
  | inl here ↦
      let same : x ≡ k = (eq_iff x k).0 here in
      ap (includes ys) (sym same) ∙ ground (arith, h, includes-append xs ys x)
  | inr away ↦ all_distinct-append xs ys k (ground (arith, h)) (ground (arith, e, away))
]

-- At most one element passes the test.
abbrev pub AtMostOne {ℓ} : {A : Type ℓ} → (A → Bool) → List A → Type 0
AtMostOne p [] = Unit
AtMostOne p (x ∷ xs) = (p x ≡ true → any p xs ≡ false) × AtMostOne p xs

module _ {ℓ} {D : Type ℓ} (keys_of : D → List String) (p : D → Bool) (key : String)
    (keyed : (d : D) → p d ≡ true → includes (keys_of d) key ≡ true) where
  any-keyed : (ds : List D) → any p ds ≡ true → includes (flat_map keys_of ds) key ≡ true
  any-keyed [] h = cc
  any-keyed (d ∷ ds) h = elim (Bool-cases (p d)) [
    | inl here ↦ ground (arith, includes-append (keys_of d) (flat_map keys_of ds) key, keyed d here)
    | inr away ↦ ground (
      arith,
      includes-append (keys_of d) (flat_map keys_of ds) key,
      any-keyed ds (ground (arith, h, away)),
    )
  ]

  pub AtMostOne-of_distinct :
      (ds : List D) → all_distinct (flat_map keys_of ds) ≡ true → AtMostOne p ds
  AtMostOne-of_distinct [] h = tt
  AtMostOne-of_distinct (d ∷ ds) h = (
    (λ here.
        let away = all_distinct-append (keys_of d) (flat_map keys_of ds) key h (keyed d here) in
        ground (arith, away, any-keyed ds)),
    AtMostOne-of_distinct ds (all_distinct-append_right (keys_of d) (flat_map keys_of ds) h),
  )

abbrev pub adapter_keys : RuntimeAdapterDescriptor → List String
adapter_keys a = map (λ kind. adapter_key kind a.runtime) a.component_kinds

abbrev pub provider_keys : CapabilityProviderDescriptor → List String
provider_keys p = map (λ runtime. capability_key p.capability runtime) p.runtimes

cover_keys-covers :
    (key label : String → String) (path : String) (ts : List String)
    → cover_keys (map (λ t. cover (key t) (label t) path) ts) ≡ map key ts
cover_keys-covers key label path [] = refl
cover_keys-covers key label path (t ∷ ts) =
    ap (λ us. key t ∷ us) (cover_keys-covers key label path ts)

cover_keys-flat_map {ℓ} :
    {D : Type ℓ} (calls : ℕ → D → List Claim) (keys_of : D → List String)
    → ((i : ℕ) (d : D) → cover_keys (calls i d) ≡ keys_of d)
    → (i : ℕ) (ds : List D) → cover_keys (flat_map_from i calls ds) ≡ flat_map keys_of ds
cover_keys-flat_map calls keys_of h i [] = refl
cover_keys-flat_map calls keys_of h i (d ∷ ds) =
    cover_keys-append (calls i d) (flat_map_from (suc i) calls ds)
    ∙ rw (h i d) (ap (λ t. keys_of d ++ t) (cover_keys-flat_map calls keys_of h (suc i) ds))

cover_keys-claims :
    (c : ExtensionCatalog)
    → cover_keys (claims c)
      ≡ flat_map adapter_keys c.runtime_adapters ++ flat_map provider_keys c.capability_providers
cover_keys-claims c =
    cover_keys-append (flat_map_from 0 adapter_claims c.runtime_adapters)
      (flat_map_from 0 provider_claims c.capability_providers)
    ∙ rw
        (cover_keys-flat_map adapter_claims adapter_keys
          (λ i a. cover_keys-covers (λ kind. adapter_key kind a.runtime) _ _ a.component_kinds) 0
          c.runtime_adapters)
        (rw
          (cover_keys-flat_map provider_claims provider_keys
            (λ i p.
              cover_keys-covers (λ runtime. capability_key p.capability runtime) _ _ p.runtimes)
            0 c.capability_providers)
          refl)

pub distinct_keys :
    (c : ExtensionCatalog)
    → catalog_conflicts c ≡ []
    → all_distinct
        (flat_map adapter_keys c.runtime_adapters ++ flat_map provider_keys c.capability_providers)
      ≡ true
unfolding catalog_conflicts
distinct_keys c h =
    ap all_distinct (sym (cover_keys-claims c)) ∙ (run_claims_nil [] [] (claims c) h).0

pub includes-map :
    (f : String → String) (ts : List String) (t : String)
    → includes ts t ≡ true
    → includes (map f ts) (f t) ≡ true
includes-map f [] t h = cc
includes-map f (u ∷ ts) t h = elim (Bool-cases (u == t)) [
  | inl here ↦
      let same : f u ≡ f t = ap f ((eq_iff u t).0 here) in
      ground (arith, (eq_iff (f u) (f t)).1 same)
  | inr away ↦ ground (arith, h, away, includes-map f ts t)
]
