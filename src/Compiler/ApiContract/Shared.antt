-- ===== src/Compiler/ApiContract/Shared.antt =====
-- Every operation that a component implements is in one of its contracts, and nothing else is.
use enistere_foundation.Base.{
  String, Bool, true, ◌&&◌, ◌||◌, List, [], ◌∷◌, Option, none, some, map, keep, any, Any, flat_map,
  includes, ◌⊎◌, ◌≡◌, refl, sym, ap, ◌∙◌, arith, eq_iff, Bool-cases, Option-cases, inl, inr, ◌==◌,
  any-append,
}
use enistere_foundation.Base.Dict.{get, put, from_entries, get-put}
use enistere_foundation.Base.Lists.Any.{
  any-ext, any-keep, any-map, any-flat_map, Any-of_any, any-of_Any, Any-mono,
}
use enistere_foundation.Base.Sorting.Order.{any-sort}
use enistere_foundation.Base.Text.Unique.{includes-sorted, any-includes}
use enistere_foundation.Compiler.ApiContract.{
  ApiContract, binding_map, implementers, provided, providers_of, project_operations,
  project_api_contract, push_contract, project_providers, project_domains, project_api_contracts,
  consuming, api_document,
}
use enistere_foundation.Compiler.DomainIr.{IrOperation, DomainIr}
use enistere_foundation.Compiler.Ir.{OperationBinding}
use enistere_foundation.Contracts.Digest.{returned, digest_of}
use enistere_foundation.Contracts.Digest.Returns.{bind-eq-returned, returned-injective}

-- The contract is the component's and lists the operation.
abbrev pub offers : String → String → ApiContract → Bool
offers item component c = c.provider == component && includes c.operations item

-- The binding of the operation names the component.
abbrev pub implements : List OperationBinding → String → IrOperation → Bool
implements bindings component o =
    includes (implementers (get (binding_map bindings) o.ref)) component

-- The domain has the operation, and the component implements it.
abbrev pub is_realized : List OperationBinding → String → String → DomainIr → Bool
is_realized bindings item component d =
    any (λ (o : IrOperation). implements bindings component o && (o.ref == item)) d.operations

includes-provided :
    (bindings : List OperationBinding) (d : DomainIr) (component item : String)
    → includes (map (λ (o : IrOperation). o.ref) (provided bindings d component)) item
      ≡ is_realized bindings item component d
unfolding provided
includes-provided bindings d component item =
    sym (any-includes (map (λ (o : IrOperation). o.ref) (provided bindings d component)) item)
    ∙ any-map (λ r. r == item) (λ (o : IrOperation). o.ref) (provided bindings d component)
    ∙ any-keep (λ o. o.ref == item) (implements bindings component) d.operations

includes-flat_map {ℓ} :
    {A : Type ℓ} (f : A → List String) (xs : List A) (t : String)
    → includes (flat_map f xs) t ≡ any (λ x. includes (f x) t) xs
includes-flat_map f xs t =
    sym (any-includes (flat_map f xs) t)
    ∙ any-flat_map (λ u. u == t) f xs
    ∙ any-ext _ _ xs (λ x. any-includes (f x) t)

-- What the map holds under a key is a binding of that item.
binding_found :
    (m : List (String × OperationBinding)) (bs : List OperationBinding) (k : String)
    (b : OperationBinding)
    → get (from_entries m (map (λ (b : OperationBinding). (b.item, b)) bs)) k ≡ some b
    → (get m k ≡ some b) ⊎ Any (λ (x : OperationBinding). (x ≡ b) × (x.item ≡ k)) bs
unfolding from_entries
binding_found m [] k b h = inl h
binding_found m (x ∷ bs) k b h = elim (binding_found (put m x.item x) bs k b h) [
  | inr later ↦ inr (inr later)
  | inl before ↦ elim (Bool-cases (x.item == k)) [
    | inl here ↦ inr (inl (cc (get-put m x.item k x, before, here), (eq_iff x.item k).0 here))
    | inr away ↦ inl (ground (arith, get-put m x.item k x, before, away))
  ]
]

module _ (bindings : List OperationBinding) (component : String) where
  -- The binding that the map holds is one of the bindings.
  names_implementer :
      (ref : String)
      → includes (implementers (get (binding_map bindings) ref)) component ≡ true
      → Any
          (λ (b : OperationBinding). (b.item ≡ ref) × (includes b.implemented_by component ≡ true))
          bindings
  unfolding get
  names_implementer ref h = elim (Option-cases (get (binding_map bindings) ref)) [
    | inl e ↦ absurd (cc (h, e))
    | inr (b, e) ↦ elim (binding_found [] bindings ref b e) [
      | inl n ↦ cc
      | inr a ↦ named b (ap (λ x. includes (implementers x) component) (sym e) ∙ h) bindings a
    ]
  ]
    where
      named :
          (b : OperationBinding)
          → includes b.implemented_by component ≡ true
          → (bs : List OperationBinding)
          → Any (λ (x : OperationBinding). (x ≡ b) × (x.item ≡ ref)) bs
          → Any
              (λ (x : OperationBinding).
                (x.item ≡ ref) × (includes x.implemented_by component ≡ true))
              bs
      named b i [] a = elim a [ ]
      named b i (x ∷ bs) (inl (same, here)) =
          inl (here, ap (λ (y : OperationBinding). includes y.implemented_by component) same ∙ i)
      named b i (x ∷ bs) (inr later) = inr (named b i bs later)

  is_provider :
      (d : DomainIr) (item : String)
      → is_realized bindings item component d ≡ true
      → includes (providers_of bindings d) component ≡ true
  unfolding providers_of
  is_provider d item h =
      includes-sorted
        (flat_map (λ (b : OperationBinding). b.implemented_by)
          (keep (λ b. any (λ (o : IrOperation). o.ref == b.item) d.operations) bindings))
        component
      ∙ includes-flat_map (λ (b : OperationBinding). b.implemented_by)
          (keep (λ b. any (λ (o : IrOperation). o.ref == b.item) d.operations) bindings) component
      ∙ any-keep (λ (b : OperationBinding). includes b.implemented_by component)
          (λ b. any (λ (o : IrOperation). o.ref == b.item) d.operations) bindings
      ∙ any-of_Any _ bindings (found d.operations (Any-of_any _ d.operations h))
    where
      found :
          (os : List IrOperation)
          → Any
              (λ (o : IrOperation). (implements bindings component o && (o.ref == item)) ≡ true)
              os
          → Any
              (λ (b : OperationBinding).
                (any (λ (o : IrOperation). o.ref == b.item) os
                  && includes b.implemented_by component)
                ≡ true)
              bindings
      found [] a = elim a [ ]
      found (o ∷ os) (inl here) =
          Any-mono _ _ bindings
            (λ (b : OperationBinding)
                (q : (b.item ≡ o.ref) × (includes b.implemented_by component ≡ true)).
              let same = (eq_iff o.ref b.item).1 (sym q.0) in ground (arith, same, q.1))
            (names_implementer o.ref (ground (arith, here)))
      found (o ∷ os) (inr later) =
          Any-mono _ _ bindings
            (λ (b : OperationBinding)
                (q : (any (λ (o : IrOperation). o.ref == b.item) os
                    && includes b.implemented_by component)
                  ≡ true).
              ground (arith, q))
            (found os later)

module _ (sha256 : String → String) (bindings : List OperationBinding)
    (item component : String) where
  project_operations-offers :
      (d : DomainIr) (q : String) (os : List IrOperation) (c : Option ApiContract)
      → project_operations sha256 bindings d q os ≡ returned c
      → any (offers item component) (push_contract sha256 c [])
        ≡ (q == component && includes (map (λ (o : IrOperation). o.ref) os) item)
  project_operations-offers d q [] c h = rw (← returned-injective h) (ground arith)
  project_operations-offers d q (o ∷ os) c h =
      let (digest, _, e) =
        bind-eq-returned
          (digest_of sha256 (api_document d q (o ∷ os) (consuming bindings (o ∷ os) q))) _ h in
      rw (← returned-injective e) (ground arith)

  project_providers-offers :
      (d : DomainIr) (ps : List String) (cs : List ApiContract)
      → project_providers sha256 bindings d ps ≡ returned cs
      → any (offers item component) cs
        ≡ (includes ps component && is_realized bindings item component d)
  unfolding project_providers project_api_contract
  project_providers-offers d [] cs h = rw (← returned-injective h) refl
  project_providers-offers d (p ∷ ps) cs h =
      let (c, made, h1) =
        bind-eq-returned (project_operations sha256 bindings d p (provided bindings d p)) _ h in
      let (others, rest, h2) = bind-eq-returned (project_providers sha256 bindings d ps) _ h1 in
      let first = project_operations-offers d p (provided bindings d p) c made in
      let later = project_providers-offers d ps others rest in
      rw (← returned-injective h2) (
        pushed c others
        ∙ rw (first, later)
            (settle p ps (eq_iff p component).0 (includes-provided bindings d p item)))
    where
      pushed :
          (c : Option ApiContract) (others : List ApiContract)
          → any (offers item component) (push_contract sha256 c others) ≡ (
              any (offers item component) (push_contract sha256 c [])
              || any (offers item component) others)
      pushed none others = refl
      pushed (some c) others = ground arith

      settle :
          (p : String) (ps : List String)
          → ((p == component) ≡ true → p ≡ component)
          → includes (map (λ (o : IrOperation). o.ref) (provided bindings d p)) item
            ≡ is_realized bindings item p d
          → (p == component
                && includes (map (λ (o : IrOperation). o.ref) (provided bindings d p)) item
              || (includes ps component && is_realized bindings item component d))
            ≡ ((p == component || includes ps component) && is_realized bindings item component d)
      settle p ps same e = elim (Bool-cases (p == component)) [
        | inr away ↦ ground (arith, away)
        | inl here ↦
            let f = e ∙ ap (λ q. is_realized bindings item q d) (same here) in
            ground (arith, here, f)
      ]

  project_domains-offers :
      (ds : List DomainIr) (cs : List ApiContract)
      → project_domains sha256 bindings ds ≡ returned cs
      → any (offers item component) cs ≡ any (is_realized bindings item component) ds
  unfolding project_domains
  project_domains-offers [] cs h = rw (← returned-injective h) refl
  project_domains-offers (d ∷ ds) cs h =
      let (here, e1, h1) =
        bind-eq-returned (project_providers sha256 bindings d (providers_of bindings d)) _ h in
      let (others, e2, h2) = bind-eq-returned (project_domains sha256 bindings ds) _ h1 in
      rw (← returned-injective h2) (
        any-append (offers item component) here others
        ∙ rw
            (
              project_providers-offers d (providers_of bindings d) here e1,
              project_domains-offers ds others e2,
            )
            (ground (arith, is_provider bindings component d item)))

  -- When the projection of the API contracts returns, some contract of a component lists an
  -- operation exactly when a domain has the operation and its binding names the component among
  -- those that implement it.
  pub project_api_contracts-offers :
      (domains : List DomainIr) (contracts : List ApiContract)
      → project_api_contracts sha256 bindings domains ≡ returned contracts
      → any (offers item component) contracts ≡ any (is_realized bindings item component) domains
  unfolding project_api_contracts
  project_api_contracts-offers domains contracts h =
      let (cs, made, e) = bind-eq-returned (project_domains sha256 bindings domains) _ h in
      rw (← returned-injective e)
        (any-sort _ (offers item component) cs ∙ project_domains-offers domains cs made)
