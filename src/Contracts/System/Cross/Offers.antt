-- ===== src/Contracts/System/Cross/Offers.antt =====
-- What the components of a system definition offer to each other.
use enistere_foundation.Base.{
  String, Bool, true, false, ◌&&◌, List, [], ◌∷◌, some, map, keep, flat_map, includes, is_some,
  get_or, ◌≡◌, ◌↔◌, ◌⊎◌, refl, sym, ap, ◌∙◌, Any, arith, eq_iff, Bool-cases, inl, inr, ◌==◌,
}
use enistere_foundation.Base.Dict.{get, put, from_entries, get-put}
use enistere_foundation.Base.Text.Sets.{includes-append}
use enistere_foundation.Contracts.System.{component_ids}
use enistere_foundation.Contracts.System.Cross.{
  operation, event, domain_item, implemented_by, provides, implemented, emitted, published,
  published_by,
}
use enistere_foundation.Contracts.System.Cross.Items.{IsItem, Emits, domain_item_iff, emitted_iff}
use enistere_foundation.Contracts.Types.Domain.{DomainContractSpec}
use enistere_foundation.Contracts.Types.System.{Component}

-- The last component of that identifier lists the operation among those that it implements.
abbrev pub Implements : List Component → String → String → Type 0
Implements [] target text = ⊥
Implements (c ∷ components) target text =
    Implements components target text
    ⊎ ((c.id ≡ target)
        × (includes (component_ids components) target ≡ false)
        × (includes (get_or c.implements []) text ≡ true))

includes-keep :
    (p : String → Bool) (ts : List String) (t : String)
    → includes (keep p ts) t ≡ (p t && includes ts t)
includes-keep p [] t = ground arith
includes-keep p (u ∷ ts) t = elim (Bool-cases (u == t)) [
  | inl here ↦
      let same : p u ≡ p t = ap p ((eq_iff u t).0 here) in
      ground (arith, here, same, includes-keep p ts t)
  | inr away ↦ ground (arith, away, includes-keep p ts t)
]

pub includes-flat_map_iff {ℓ} :
    {A : Type ℓ} (f : A → List String) (xs : List A) (t : String)
    → (includes (flat_map f xs) t ≡ true) ↔ Any (λ x. includes (f x) t ≡ true) xs
includes-flat_map_iff f [] t = ((λ h. absurd (cc h)), λ a. elim a [ ])
includes-flat_map_iff f (x ∷ xs) t =
    let (to, from) = includes-flat_map_iff f xs t in
    (
      (λ h. elim (Bool-cases (includes (f x) t)) [
        | inl here ↦ inl here
        | inr away ↦ inr (to (ground (arith, h, away, includes-append (f x) (flat_map f xs) t)))
      ]),
      λ a. elim a [
        | inl here ↦ ground (arith, here, includes-append (f x) (flat_map f xs) t)
        | inr later ↦ ground (arith, from later, includes-append (f x) (flat_map f xs) t)
      ],
    )

Any_iff {ℓ} :
    {A : Type ℓ} (P Q : A → Type 0) (xs : List A) → ((x : A) → P x ↔ Q x) → Any P xs ↔ Any Q xs
Any_iff P Q [] h = ((λ a. a), λ a. a)
Any_iff P Q (x ∷ xs) h =
    let (to, from) = Any_iff P Q xs h in
    (
      (λ a. elim a [ inl p ↦ inl ((h x).0 p) | inr r ↦ inr (to r) ]),
      λ a. elim a [ inl q ↦ inl ((h x).1 q) | inr r ↦ inr (from r) ],
    )

module _ (domains : List (String × DomainContractSpec)) where
  abbrev entry : Component → String × List String
  entry c = (c.id, implemented_by domains c)

  provides-put :
      (m : List (String × List String)) (c : Component) (target text : String)
      → is_some (domain_item domains operation text) ≡ true
      → (c.id == target) ≡ true
      → provides domains (get (put m c.id (implemented_by domains c)) target) text
        ≡ includes (get_or c.implements []) text
  provides-put m c target text known here =
      let at : get (put m c.id (implemented_by domains c)) target
          ≡ some (implemented_by domains c) =
        get-put m c.id target (implemented_by domains c) ∙ rw here refl in
      ap (λ o. provides domains o text) at
      ∙ includes-keep _ (get_or c.implements []) text
      ∙ rw known refl

  provides-put_other :
      (m : List (String × List String)) (c : Component) (target text : String)
      → (c.id == target) ≡ false
      → provides domains (get (put m c.id (implemented_by domains c)) target) text
        ≡ provides domains (get m target) text
  provides-put_other m c target text away =
      let at : get (put m c.id (implemented_by domains c)) target ≡ get m target =
        get-put m c.id target (implemented_by domains c) ∙ rw away refl in
      ap (λ o. provides domains o text) at

  -- With the entries of `m` before those of the components.
  abbrev Provided : List (String × List String) → List Component → String → String → Type 0
  Provided m components target text =
      Implements components target text
      ⊎ ((includes (component_ids components) target ≡ false)
          × (provides domains (get m target) text ≡ true))

  from_entries_iff :
      (m : List (String × List String)) (components : List Component) (target text : String)
      → is_some (domain_item domains operation text) ≡ true
      → (provides domains (get (from_entries m (map entry components)) target) text ≡ true)
        ↔ Provided m components target text
  unfolding from_entries
  from_entries_iff m [] target text known =
      ((λ h. inr (refl, h)), λ a. elim a [ inl e ↦ elim e [ ] | inr h ↦ h.1 ])
  from_entries_iff m (c ∷ components) target text known =
      let (to, from) =
        from_entries_iff (put m c.id (implemented_by domains c)) components target text known in
      elim (Bool-cases (c.id == target)) [
        | inl here ↦
            let own = provides-put m c target text known here in
            (
              (λ h. elim (to h) [
                | inl later ↦ inl (inl later)
                | inr (last, p) ↦ inl (inr ((eq_iff c.id target).0 here, last, sym own ∙ p))
              ]),
              λ a. elim a [
                | inl (inl later) ↦ from (inl later)
                | inl (inr (same, last, p)) ↦ from (inr (last, own ∙ p))
                | inr (fresh, p) ↦ absurd (cc (rw here at fresh))
              ],
            )
        | inr away ↦
            let old = provides-put_other m c target text away in
            (
              (λ h. elim (to h) [
                | inl later ↦ inl (inl later)
                | inr (last, p) ↦ inr (ground (arith, away, last), sym old ∙ p)
              ]),
              λ a. elim a [
                | inl (inl later) ↦ from (inl later)
                | inl (inr (same, last, p)) ↦ absurd (cc (sym away ∙ (eq_iff c.id target).1 same))
                | inr (fresh, p) ↦ from (inr (ground (arith, fresh), old ∙ p))
              ],
            )
      ]

  -- An operation is provided exactly when the last component of that identifier implements it.
  pub provides_iff :
      (components : List Component) (target text : String)
      → is_some (domain_item domains operation text) ≡ true
      → (provides domains (get (implemented domains components) target) text ≡ true)
        ↔ Implements components target text
  unfolding implemented get
  provides_iff components target text known =
      let (to, from) = from_entries_iff [] components target text known in
      ((λ h. elim (to h) [ inl i ↦ i | inr (fresh, p) ↦ absurd (cc p) ]), λ i. from (inl i))

  -- The component publishes the event itself, or implements an operation that emits it.
  abbrev pub Publishes : String → Component → Type 0
  Publishes t c =
      Any (Emits domains t) (get_or c.implements [])
      ⊎ ((includes (get_or c.publishes []) t ≡ true) × IsItem domains event t)

  published_by_iff :
      (t : String) (c : Component) → (includes (published_by domains c) t ≡ true) ↔ Publishes t c
  published_by_iff t c =
      let operations = get_or c.implements [] in
      let own = get_or c.publishes [] in
      let events =
        flat_map (λ text. emitted domains (domain_item domains operation text)) operations in
      let split =
        includes-append events (keep (λ text. is_some (domain_item domains event text)) own) t in
      let kept = includes-keep (λ text. is_some (domain_item domains event text)) own t in
      let (to, from) = includes-flat_map_iff _ operations t in
      let (each, back) =
        Any_iff _ (Emits domains t) operations (λ text. emitted_iff domains text t) in
      let (item, found) = domain_item_iff domains event t in
      (
        (λ h. elim (Bool-cases (includes events t)) [
          | inl here ↦ inl (each (to here))
          | inr away ↦
              inr
                (ground (arith, h, split, kept, away), item (ground (arith, h, split, kept, away)))
        ]),
        λ a. elim a [
          | inl e ↦ ground (arith, split, from (back e))
          | inr (listed, i) ↦ ground (arith, split, kept, listed, found i)
        ],
      )

  -- An event is published exactly when some component publishes it.
  pub published_iff :
      (components : List Component) (t : String)
      → (includes (published domains components) t ≡ true) ↔ Any (Publishes t) components
  unfolding published
  published_iff components t =
      let (to, from) = includes-flat_map_iff (published_by domains) components t in
      let (each, back) = Any_iff _ (Publishes t) components (published_by_iff t) in
      ((λ h. each (to h)), λ a. from (back a))
