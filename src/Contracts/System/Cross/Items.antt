-- ===== src/Contracts/System/Cross/Items.antt =====
-- Which texts name an operation or an event of a domain contract.
use enistere_foundation.Base.{
  String, true, false, List, [], ◌∷◌, Option, none, some, map, find, includes, is_some, get_or, ◌≡◌,
  ◌↔◌, refl, sym, ap, ◌∙◌, Any, arith, eq_iff, Bool-cases, Option-cases, inl, inr, ◌<>◌, ◌==◌,
  if◌then◌else◌,
}
use enistere_foundation.Base.Dict.{get}
use enistere_foundation.Contracts.Refs.{parse_domain_item_ref}
use enistere_foundation.Contracts.System.Cross.{
  Expected, operation, event, domain_item, items_of, emitted, emits_of,
}
use enistere_foundation.Contracts.Types.Domain.{DomainOperation, Event, DomainContractSpec}

-- The domain contract declares an operation, or an event, of that identifier.
abbrev pub Declares : Expected → DomainContractSpec → String → Type 0
Declares operation d item = includes (map (λ (o : DomainOperation). o.id) d.operations) item ≡ true
Declares event d item = includes (map (λ (e : Event). e.id) d.events) item ≡ true

find-includes :
    (os : List DomainOperation) (item : String) (o : DomainOperation)
    → find (λ (q : DomainOperation). q.id == item) os ≡ some o
    → includes (map (λ (q : DomainOperation). q.id) os) item ≡ true
find-includes [] item o h = cc
find-includes (q ∷ os) item o h = elim (Bool-cases (q.id == item)) [
  | inl here ↦ ground (arith, here)
  | inr away ↦ ground (arith, find-includes os item o (rw away at h))
]

includes-map_iff :
    (f : String → String) (es : List String) (t : String)
    → (includes (map f es) t ≡ true) ↔ Any (λ e. f e ≡ t) es
includes-map_iff f [] t = ((λ h. absurd (cc h)), λ a. elim a [ ])
includes-map_iff f (e ∷ es) t =
    let (to, from) = includes-map_iff f es t in
    (
      (λ h. elim (Bool-cases (f e == t)) [
        | inl here ↦ inl ((eq_iff (f e) t).0 here)
        | inr away ↦ inr (to (ground (arith, h, away)))
      ]),
      λ a. elim a [
        | inl here ↦ ground (arith, (eq_iff (f e) t).1 here)
        | inr later ↦ ground (arith, from later)
      ],
    )

abbrev emits_found : Option DomainOperation → List String
emits_found found = elim found [ none ↦ [] | some o ↦ get_or o.emits [] ]

module _ (domains : List (String × DomainContractSpec)) where
  -- The text reads as `contract#item`, the contract is known and declares the item.
  pub record IsItem (expected : Expected) (text : String) : Type 0 where
    pub contract : String
    pub item : String
    pub domain : DomainContractSpec
    pub parsed : parse_domain_item_ref text ≡ some (contract, item)
    pub known : get domains contract ≡ some domain
    pub declared : Declares expected domain item

  unparsed_item :
      (expected : Expected) (text : String)
      → parse_domain_item_ref text ≡ none
      → domain_item domains expected text ≡ none
  unfolding domain_item
  unparsed_item expected text e = rw e refl

  -- What is left to test in a contract that is known.
  abbrev found_in :
      Expected → String → String → Option DomainContractSpec → Option (String × String)
  found_in expected contract item o = elim o [
    | none ↦ none
    | some d ↦ if includes (items_of expected d) item then some (contract, item) else none
  ]

  domain_item_parsed :
      (expected : Expected) (text contract item : String)
      → parse_domain_item_ref text ≡ some (contract, item)
      → domain_item domains expected text ≡ found_in expected contract item (get domains contract)
  unfolding domain_item
  domain_item_parsed expected text contract item parsed = rw parsed refl

  declared_item :
      (expected : Expected) (text contract item : String) (d : DomainContractSpec)
      → parse_domain_item_ref text ≡ some (contract, item)
      → get domains contract ≡ some d
      → Declares expected d item
      → domain_item domains expected text ≡ some (contract, item)
  declared_item expected text contract item d parsed known declared =
      domain_item_parsed expected text contract item parsed
      ∙ ap (found_in expected contract item) known
      ∙ in_domain expected declared
    where
      in_domain :
          (x : Expected)
          → Declares x d item
          → found_in x contract item (some d) ≡ some (contract, item)
      in_domain operation h = rw h refl
      in_domain event h = rw h refl

  found_in-Declares :
      (expected : Expected) (contract item : String) (d : DomainContractSpec)
      → is_some (found_in expected contract item (some d)) ≡ true
      → Declares expected d item
  found_in-Declares operation contract item d h = ground (arith, h)
  found_in-Declares event contract item d h = ground (arith, h)

  item_declared :
      (expected : Expected) (text : String)
      → is_some (domain_item domains expected text) ≡ true
      → IsItem expected text
  item_declared expected text h = elim (Option-cases (parse_domain_item_ref text)) [
    | inl wrong ↦ absurd (unparsed wrong h)
    | inr ((contract, item), parsed) ↦
        let found = ap is_some (sym (domain_item_parsed expected text contract item parsed)) ∙ h in
        elim (Option-cases (get domains contract)) [
          | inl unknown ↦ absurd (
              true-false
                (sym found ∙ ap (λ o. is_some (found_in expected contract item o)) unknown))
          | inr (d, known) ↦ record {
            contract = contract;
            item = item;
            domain = d;
            parsed = parsed;
            known = known;
            declared =
                found_in-Declares expected contract item d
                  (ap (λ o. is_some (found_in expected contract item o)) (sym known) ∙ found);
          }
        ]
  ]
    where
      true-false : true ≡ false → ⊥
      true-false e = cc

      unparsed :
          parse_domain_item_ref text ≡ none → is_some (domain_item domains expected text) ≡ true → ⊥
      unparsed e k = true-false (sym k ∙ ap is_some (unparsed_item expected text e))

  -- `domainItem` finds the text exactly when it names such an item.
  pub domain_item_iff :
      (expected : Expected) (text : String)
      → (is_some (domain_item domains expected text) ≡ true) ↔ IsItem expected text
  domain_item_iff expected text = (
    item_declared expected text,
    λ i.
        ap is_some
          (declared_item expected text i.contract i.item i.domain i.parsed i.known i.declared),
  )

  -- The operation that the text names declares the emission of the event.
  pub record Emits (event text : String) : Type 0 where
    pub contract : String
    pub item : String
    pub domain : DomainContractSpec
    pub declaration : DomainOperation
    pub parsed : parse_domain_item_ref text ≡ some (contract, item)
    pub known : get domains contract ≡ some domain
    pub first : find (λ (o : DomainOperation). o.id == item) domain.operations ≡ some declaration
    pub emitted : Any (λ e. contract <> "#" <> e ≡ event) (get_or declaration.emits [])

  emitted-declared :
      (contract item : String) (d : DomainContractSpec) (o : DomainOperation)
      → get domains contract ≡ some d
      → find (λ (q : DomainOperation). q.id == item) d.operations ≡ some o
      → emitted domains (some (contract, item))
        ≡ map (λ e. contract <> "#" <> e) (get_or o.emits [])
  emitted-declared contract item d o known first =
      ap (λ k. map (λ e. contract <> "#" <> e) (emits_of domains item k)) known
      ∙ ap (λ k. map (λ e. contract <> "#" <> e) (emits_found k)) first

  Emits-includes :
      (text t : String)
      → Emits t text
      → includes (emitted domains (domain_item domains operation text)) t ≡ true
  Emits-includes text t e =
      let declared = find-includes e.domain.operations e.item e.declaration e.first in
      let same =
        ap (emitted domains)
          (declared_item operation text e.contract e.item e.domain e.parsed e.known declared)
        ∙ emitted-declared e.contract e.item e.domain e.declaration e.known e.first in
      ap (λ ts. includes ts t) same ∙ (includes-map_iff _ _ t).1 e.emitted

  includes-Emits :
      (text t : String)
      → includes (emitted domains (domain_item domains operation text)) t ≡ true
      → Emits t text
  includes-Emits text t h = elim (Option-cases (domain_item domains operation text)) [
    | inl none_such ↦
        absurd (nothing (ap (λ o. includes (emitted domains o) t) (sym none_such) ∙ h))
    | inr (found, e) ↦
        let i = item_declared operation text (ap is_some e) in
        let at =
          declared_item operation text i.contract i.item i.domain i.parsed i.known i.declared in
        let h' = ap (λ o. includes (emitted domains o) t) (sym at) ∙ h in
        elim (Option-cases (find (λ (o : DomainOperation). o.id == i.item) i.domain.operations)) [
          | inl missing ↦ absurd (
              nothing (
                ap (λ k. includes (map (λ e. i.contract <> "#" <> e) (emits_found k)) t)
                  (sym missing)
                ∙ ap
                    (λ k.
                      includes (map (λ e. i.contract <> "#" <> e) (emits_of domains i.item k)) t)
                    (sym i.known)
                ∙ h'))
          | inr (o, first) ↦ record {
            contract = i.contract;
            item = i.item;
            domain = i.domain;
            declaration = o;
            parsed = i.parsed;
            known = i.known;
            first = first;
            emitted = (includes-map_iff _ _ t).0 (
                ap (λ ts. includes ts t)
                  (sym (emitted-declared i.contract i.item i.domain o i.known first))
                ∙ h');
          }
        ]
  ]
    where
      nothing : false ≡ true → ⊥
      nothing e = cc

  -- What an implemented operation adds to the published events.
  pub emitted_iff :
      (text t : String)
      → (includes (emitted domains (domain_item domains operation text)) t ≡ true) ↔ Emits t text
  emitted_iff text t = (includes-Emits text t, Emits-includes text t)
