-- ===== src/Contracts/Context/Trace.antt =====
-- The trace of an effective rule explains its value.
use enistere_foundation.Base.{
  String, ℕ, suc, Bool, true, false, List, [], ◌∷◌, ◌++◌, Option, none, some, any, keep, ◌≡◌, refl,
  sym, ap, ◌∙◌, subst, All, All-image, arith, Bool-cases, inl, inr, ◌==◌,
}
use enistere_foundation.Base.Dict.{get, put}
use enistere_foundation.Base.Sorting.{sort}
use enistere_foundation.Base.Sorting.Order.{sort-All}
use enistere_foundation.Contracts.Json.{Json}
use enistere_foundation.Contracts.Types.Context.{
  ContextRule, ContextLayer, ContextWaiver, applied, TraceEntry, RuleSource, EffectiveRule,
}
use enistere_foundation.Contracts.Context.{
  layer_entry, waiver_entry, waive, layer_order, waiver_order, indexed, duplicate_precedences,
  Working, Derivation, is_applied, is_current, override_last, next_working, apply_rules,
  apply_layers, apply_waiver, apply_waivers, derive, effective_rule, derive_effective_rules,
}

keep-append {ℓ} :
    {A : Type ℓ} (p : A → Bool) (xs ys : List A) → keep p (xs ++ ys) ≡ keep p xs ++ keep p ys
keep-append p [] ys = refl
keep-append p (x ∷ xs) ys = ground (arith, keep-append p xs ys)

-- The entry that `p` selects is the one that is current.
any-current :
    (p : TraceEntry → Bool) (t : List TraceEntry) (e : TraceEntry)
    → keep is_current t ≡ e ∷ []
    → p e ≡ true
    → any p t ≡ true
any-current p [] e h q = cc
any-current p (x ∷ t) e h q = elim (Bool-cases (is_current x)) [
  | inl c ↦ let same : x ≡ e = cc (rw c at h) in ground (arith, ap p same, q)
  | inr c ↦ ground (arith, any-current p t e (rw c at h) q)
]

none-current :
    (p : TraceEntry → Bool) (t : List TraceEntry)
    → ((x : TraceEntry) → p x ≡ true → is_current x ≡ true)
    → keep is_current t ≡ []
    → any p t ≡ false
none-current p [] q h = refl
none-current p (x ∷ t) q h = elim (Bool-cases (is_current x)) [
  | inl c ↦ absurd (cc (rw c at h))
  | inr c ↦ elim (Bool-cases (p x)) [
    | inl y ↦ absurd (cc (q x y, c))
    | inr n ↦ ground (arith, n, none-current p t q (rw c at h))
  ]
]

override_last-current :
    (p : TraceEntry → Bool) (t : List TraceEntry) (e : TraceEntry)
    → ((x : TraceEntry) → p x ≡ true → is_current x ≡ true)
    → keep is_current t ≡ e ∷ []
    → p e ≡ true
    → keep is_current (override_last p t) ≡ []
unfolding override_last
override_last-current p [] e q h y = cc
override_last-current p (x ∷ t) e q h y = elim (Bool-cases (is_current x)) [
  | inl c ↦
      let found = rw c at h in
      let same : x ≡ e = cc found in
      let rest : keep is_current t ≡ [] = cc found in
      rw (none-current p t q rest, ap p same ∙ y) rest
  | inr c ↦
      let found = rw c at h in
      rw (any-current p t e found y, c) (override_last-current p t e q found y)
]

-- One entry of the trace is current, and it has the value and the source of the rule.
pub record IsTraced (value : Json) (source : RuleSource) (trace : List TraceEntry) : Type 0 where
  pub entry : TraceEntry
  pub only : keep is_current trace ≡ entry ∷ []
  pub value_of : entry.value ≡ value
  pub type_of : entry.from ≡ source.type
  pub id_of : entry.id ≡ source.id

abbrev IsExplained : Working → Type 0
IsExplained w = IsTraced w.value w.source w.trace

-- As long as no waiver is applied, the current entry is an applied one.
record IsLayered (w : Working) : Type 0 where
  traced : IsExplained w
  by_layer : is_applied traced.entry ≡ true

applied-current : (x : TraceEntry) → is_applied x ≡ true → is_current x ≡ true
applied-current x h = ground arith

next_working-IsLayered :
    (l : ContextLayer) (rule : ContextRule) (current : Option Working)
    → ((w : Working) → current ≡ some w → IsLayered w)
    → IsLayered (next_working l rule current)
unfolding next_working
next_working-IsLayered l rule none h = record {
  traced = record { entry = _; only = refl; value_of = refl; type_of = refl; id_of = refl };
  by_layer = refl;
}
next_working-IsLayered l rule (some w) h =
    let before = h w refl in
    elim (Bool-cases w.locked) [
      | inl e ↦ rw e (record {
        traced = record {
          entry = before.traced.entry;
          only = keep-append is_current w.trace _ ∙ ap (λ front. front ++ []) before.traced.only;
          value_of = before.traced.value_of;
          type_of = before.traced.type_of;
          id_of = before.traced.id_of;
        };
        by_layer = before.by_layer;
      })
      | inr e ↦ rw e (record {
        traced = record {
          entry = layer_entry l rule applied none;
          only =
              keep-append is_current (override_last is_applied w.trace) _
              ∙ ap (λ front. front ++ layer_entry l rule applied none ∷ [])
                  (override_last-current is_applied w.trace before.traced.entry applied-current
                    before.traced.only before.by_layer);
          value_of = refl;
          type_of = refl;
          id_of = refl;
        };
        by_layer = refl;
      })
    ]

module _ (P : Working → Type 0) where
  abbrev AllRules : List (String × Working) → Type 0
  AllRules = All (λ (e : String × Working). P e.1)

  AllRules-get :
      (rules : List (String × Working)) (k : String) (w : Working)
      → AllRules rules
      → get rules k ≡ some w
      → P w
  unfolding get
  AllRules-get [] k w h g = cc
  AllRules-get ((j, v) ∷ rules) k w (p, h) g = elim (Bool-cases (j == k)) [
    | inl e ↦ let same : v ≡ w = cc (rw e at g) in subst P same p
    | inr e ↦ AllRules-get rules k w h (rw e at g)
  ]

  AllRules-put :
      (rules : List (String × Working)) (k : String) (w : Working)
      → AllRules rules
      → P w
      → AllRules (put rules k w)
  unfolding put
  AllRules-put [] k w h p = (p, tt)
  AllRules-put ((j, v) ∷ rules) k w (q, h) p = elim (Bool-cases (j == k)) [
    | inl e ↦ rw e (p, h)
    | inr e ↦ rw e (q, AllRules-put rules k w h p)
  ]

apply_rules-IsLayered :
    (ref : String) (index : ℕ) (l : ContextLayer) (i : ℕ) (rules : List ContextRule)
    (d : Derivation)
    → AllRules IsLayered d.rules
    → AllRules IsLayered (apply_rules ref index l i rules d).rules
unfolding apply_rules
apply_rules-IsLayered ref index l i [] d h = h
apply_rules-IsLayered ref index l i (rule ∷ rules) d h =
    apply_rules-IsLayered ref index l (suc i) rules _ (
      AllRules-put IsLayered d.rules rule.id (next_working l rule (get d.rules rule.id)) h (
        next_working-IsLayered l rule (get d.rules rule.id)
          (λ w g. AllRules-get IsLayered d.rules rule.id w h g)))

apply_layers-IsLayered :
    (ref : String) (layers : List (ℕ × ContextLayer)) (d : Derivation)
    → AllRules IsLayered d.rules
    → AllRules IsLayered (apply_layers ref layers d).rules
unfolding apply_layers
apply_layers-IsLayered ref [] d h = h
apply_layers-IsLayered ref ((index, l) ∷ layers) d h =
    apply_layers-IsLayered ref layers (apply_rules ref index l 0 l.rules d)
      (apply_rules-IsLayered ref index l 0 l.rules d h)

current-of-keep :
    (t : List TraceEntry) (e : TraceEntry) → keep is_current t ≡ e ∷ [] → is_current e ≡ true
current-of-keep [] e h = cc
current-of-keep (x ∷ t) e h = elim (Bool-cases (is_current x)) [
  | inl c ↦ let same : x ≡ e = cc (rw c at h) in sym (ap is_current same) ∙ c
  | inr c ↦ current-of-keep t e (rw c at h)
]

waive-IsExplained :
    (w : ContextWaiver) (current : Working) → IsExplained current → IsExplained (waive w current)
waive-IsExplained w current h = record {
  entry = waiver_entry w;
  only =
      keep-append is_current (override_last is_current current.trace) _
      ∙ ap (λ front. front ++ waiver_entry w ∷ [])
          (override_last-current is_current current.trace h.entry (λ x c. c) h.only
            (current-of-keep current.trace h.entry h.only));
  value_of = refl;
  type_of = refl;
  id_of = refl;
}

apply_waiver-IsExplained :
    (ref : String) (index : ℕ) (w : ContextWaiver) (current : Option Working) (d : Derivation)
    → ((c : Working) → current ≡ some c → IsExplained c)
    → AllRules IsExplained d.rules
    → AllRules IsExplained (apply_waiver ref index w current d).rules
apply_waiver-IsExplained ref index w none d g h = h
apply_waiver-IsExplained ref index w (some c) d g h =
    AllRules-put IsExplained d.rules w.rule (waive w c) h (waive-IsExplained w c (g c refl))

apply_waivers-IsExplained :
    (ref : String) (waivers : List (ℕ × ContextWaiver)) (d : Derivation)
    → AllRules IsExplained d.rules
    → AllRules IsExplained (apply_waivers ref waivers d).rules
unfolding apply_waivers
apply_waivers-IsExplained ref [] d h = h
apply_waivers-IsExplained ref ((index, w) ∷ waivers) d h =
    apply_waivers-IsExplained ref waivers (apply_waiver ref index w (get d.rules w.rule) d) (
      apply_waiver-IsExplained ref index w (get d.rules w.rule) d
        (λ c g. AllRules-get IsExplained d.rules w.rule c h g) h)

explained :
    (rules : List (String × Working)) → AllRules IsLayered rules → AllRules IsExplained rules
explained [] h = tt
explained (r ∷ rules) (p, h) = (p.traced, explained rules h)

derive-IsExplained :
    (ref : String) (layers : List ContextLayer) (waivers : List ContextWaiver)
    → AllRules IsExplained (derive ref layers waivers).rules
unfolding derive
derive-IsExplained ref layers waivers =
    let start : Derivation = record { rules = []; found = duplicate_precedences ref 0 [] layers } in
    let ordered = sort layer_order (indexed layers) in
    let layered = apply_layers ref ordered start in
    apply_waivers-IsExplained ref (sort waiver_order (indexed waivers)) layered
      (explained layered.rules (apply_layers-IsLayered ref ordered start tt))

-- For any layers and waivers, every effective rule has in its trace exactly one entry that is
-- APPLIED or WAIVED, and the value and the source of the rule are those of that entry.
pub derive_effective_rules-IsTraced :
    (layers : List ContextLayer) (waivers : List ContextWaiver) (ref : String)
    → All
        (λ (r : EffectiveRule). IsTraced r.value r.source r.trace)
        (derive_effective_rules layers waivers ref).effective
unfolding derive_effective_rules
derive_effective_rules-IsTraced layers waivers ref =
    All-image (λ (e : String × Working). IsExplained e.1)
      (λ (r : EffectiveRule). IsTraced r.value r.source r.trace) effective_rule _ (λ e h. h)
      (sort-All _ (λ (e : String × Working). IsExplained e.1) _
        (derive-IsExplained ref layers waivers))
