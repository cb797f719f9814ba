-- ===== src/Contracts/Refs/Parse/RoundTrip.antt =====
-- kernel/contracts/src/primitives/refs.ts: a reference is read back from its text.
use Prim.Native.Char.{Char, code}
use text.Mathlib.TextLemmas.{nil-append, cons-append, append_assoc}
use enistere_foundation.Base.{
  String, ℕ, ◌<◌, Bool, true, false, not, ◌||◌, Option, none, some, ◌≡◌, refl, ap, ◌∙◌, subst,
  eq_iff, arith, Bool-cases, inl, inr, eqb, ◌<>◌, ◌==◌, decimal,
}
use enistere_foundation.Base.Patterns.{is_digit, is_small, words, is_words, is_identifier, is_item}
use enistere_foundation.Base.Text.Decimal.{every, read_digits-decimal, every-decimal, leads-decimal}
use enistere_foundation.Contracts.Refs.{
  ContractKind, requirement_baseline, decision_set, effective_organization_context,
  system_definition, domain_contract, change_request, evidence_record, materialization_record,
  design_system, ContractRef, kind_text, ref_key, format_ref, with_item, split_at,
}
use enistere_foundation.Contracts.Refs.Parse.{parse_ref, kind_named, is_revision, parse_identity}

-- No character is the mark.
abbrev lacks : ℕ → String → Bool
lacks mark = every (λ c. not (eqb c mark))

split_at-append :
    (mark : Char) (s t : String)
    → lacks (code mark) s ≡ true
    → split_at (code mark) (s <> String.◌∷◌ mark t) ≡ some (s, t)
unfolding split_at
split_at-append mark String.[] t h = ap (split_at (code mark)) (nil-append _) ∙ ground arith
split_at-append mark (String.◌∷◌ c s) t h =
    let later = split_at-append mark s t (ground (arith, h)) in
    ap (split_at (code mark)) (cons-append c s _) ∙ ground (arith, h, later)

split_at-none : (mark : ℕ) (s : String) → lacks mark s ≡ true → split_at mark s ≡ none
unfolding split_at
split_at-none mark String.[] h = refl
split_at-none mark (String.◌∷◌ c s) h = ground (arith, h, split_at-none mark s (ground (arith, h)))

every_mono :
    (p q : ℕ → Bool)
    → ((c : ℕ) → p c ≡ true → q c ≡ true)
    → (s : String) → every p s ≡ true
    → every q s ≡ true
every_mono p q h String.[] e = refl
every_mono p q h (String.◌∷◌ c s) e =
    ground (arith, e, h (code c), every_mono p q h s (ground (arith, e)))

module _ (next separator q : ℕ → Bool)
    (h : (c : ℕ) → (next c || separator c) ≡ true → q c ≡ true) where
  words-every : (gap : Bool) (s : String) → words next separator gap s ≡ true → every q s ≡ true
  unfolding words
  words-every gap String.[] e = refl
  words-every gap (String.◌∷◌ c s) e = elim (Bool-cases (next (code c))) [
    | inl n ↦
        ground
          (arith, n, h (code c) (ground (arith, n)), words-every false s (ground (arith, e, n)))
    | inr n ↦
        ground (
          arith,
          e,
          n,
          h (code c) (ground (arith, e, n)),
          words-every true s (ground (arith, e, n)),
        )
  ]

  is_words-every :
      (start : ℕ → Bool)
      → ((c : ℕ) → start c ≡ true → q c ≡ true)
      → (s : String) → is_words next separator start s ≡ true
      → every q s ≡ true
  unfolding is_words
  is_words-every start k String.[] e = refl
  is_words-every start k (String.◌∷◌ c s) e =
      ground (arith, e, k (code c) (ground (arith, e)), words-every false s (ground (arith, e)))

identifier-lacks : (s : String) → is_identifier s ≡ true → lacks b'@' s ≡ true
unfolding is_identifier
identifier-lacks s e =
    is_words-every (λ c. is_small c || is_digit c) (λ c. eqb c b'-' || eqb c b'.')
      (λ c. not (eqb c b'@')) (λ c k. ground (arith, k)) is_small (λ c k. ground (arith, k)) s e

digits-lacks : (s : String) → every is_digit s ≡ true → lacks b'#' s ≡ true
digits-lacks s e = every_mono is_digit (λ c. not (eqb c b'#')) (λ c k. ground (arith, k)) s e

kind_text-lacks : (k : ContractKind) → lacks b'/' (kind_text k) ≡ true
unfolding kind_text
kind_text-lacks requirement_baseline = refl
kind_text-lacks decision_set = refl
kind_text-lacks effective_organization_context = refl
kind_text-lacks system_definition = refl
kind_text-lacks domain_contract = refl
kind_text-lacks change_request = refl
kind_text-lacks evidence_record = refl
kind_text-lacks materialization_record = refl
kind_text-lacks design_system = refl

kind_named-kind_text : (k : ContractKind) → kind_named (kind_text k) ≡ some k
unfolding kind_text
kind_named-kind_text requirement_baseline = refl
kind_named-kind_text decision_set = refl
kind_named-kind_text effective_organization_context = refl
kind_named-kind_text system_definition = refl
kind_named-kind_text domain_contract = refl
kind_named-kind_text change_request = refl
kind_named-kind_text evidence_record = refl
kind_named-kind_text materialization_record = refl
kind_named-kind_text design_system = refl

-- An item as the pattern has it, or none.
abbrev pub has_item : Option String → Bool
has_item none = true
has_item (some item) = is_item item

mark-append : (mark : Char) (t : String) → String.◌∷◌ mark String.[] <> t ≡ String.◌∷◌ mark t
mark-append mark t = cons-append mark String.[] t ∙ ap (String.◌∷◌ mark) (nil-append t)

-- An item is not empty.
nothing_empty : (is_item "" ≡ true) → (true ≡ false)
unfolding is_item is_words
nothing_empty h = cc

filled : (item : String) → is_item item ≡ true → (item == "") ≡ false
filled item h = elim (Bool-cases (item == "")) [
  | inl e ↦ e ∙ nothing_empty (subst (λ i. is_item i ≡ true) ((eq_iff item "").0 e) h)
  | inr e ↦ e
]

format-split :
    (kind id revision : String) (item : Option String)
    → has_item item ≡ true
    → with_item (kind <> "/" <> id <> "@" <> revision) item
      ≡ kind <> String.◌∷◌ "/" (id <> String.◌∷◌ "@" (with_item revision item))
format-split kind id revision none h =
    ap (λ t. kind <> t)
      (mark-append "/" _ ∙ ap (λ t. String.◌∷◌ "/" (id <> t)) (mark-append "@" revision))
format-split kind id revision (some item) h = rw (filled item h) (
    append_assoc kind ("/" <> id <> "@" <> revision) ("#" <> item)
    ∙ ap (λ t. kind <> t)
        (append_assoc "/" (id <> "@" <> revision) ("#" <> item)
          ∙ mark-append "/" _
          ∙ ap (String.◌∷◌ "/") (
              append_assoc id ("@" <> revision) ("#" <> item)
              ∙ ap (λ t. id <> t) (append_assoc "@" revision ("#" <> item) ∙ mark-append "@" _))))

module _ (ref : ContractRef) (identified : is_identifier ref.id ≡ true)
    (positive : 0 < ref.revision) where
  revised : is_revision (decimal ref.revision) ≡ true
  revised = ground (arith, leads-decimal ref.revision positive, every-decimal ref.revision)

  parse_revision-decimal :
      (item : Option String)
      → has_item item ≡ true
      → parse_identity ref.kind (ref.id, with_item (decimal ref.revision) item)
        ≡ some (record ref { digest = none; item = item })
  parse_revision-decimal none h =
      rw
        (
          identified,
          split_at-none b'#' (decimal ref.revision)
              (digits-lacks (decimal ref.revision) (every-decimal ref.revision)),
          revised,
          read_digits-decimal ref.revision,
        )
        refl
  parse_revision-decimal (some item) h =
      let split =
        ap (λ t. split_at b'#' (decimal ref.revision <> t)) (mark-append "#" item)
        ∙ split_at-append "#" (decimal ref.revision) item
            (digits-lacks (decimal ref.revision) (every-decimal ref.revision)) in
      rw (identified, filled item h, split, revised, h, read_digits-decimal ref.revision) refl

  -- The text of a reference whose identifier matches its pattern, whose revision is positive
  -- and whose item, if there is one, matches the pattern of items is parsed to the same
  -- reference without its digest.
  pub parse_ref-format_ref :
      has_item ref.item ≡ true → parse_ref (format_ref ref) ≡ some (record ref { digest = none })
  unfolding parse_ref format_ref ref_key
  parse_ref-format_ref h =
      let text = format-split (kind_text ref.kind) ref.id (decimal ref.revision) ref.item h in
      let kind =
        split_at-append "/" (kind_text ref.kind)
          (ref.id <> String.◌∷◌ "@" (with_item (decimal ref.revision) ref.item))
          (kind_text-lacks ref.kind) in
      let id =
        split_at-append "@" ref.id (with_item (decimal ref.revision) ref.item)
          (identifier-lacks ref.id identified) in
      rw (text, kind, kind_named-kind_text ref.kind, id) (parse_revision-decimal ref.item h)
