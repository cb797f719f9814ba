-- ===== src/Contracts/Diagnostics/Errors.antt =====
-- Sorting diagnostics never hides an error: the key of a duplicate determines its code, since the
-- parts of a key are joined by NUL characters.
use Prim.Native.Char.{code, nul}
use text.Mathlib.TextLemmas.{nil-append, cons-append, head-eq_of_cons-eq, tail-eq_of_cons-eq}
use enistere_foundation.Base.{
  String, Bool, true, not, ◌||◌, ◌&&◌, List, [], ◌∷◌, ◌<>◌, get_or, All, includes, ◌≡◌, refl, ap,
  ap₂, sym, ◌∙◌, arith, eq_iff, eqb, Bool-cases, inl, inr, ◌==◌, map,
}
use enistere_foundation.Base.Sorting.Order.{any-sort}
use enistere_foundation.Contracts.Diagnostics.{
  Diagnostic, DiagnosticCode, DiagnosticInput, separator, key, unique_from, compare_diagnostics,
  sort_diagnostics, is_error, has_errors, diagnostic,
}
use enistere_foundation.Contracts.Diagnostics.Codes.{contract_not_an_object}
use enistere_foundation.Contracts.Diagnostics.Registry.{diagnostic_codes}
use enistere_foundation.Contracts.Diagnostics.Names.{code_text, code_text_injective}

unfoldable pub no_nul : String → Bool
no_nul String.[] = true
no_nul (String.◌∷◌ c s) = not (eqb (code c) 0) && no_nul s

separator-append : (s : String) → separator <> s ≡ String.◌∷◌ nul s
separator-append s = cons-append nul String.[] s ∙ ap (String.◌∷◌ nul) (nil-append s)

split_key :
    (a b s t : String)
    → no_nul a ≡ true
    → no_nul b ≡ true
    → a <> String.◌∷◌ nul s ≡ b <> String.◌∷◌ nul t
    → (a ≡ b) × (s ≡ t)
unfolding no_nul
split_key String.[] String.[] s t p q h =
    (refl, tail-eq_of_cons-eq (sym (nil-append _) ∙ h ∙ nil-append _))
split_key String.[] (String.◌∷◌ d b) s t p q h =
    let e : nul ≡ d = head-eq_of_cons-eq (sym (nil-append _) ∙ h ∙ cons-append d b _) in
    absurd (ground (arith, ap code e))
split_key (String.◌∷◌ c a) String.[] s t p q h =
    let e : c ≡ nul = head-eq_of_cons-eq (sym (cons-append c a _) ∙ h ∙ nil-append _) in
    absurd (ground (arith, ap code e))
split_key (String.◌∷◌ c a) (String.◌∷◌ d b) s t p q h =
    let same = sym (cons-append c a (String.◌∷◌ nul s)) ∙ h ∙ cons-append d b (String.◌∷◌ nul t) in
    let ih = split_key a b s t (ground arith) (ground arith) (tail-eq_of_cons-eq same) in
    (ap₂ String.◌∷◌ (head-eq_of_cons-eq same) ih.0, ih.1)

no_nul-code_text : (c : DiagnosticCode) → no_nul (code_text c) ≡ true
unfolding no_nul code_text
no_nul-code_text contract_not_an_object = refl
no_nul-code_text _ = refl

-- The severity is the registered one, and neither reference nor pointer holds a NUL character.
pub record IsRegistered (d : Diagnostic) : Type 0 where
  pub registered : d.severity ≡ (diagnostic_codes d.code).severity
  pub plain_ref : no_nul (get_or d.ref "") ≡ true
  pub plain_path : no_nul (get_or d.path "") ≡ true

abbrev rest_of_key : Diagnostic → String
rest_of_key d = get_or d.path "" <> separator <> code_text d.code <> separator <> d.message

parts :
    (a b s t : String)
    → a <> separator <> s ≡ b <> separator <> t
    → a <> String.◌∷◌ nul s ≡ b <> String.◌∷◌ nul t
parts a b s t h = rw (← separator-append s, ← separator-append t) h

same_key-same_code :
    (d e : Diagnostic) → IsRegistered d → IsRegistered e → key d ≡ key e → d.code ≡ e.code
unfolding key
same_key-same_code d e p q h =
    let first = split_key _ _ _ _ p.plain_ref q.plain_ref (parts _ _ _ _ h) in
    let second = split_key _ _ _ _ p.plain_path q.plain_path (parts _ _ _ _ first.1) in
    let third =
      split_key _ _ _ _ (no_nul-code_text d.code) (no_nul-code_text e.code)
        (parts _ _ _ _ second.1) in
    code_text_injective d.code e.code third.0

duplicate_of_kept :
    (kept : List Diagnostic) (d : Diagnostic)
    → All IsRegistered kept
    → IsRegistered d
    → includes (map key kept) (key d) ≡ true
    → is_error d ≡ true
    → has_errors kept ≡ true
duplicate_of_kept [] d h r m e = cc
duplicate_of_kept (k ∷ kept) d (p, h) r m e = elim (Bool-cases (key k == key d)) [
  | inl same ↦
      let code = same_key-same_code k d p r ((eq_iff (key k) (key d)).0 same) in
      let severity : k.severity ≡ d.severity =
        p.registered ∙ ap (λ c. (diagnostic_codes c).severity) code ∙ sym r.registered in
      ground (arith, severity)
  | inr other ↦ ground (arith, duplicate_of_kept kept d h r)
]

has_errors-unique_from :
    (kept ds : List Diagnostic)
    → All IsRegistered kept
    → All IsRegistered ds
    → (has_errors kept || has_errors (unique_from (map key kept) ds))
      ≡ (has_errors kept || has_errors ds)
unfolding unique_from
has_errors-unique_from kept [] h k = refl
has_errors-unique_from kept (d ∷ ds) h (r, k) =
    elim (Bool-cases (includes (map key kept) (key d))) [
      | inl old ↦
          rw old
            (ground (arith, has_errors-unique_from kept ds h k, duplicate_of_kept kept d h r old))
      | inr new ↦ rw new (ground (arith, has_errors-unique_from (d ∷ kept) ds (r, h) k))
    ]

-- When every diagnostic has the severity that is registered for its code, and neither its
-- reference nor its path holds a NUL character, removing duplicates and sorting does not change
-- whether there are errors.
pub has_errors-sort_diagnostics :
    (items : List Diagnostic)
    → All IsRegistered items
    → has_errors (sort_diagnostics items) ≡ has_errors items
unfolding sort_diagnostics
has_errors-sort_diagnostics items h =
    any-sort compare_diagnostics is_error (unique_from [] items)
    ∙ has_errors-unique_from [] items tt h

-- `diagnostic` registers what it builds.
pub diagnostic-IsRegistered :
    (code : DiagnosticCode) (message : String) (input : DiagnosticInput)
    → no_nul (get_or input.ref "") ≡ true
    → no_nul (get_or input.path "") ≡ true
    → IsRegistered (diagnostic code message input)
unfolding diagnostic
diagnostic-IsRegistered code message input p q = record {
  registered = refl;
  plain_ref = p;
  plain_path = q;
}
