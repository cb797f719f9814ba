-- ===== src/Base/Lists/Any.antt =====
-- `some` over the lists that the array methods make.
use mathlib.Core.Path.{◌≡◌, refl, ap, ap₂, ◌∙◌}
use mathlib.Core.Bool.{Bool, true, false, not, ◌&&◌, ◌||◌}
use mathlib.Core.List.{List, [], ◌∷◌, ◌++◌, map}
use mathlib.Core.Logic.{inl, inr}
use native.Mathlib.Omega.{arith}
use enistere_foundation.Base.Tests.{Bool-cases}
use enistere_foundation.Base.Lists.{any, keep, flat_map, is_empty, any-append, Any, All}

module _ {ℓ} {A : Type ℓ} where
  pub any-ext : (p q : A → Bool) (xs : List A) → ((x : A) → p x ≡ q x) → any p xs ≡ any q xs
  any-ext p q [] h = refl
  any-ext p q (x ∷ xs) h = ap₂ (λ a b. a || b) (h x) (any-ext p q xs h)

  pub any-keep : (p q : A → Bool) (xs : List A) → any p (keep q xs) ≡ any (λ x. q x && p x) xs
  any-keep p q [] = refl
  any-keep p q (x ∷ xs) = ground (arith, any-keep p q xs)

  pub any_never : (p : A → Bool) (xs : List A) → ((x : A) → p x ≡ false) → any p xs ≡ false
  any_never p [] h = refl
  any_never p (x ∷ xs) h = ground (arith, h x, any_never p xs h)

  pub Any-mono : (P Q : A → Type 0) (xs : List A) → ((x : A) → P x → Q x) → Any P xs → Any Q xs
  Any-mono P Q [] h a = elim a [ ]
  Any-mono P Q (x ∷ xs) h (inl p) = inl (h x p)
  Any-mono P Q (x ∷ xs) h (inr a) = inr (Any-mono P Q xs h a)

  pub any_left : (p : A → Bool) (xs ys : List A) → any p xs ≡ true → any p (xs ++ ys) ≡ true
  any_left p xs ys h = ground (arith, h, any-append p xs ys)

  pub any_right : (p : A → Bool) (xs ys : List A) → any p ys ≡ true → any p (xs ++ ys) ≡ true
  any_right p xs ys h = ground (arith, h, any-append p xs ys)

  pub All-mono : (P Q : A → Type 0) (xs : List A) → ((x : A) → P x → Q x) → All P xs → All Q xs
  All-mono P Q [] h a = tt
  All-mono P Q (x ∷ xs) h (p, a) = (h x p, All-mono P Q xs h a)

  -- The test and the proposition.
  pub Any-of_any : (p : A → Bool) (xs : List A) → any p xs ≡ true → Any (λ x. p x ≡ true) xs
  Any-of_any p [] h = cc
  Any-of_any p (x ∷ xs) h = elim (Bool-cases (p x)) [
    | inl here ↦ inl here
    | inr away ↦ inr (Any-of_any p xs (ground (arith, h, away)))
  ]

  pub any-of_Any : (p : A → Bool) (xs : List A) → Any (λ x. p x ≡ true) xs → any p xs ≡ true
  any-of_Any p [] a = elim a [ ]
  any-of_Any p (x ∷ xs) (inl here) = ground (arith, here)
  any-of_Any p (x ∷ xs) (inr later) = ground (arith, any-of_Any p xs later)

  -- A test that does not look at the element.
  pub any_both : (p : A → Bool) (b : Bool) (xs : List A) → any (λ x. p x && b) xs ≡ (any p xs && b)
  any_both p b [] = refl
  any_both p b (x ∷ xs) = ground (arith, any_both p b xs)

  pub is_empty-keep : (p : A → Bool) (xs : List A) → is_empty (keep p xs) ≡ not (any p xs)
  is_empty-keep p [] = refl
  is_empty-keep p (x ∷ xs) = ground (arith, is_empty-keep p xs)

module _ {ℓ κ} {A : Type ℓ} {B : Type κ} where
  pub any-map : (p : B → Bool) (f : A → B) (xs : List A) → any p (map f xs) ≡ any (λ x. p (f x)) xs
  any-map p f [] = refl
  any-map p f (x ∷ xs) = ap (λ b. p (f x) || b) (any-map p f xs)

  pub any-flat_map :
      (p : B → Bool) (f : A → List B) (xs : List A)
      → any p (flat_map f xs) ≡ any (λ x. any p (f x)) xs
  any-flat_map p f [] = refl
  any-flat_map p f (x ∷ xs) =
      any-append p (f x) (flat_map f xs) ∙ ap (λ b. any p (f x) || b) (any-flat_map p f xs)

  pub is_empty-map : (f : A → B) (xs : List A) → is_empty (map f xs) ≡ is_empty xs
  is_empty-map f [] = refl
  is_empty-map f (x ∷ xs) = refl
