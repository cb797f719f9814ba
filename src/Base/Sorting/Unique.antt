-- ===== src/Base/Sorting/Unique.antt =====
-- Sorting by keys that differ forgets the order of the list.
use Prim.Native.Nat.{ℕ, Ordering, compare, ◌<◌}
use Prim.Native.Char.{Char, char, code, IsScalar}
use Prim.Native.String.{String}
use mathlib.Core.Path.{◌≡◌, refl, sym, ap₂, ◌∙◌}
use mathlib.Core.Logic.{◌≢◌, ◌⊎◌, inl, inr, ∥∥₁_elim}
use mathlib.Core.List.{List, [], ◌∷◌, ◌++◌}
use mathlib.Core.List.{Perm, Permᴰ}
use mathlib.Core.Path.{subst}
use native.Mathlib.Omega.{arith}
use text.Mathlib.TextEquality.{Char-path}
use enistere_foundation.Base.Lists.{All}
use enistere_foundation.Base.Sorting.{insert, sort}
use enistere_foundation.Base.Sorting.Order.{IsOrder}
use enistere_foundation.Base.Text.{code_units, units, compare_units, compare_text}

scalar_range : (c : Char) → (code c < 0xD800) ⊎ ((0xDFFF < code c) × (code c < 0x110000))
scalar_range (char n p) =
    go (compare n 55296) (compare 57343 n) (compare n 1114112) refl refl refl p
  where
    go :
        (o q r : Ordering)
        → compare n 55296 ≡ o
        → compare 57343 n ≡ q
        → compare n 1114112 ≡ r
        → IsScalar n
        → (n < 0xD800) ⊎ ((0xDFFF < n) × (n < 0x110000))
    go Ordering.lt q r e f g s = inl (ground arith)
    go Ordering.eq q r e f g s = inr (ground (arith, e))
    go Ordering.gt Ordering.lt Ordering.lt e f g s = inr (ground arith, ground arith)
    go Ordering.gt Ordering.lt Ordering.eq e f g s = absurd (rw (e, f, g) at s)
    go Ordering.gt Ordering.lt Ordering.gt e f g s = absurd (rw (e, f, g) at s)
    go Ordering.gt Ordering.eq r e f g s = absurd (rw (e, f) at s)
    go Ordering.gt Ordering.gt r e f g s = absurd (rw (e, f) at s)

compare_units-eq : (xs ys : List ℕ) → compare_units xs ys ≡ Ordering.eq → xs ≡ ys
unfolding compare_units
compare_units-eq [] [] h = refl
compare_units-eq [] (y ∷ ys) h = cc
compare_units-eq (x ∷ xs) [] h = cc
compare_units-eq (x ∷ xs) (y ∷ ys) h = ground (arith, compare_units-eq xs ys)

-- The units of a character determine it, and what follows.
code_units_injective :
    (c d : Char) (us vs : List ℕ)
    → code_units c ++ us ≡ code_units d ++ vs
    → (code c ≡ code d) × (us ≡ vs)
unfolding code_units
code_units_injective c d us vs h = elim (scalar_range c) [
  | inl a ↦ elim (scalar_range d) [
    | inl b ↦ ground (arith, h)
    | inr b ↦ ground (arith, h, b.0, b.1)
  ]
  | inr a ↦ elim (scalar_range d) [
    | inl b ↦ ground (arith, h, a.0, a.1)
    | inr b ↦ ground (arith, h, a.0, a.1, b.0, b.1)
  ]
]

code_units-ne-nil : (d : Char) (vs : List ℕ) → [] ≢ code_units d ++ vs
unfolding code_units
code_units-ne-nil d vs h = ground arith

units_injective : (s t : String) → units s ≡ units t → s ≡ t
unfolding units
units_injective String.[] String.[] h = refl
units_injective String.[] (String.◌∷◌ d t) h = absurd (code_units-ne-nil d (units t) h)
units_injective (String.◌∷◌ c s) String.[] h = absurd (code_units-ne-nil c (units s) (sym h))
units_injective (String.◌∷◌ c s) (String.◌∷◌ d t) h =
    let (same, rest) = code_units_injective c d (units s) (units t) h in
    ap₂ String.◌∷◌ (Char-path c d same) (units_injective s t rest)

pub compare_text-eq : (s t : String) → compare_text s t ≡ Ordering.eq → s ≡ t
unfolding compare_text
compare_text-eq s t h = units_injective s t (compare_units-eq (units s) (units t) h)

module _ {ℓ} {A : Type ℓ} (c : A → A → Ordering) (o : IsOrder c) where
  abbrev Apart : A → List A → Type 0
  Apart x = All (λ y. c x y ≢ Ordering.eq)

  -- No two elements compare equal.
  abbrev pub AreApart : List A → Type 0
  AreApart [] = Unit
  AreApart (x ∷ xs) = Apart x xs × AreApart xs

  insert_comm :
      (x y : A) (l : List A)
      → c x y ≢ Ordering.eq
      → insert c x (insert c y l) ≡ insert c y (insert c x l)
  unfolding insert
  insert_comm x y [] d = ground (arith, o.swap x y, d)
  insert_comm x y (z ∷ zs) d = ground (
    arith,
    d,
    insert_comm x y zs d,
    o.swap x y,
    o.swap x z,
    o.swap y z,
    o.trans x z y,
    o.trans y z x,
    o.trans z x y,
    o.trans z y x,
    o.same z x y,
    o.same z y x,
    o.same x z y,
    o.same y z x,
  )

  swap_apart : (x y : A) → c x y ≢ Ordering.eq → c y x ≢ Ordering.eq
  swap_apart x y d e = ground (arith, d, e, o.swap x y)

  Apart-permᴰ : (x : A) {xs ys : List A} → Permᴰ xs ys → Apart x xs → Apart x ys
  Apart-permᴰ x Permᴰ.nil h = tt
  Apart-permᴰ x (Permᴰ.cons e p) (a, h) = (subst (λ z. c x z ≢ Ordering.eq) e a, Apart-permᴰ x p h)
  Apart-permᴰ x (Permᴰ.swap e f) (a, (b, h)) =
      (subst (λ z. c x z ≢ Ordering.eq) f b, (subst (λ z. c x z ≢ Ordering.eq) e a, h))
  Apart-permᴰ x (Permᴰ.trans p q) h = Apart-permᴰ x q (Apart-permᴰ x p h)

  AreApart-permᴰ : {xs ys : List A} → Permᴰ xs ys → AreApart xs → AreApart ys
  AreApart-permᴰ Permᴰ.nil h = tt
  AreApart-permᴰ (Permᴰ.cons {b} {l₁} {l₂} e p) (a, h) =
      (subst (λ z. Apart z l₂) e (Apart-permᴰ _ p a), AreApart-permᴰ p h)
  AreApart-permᴰ (Permᴰ.swap {a} {b} {b' = v} {l} e f) ((d, fa), (fb, h)) = (
    (
      subst (λ z. c z v ≢ Ordering.eq) f (subst (λ z. c b z ≢ Ordering.eq) e (swap_apart a b d)),
      subst (λ z. Apart z l) f fb,
    ),
    (subst (λ z. Apart z l) e fa, h),
  )
  AreApart-permᴰ (Permᴰ.trans p q) h = AreApart-permᴰ q (AreApart-permᴰ p h)

  sort-permᴰ : {xs ys : List A} → Permᴰ xs ys → AreApart xs → sort c xs ≡ sort c ys
  unfolding sort
  sort-permᴰ Permᴰ.nil h = refl
  sort-permᴰ (Permᴰ.cons e p) (a, h) = ap₂ (insert c) e (sort-permᴰ p h)
  sort-permᴰ (Permᴰ.swap {a} {b} {l} e f) ((d, a'), h) =
      insert_comm a b (sort c l) d ∙ ap₂ (λ u v. insert c u (insert c v (sort c l))) f e
  sort-permᴰ (Permᴰ.trans p q) h = sort-permᴰ p h ∙ sort-permᴰ q (AreApart-permᴰ p h)

  pub sort-perm_eq :
      (A-set : IsSet (List A)) {xs ys : List A} → Perm xs ys → AreApart xs → sort c xs ≡ sort c ys
  sort-perm_eq A-set p h = ∥∥₁_elim p (A-set _ _) (λ q. sort-permᴰ q h)
