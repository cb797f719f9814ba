-- ===== src/Base/Sorting/Order.antt =====
-- Comparators that are consistent, and what sorting by one gives.
use Prim.Native.Nat.{ℕ, Ordering, compare}
use mathlib.Core.Path.{◌≡◌, refl, ap, ◌∙◌}
use mathlib.Core.List.{List, [], ◌∷◌, Perm}
use mathlib.Core.List.Perm
use native.Mathlib.Omega.{arith}
use text.Mathlib.Text.{is_lt}
use mathlib.Core.Bool.{Bool, false, ◌||◌}
use mathlib.Core.Logic.{inl, inr}
use enistere_foundation.Base.Tests.{Bool-cases}
use enistere_foundation.Base.Lists.{All, any}
use enistere_foundation.Base.Text.{then_by, compare_units, compare_text, units}
use enistere_foundation.Base.Sorting.{insert, sort}

abbrev pub flip : Ordering → Ordering
flip Ordering.lt = Ordering.gt
flip Ordering.eq = Ordering.eq
flip Ordering.gt = Ordering.lt

pub record IsOrder {ℓ} {A : Type ℓ} (c : A → A → Ordering) : Type ℓ where
  pub swap : (x y : A) → c y x ≡ flip (c x y)
  pub trans : (x y z : A) → c x y ≡ Ordering.lt → c y z ≡ Ordering.lt → c x z ≡ Ordering.lt
  pub same : (x y z : A) → c x y ≡ Ordering.eq → c x z ≡ c y z

-- The order of native numbers, lists of code units, and texts.
compare-swap : (a b : ℕ) → compare b a ≡ flip (compare a b)
compare-swap a b = ground arith

compare_units-swap : (xs ys : List ℕ) → compare_units ys xs ≡ flip (compare_units xs ys)
unfolding compare_units
compare_units-swap [] [] = refl
compare_units-swap [] (y ∷ ys) = refl
compare_units-swap (x ∷ xs) [] = refl
compare_units-swap (x ∷ xs) (y ∷ ys) = ground (arith, compare_units-swap xs ys)

compare_units-same :
    (xs ys zs : List ℕ)
    → compare_units xs ys ≡ Ordering.eq
    → compare_units xs zs ≡ compare_units ys zs
unfolding compare_units
compare_units-same [] [] zs h = refl
compare_units-same [] (y ∷ ys) zs h = cc
compare_units-same (x ∷ xs) [] zs h = cc
compare_units-same (x ∷ xs) (y ∷ ys) [] h = refl
compare_units-same (x ∷ xs) (y ∷ ys) (z ∷ zs) h = ground (arith, compare_units-same xs ys zs)

compare_units_trans :
    (xs ys zs : List ℕ)
    → compare_units xs ys ≡ Ordering.lt
    → compare_units ys zs ≡ Ordering.lt
    → compare_units xs zs ≡ Ordering.lt
unfolding compare_units
compare_units_trans [] [] zs h k = cc
compare_units_trans [] (y ∷ ys) [] h k = cc
compare_units_trans [] (y ∷ ys) (z ∷ zs) h k = refl
compare_units_trans (x ∷ xs) [] zs h k = cc
compare_units_trans (x ∷ xs) (y ∷ ys) [] h k = cc
compare_units_trans (x ∷ xs) (y ∷ ys) (z ∷ zs) h k = ground (arith, compare_units_trans xs ys zs)

pub compare_text-IsOrder : IsOrder compare_text
unfolding compare_text
compare_text-IsOrder = record {
  swap = λ x y. compare_units-swap (units x) (units y);
  trans = λ x y z. compare_units_trans (units x) (units y) (units z);
  same = λ x y z. compare_units-same (units x) (units y) (units z);
}

-- A comparator on a key, and `first || second`.
abbrev pub by {ℓ κ} : {A : Type ℓ} {K : Type κ} → (K → K → Ordering) → (A → K) → A → A → Ordering
by c f x y = c (f x) (f y)

abbrev pub or_by {ℓ} : {A : Type ℓ} → (A → A → Ordering) → (A → A → Ordering) → A → A → Ordering
or_by c d x y = then_by (c x y) (d x y)

pub by-IsOrder {ℓ κ} :
    {A : Type ℓ} {K : Type κ} {c : K → K → Ordering} (f : A → K) → IsOrder c → IsOrder (by c f)
by-IsOrder f o = record {
  swap = λ x y. o.swap (f x) (f y);
  trans = λ x y z. o.trans (f x) (f y) (f z);
  same = λ x y z. o.same (f x) (f y) (f z);
}

module _ {ℓ} {A : Type ℓ} {c d : A → A → Ordering} (p : IsOrder c) (q : IsOrder d) where
  or_by-swap : (x y : A) → or_by c d y x ≡ flip (or_by c d x y)
  or_by-swap x y = ground (arith, p.swap x y, q.swap x y)

  or_by-same : (x y z : A) → or_by c d x y ≡ Ordering.eq → or_by c d x z ≡ or_by c d y z
  or_by-same x y z h = ground (arith, p.same x y z, q.same x y z)

  or_by_trans :
      (x y z : A)
      → or_by c d x y ≡ Ordering.lt
      → or_by c d y z ≡ Ordering.lt
      → or_by c d x z ≡ Ordering.lt
  or_by_trans x y z h k = ground (
    arith,
    p.trans x y z,
    q.trans x y z,
    p.same x y z,
    p.same y z x,
    p.same z y x,
    p.swap x y,
    p.swap y z,
    p.swap x z,
    p.swap z x,
    p.swap z y,
    p.swap y x,
  )

  pub or_by-IsOrder : IsOrder (or_by c d)
  or_by-IsOrder = record { swap = or_by-swap; trans = or_by_trans; same = or_by-same }

-- No later element is smaller than an earlier one.
abbrev pub IsSorted {ℓ} : {A : Type ℓ} → (A → A → Ordering) → List A → Type 0
IsSorted c [] = Unit
IsSorted c (x ∷ xs) = All (λ y. is_lt (c y x) ≡ false) xs × IsSorted c xs

module _ {ℓ} {A : Type ℓ} (c : A → A → Ordering) (p : A → Bool) where
  any-insert : (x : A) (ys : List A) → any p (insert c x ys) ≡ (p x || any p ys)
  unfolding insert
  any-insert x [] = refl
  any-insert x (y ∷ ys) = elim (Bool-cases (is_lt (c y x))) [
    | inl e ↦ rw e (ground (arith, any-insert x ys))
    | inr e ↦ rw e
  ]

  pub any-sort : (xs : List A) → any p (sort c xs) ≡ any p xs
  unfolding sort
  any-sort [] = refl
  any-sort (x ∷ xs) = any-insert x (sort c xs) ∙ ap (λ b. p x || b) (any-sort xs)

module _ {ℓ} {A : Type ℓ} (c : A → A → Ordering) where
  pub insert-All {κ} :
      (P : A → Type κ) (x : A) (ys : List A) → P x → All P ys → All P (insert c x ys)
  unfolding insert
  insert-All P x [] p h = (p, tt)
  insert-All P x (y ∷ ys) p h = elim (Bool-cases (is_lt (c y x))) [
    | inl e ↦ rw e (h.0, insert-All P x ys p h.1)
    | inr e ↦ rw e (p, h)
  ]

  -- What holds of every element holds of every element of the sorted list.
  pub sort-All {κ} : (P : A → Type κ) (xs : List A) → All P xs → All P (sort c xs)
  unfolding sort
  sort-All P [] h = tt
  sort-All P (x ∷ xs) (p, h) = insert-All P x (sort c xs) p (sort-All P xs h)

module _ {ℓ} {A : Type ℓ} {c : A → A → Ordering} (o : IsOrder c) where
  not_lt_trans : (x y z : A) → is_lt (c y x) ≡ false → is_lt (c z y) ≡ false → is_lt (c z x) ≡ false
  not_lt_trans x y z h k = ground (
    arith,
    o.swap x y,
    o.swap y z,
    o.swap z x,
    o.same x y z,
    o.same y z x,
    o.trans x y z,
    o.same z y x,
    o.trans z x y,
    o.trans y z x,
  )

  not_lt_All :
      (x y : A) (ys : List A)
      → is_lt (c y x) ≡ false
      → All (λ z. is_lt (c z y) ≡ false) ys
      → All (λ z. is_lt (c z x) ≡ false) ys
  not_lt_All x y [] h k = tt
  not_lt_All x y (z ∷ ys) h (k, ks) = (not_lt_trans x y z h k, not_lt_All x y ys h ks)

  insert-IsSorted : (x : A) (ys : List A) → IsSorted c ys → IsSorted c (insert c x ys)
  unfolding insert
  insert-IsSorted x [] h = (tt, tt)
  insert-IsSorted x (y ∷ ys) h = elim (Bool-cases (is_lt (c y x))) [
    | inl e ↦ rw e (
      insert-All c (λ z. is_lt (c z y) ≡ false) x ys (ground (arith, o.swap x y)) h.0,
      insert-IsSorted x ys h.1,
    )
    | inr e ↦ rw e ((e, not_lt_All x y ys e h.0), h)
  ]

  -- Sorting by a consistent comparator sorts.
  pub sort-IsSorted : (xs : List A) → IsSorted c (sort c xs)
  unfolding sort
  sort-IsSorted [] = tt
  sort-IsSorted (x ∷ xs) = insert-IsSorted x (sort c xs) (sort-IsSorted xs)

module _ {ℓ} {A : Type ℓ} (c : A → A → Ordering) where
  insert-perm : (x : A) (ys : List A) → Perm (insert c x ys) (x ∷ ys)
  unfolding insert
  insert-perm x [] = Perm.refl (x ∷ [])
  insert-perm x (y ∷ ys) = elim (Bool-cases (is_lt (c y x))) [
    | inl e ↦ rw e (Perm.trans (Perm.cons y (insert-perm x ys)) (Perm.swap x y ys))
    | inr e ↦ rw e (Perm.refl (x ∷ y ∷ ys))
  ]

  -- Sorting drops and adds nothing.
  pub sort-perm : (xs : List A) → Perm (sort c xs) xs
  unfolding sort
  sort-perm [] = Perm.refl []
  sort-perm (x ∷ xs) = Perm.trans (insert-perm x (sort c xs)) (Perm.cons x (sort-perm xs))
