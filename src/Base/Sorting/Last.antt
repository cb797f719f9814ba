-- ===== src/Base/Sorting/Last.antt =====
-- The last element of a list sorted by a number.
use Prim.Native.Nat.{ℕ, ◌≤◌, ◌<◌, Ordering, compare}
use mathlib.Core.Path.{◌≡◌, ap}
use mathlib.Core.Logic.{◌⊎◌, inl, inr}
use mathlib.Core.List.{List, [], ◌∷◌}
use mathlib.Core.Option.{Option, none, some}
use native.Mathlib.Omega.{arith}
use text.Mathlib.Text.{is_lt}
use enistere_foundation.Base.Tests.{Bool-cases}
use enistere_foundation.Base.Lists.{All, Any, last?}
use enistere_foundation.Base.Sorting.{insert, sort}
use enistere_foundation.Base.Sorting.Order.{
  IsOrder, by, by-IsOrder, IsSorted, sort-IsSorted, sort-All,
}

pub compare-IsOrder : IsOrder compare
compare-IsOrder = record {
  swap = λ x y. ground arith;
  trans = λ x y z h k. ground arith;
  same = λ x y z h. ground arith;
}

module _ {ℓ} {A : Type ℓ} (c : A → A → Ordering) where
  insert-Any_new : (P : A → Type 0) (x : A) (ys : List A) → P x → Any P (insert c x ys)
  unfolding insert
  insert-Any_new P x [] p = inl p
  insert-Any_new P x (y ∷ ys) p = elim (Bool-cases (is_lt (c y x))) [
    | inl e ↦ rw e (inr (insert-Any_new P x ys p))
    | inr e ↦ rw e (inl p)
  ]

  insert-Any_old : (P : A → Type 0) (x : A) (ys : List A) → Any P ys → Any P (insert c x ys)
  unfolding insert
  insert-Any_old P x [] a = elim a [ ]
  insert-Any_old P x (y ∷ ys) a = elim (Bool-cases (is_lt (c y x))) [
    | inl e ↦ rw e (elim a [ inl p ↦ inl p | inr later ↦ inr (insert-Any_old P x ys later) ])
    | inr e ↦ rw e (inr a)
  ]

  sort-Any : (P : A → Type 0) (xs : List A) → Any P xs → Any P (sort c xs)
  unfolding sort
  sort-Any P [] a = a
  sort-Any P (x ∷ xs) (inl p) = insert-Any_new P x (sort c xs) p
  sort-Any P (x ∷ xs) (inr a) = insert-Any_old P x (sort c xs) (sort-Any P xs a)

  All-insert : (P : A → Type 0) (x : A) (ys : List A) → All P (insert c x ys) → P x × All P ys
  unfolding insert
  All-insert P x [] h = h
  All-insert P x (y ∷ ys) h = elim (Bool-cases (is_lt (c y x))) [
    | inl e ↦ let (p, rest) = rw e at h in let (q, ps) = All-insert P x ys rest in (q, (p, ps))
    | inr e ↦ rw e at h
  ]

  All-sort : (P : A → Type 0) (xs : List A) → All P (sort c xs) → All P xs
  unfolding sort
  All-sort P [] h = tt
  All-sort P (x ∷ xs) h = let (p, rest) = All-insert P x (sort c xs) h in (p, All-sort P xs rest)

module _ {ℓ} {A : Type ℓ} (key : A → ℕ) where
  abbrev pub key_of_last : Option A → ℕ
  key_of_last none = 0
  key_of_last (some x) = key x

  sorted-last :
      (xs : List A) → IsSorted (by compare key) xs → All (λ x. key x ≤ key_of_last (last? xs)) xs
  sorted-last [] h = tt
  sorted-last (x ∷ []) h = (omega arith, tt)
  sorted-last (x ∷ y ∷ ys) ((first, _), h) =
      let rest = sorted-last (y ∷ ys) h in
      let above : key x ≤ key y = ground arith in (omega (arith, above, rest.0), rest)

  -- No element has a greater number than the last one.
  pub sort-last :
      (xs : List A) → All (λ x. key x ≤ key_of_last (last? (sort (by compare key) xs))) xs
  sort-last xs =
      All-sort (by compare key) _ xs
        (sorted-last (sort (by compare key) xs) (sort-IsSorted (by-IsOrder key compare-IsOrder) xs))

module _ {A : Type 0} (key : A → ℕ) where
  sorted-greatest :
      (x : A) (ys : List A)
      → IsSorted (by compare key) ys
      → All (λ y. (y ≡ x) ⊎ (key y < key x)) ys
      → Any (λ y. y ≡ x) ys
      → last? ys ≡ some x
  sorted-greatest x [] s h a = elim a [ ]
  sorted-greatest x (y ∷ []) s h (inl e) = ap some e
  sorted-greatest x (y ∷ []) s h (inr a) = elim a [ ]
  sorted-greatest x (y ∷ z ∷ ys) (f, s) (p, h) (inr a) = sorted-greatest x (z ∷ ys) s h a
  sorted-greatest x (y ∷ z ∷ ys) ((f, _), s) (p, (q, h)) (inl e) =
      let same : z ≡ x = elim q [
        | inl same ↦ same
        | inr less ↦ absurd (ground (arith, ap key e))
      ] in
      sorted-greatest x (z ∷ ys) s (q, h) (inl same)

  -- An element with the greatest number of all is the last one.
  pub sort-greatest :
      (x : A) (xs : List A)
      → All (λ y. (y ≡ x) ⊎ (key y < key x)) xs
      → Any (λ y. y ≡ x) xs
      → last? (sort (by compare key) xs) ≡ some x
  sort-greatest x xs h a =
      sorted-greatest x (sort (by compare key) xs)
        (sort-IsSorted (by-IsOrder key compare-IsOrder) xs) (sort-All (by compare key) _ xs h)
        (sort-Any (by compare key) _ xs a)
