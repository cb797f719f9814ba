-- ===== src/Base/Sorting.antt =====
-- `array.sort(comparator)`: stable, so an insertion sort that keeps equal elements in order.
pub mod Order
pub mod Last
pub mod Unique
use Prim.Native.Nat.{Ordering}
use mathlib.Core.List.{List, [], ◌∷◌}
use enistere_foundation.Base.Tests.{if◌then◌else◌}
use text.Mathlib.Text.{is_lt}

module _ {ℓ} {A : Type ℓ} (comparator : A → A → Ordering) where
  unfoldable pub insert : A → List A → List A
  insert x [] = x ∷ []
  insert x (y ∷ ys) = if is_lt (comparator y x) then y ∷ insert x ys else x ∷ y ∷ ys

  unfoldable pub sort : List A → List A
  unfolding insert
  sort [] = []
  sort (x ∷ xs) = insert x (sort xs)
