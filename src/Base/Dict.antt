-- ===== src/Base/Dict.antt =====
-- A JavaScript `Map` with text keys: entries in insertion order, `set` on a known key in place.
pub mod Entries
pub mod Fresh
use mathlib.Core.Path.{◌≡◌, refl}
use mathlib.Core.Bool.{Bool, true, false, ◌||◌}
use mathlib.Core.List.{List, [], ◌∷◌, ◌++◌, map}
use mathlib.Core.Option.{Option, none, some}
use Prim.Native.String.{String}
use text.Mathlib.Text.{◌==◌}
use text.Mathlib.TextEquality.{eq_iff}
use native.Mathlib.Omega.{arith}
use enistere_foundation.Base.Tests.{if◌then◌else◌, is_some}
use enistere_foundation.Base.Text.{includes}

module _ {ℓ} {V : Type ℓ} where
  unfoldable pub get : List (String × V) → String → Option V
  get [] k = none
  get ((j, v) ∷ m) k = if j == k then some v else get m k

  unfoldable pub put : List (String × V) → String → V → List (String × V)
  put [] k v = (k, v) ∷ []
  put ((j, w) ∷ m) k v = if j == k then (j, v) ∷ m else (j, w) ∷ put m k v

  abbrev pub has : List (String × V) → String → Bool
  has m k = is_some (get m k)

  abbrev pub keys : List (String × V) → List String
  keys = map (λ e. e.0)

  -- `new Map(entries)`: a later entry replaces an earlier one with its key
  unfoldable pub from_entries : List (String × V) → List (String × V) → List (String × V)
  from_entries m [] = m
  from_entries m ((k, v) ∷ entries) = from_entries (put m k v) entries

  pub get-put :
      (m : List (String × V)) (k j : String) (v : V)
      → get (put m k v) j ≡ (if k == j then some v else get m j)
  unfolding get put
  get-put [] k j v = refl
  get-put ((i, w) ∷ m) k j v = ground (arith, eq_iff k j, eq_iff i k, eq_iff i j, get-put m k j v)

  pub put_new :
      (m : List (String × V)) (k : String) (v : V) → has m k ≡ false → put m k v ≡ m ++ (k, v) ∷ []
  unfolding get put
  put_new [] k v h = refl
  put_new ((j, w) ∷ m) k v h = ground (arith, put_new m k v)

  pub has-keys : (m : List (String × V)) (k : String) → has m k ≡ includes (keys m) k
  unfolding get
  has-keys [] k = refl
  has-keys ((j, w) ∷ m) k = ground (arith, has-keys m k)
