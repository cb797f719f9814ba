-- ===== src/Base/Text/Unique.antt =====
-- `[...new Set(values)].sort()`: the texts without repetitions, in their order.
use mathlib.Core.Path.{◌≡◌, refl, sym, ap, ◌∙◌}
use mathlib.Core.Bool.{true, ◌||◌}
use mathlib.Core.Logic.{inl, inr}
use mathlib.Core.List.{List, [], ◌∷◌}
use native.Mathlib.Omega.{arith}
use text.Mathlib.Text.{◌==◌}
use text.Mathlib.TextEquality.{eq_iff}
use Prim.Native.String.{String}
use enistere_foundation.Base.Tests.{Bool-cases, if◌then◌else◌}
use enistere_foundation.Base.Text.{includes, compare_text}
use enistere_foundation.Base.Lists.{any}
use enistere_foundation.Base.Sorting.{sort}
use enistere_foundation.Base.Sorting.Order.{any-sort}

-- `[...new Set(values)]`, after the texts seen
unfoldable pub distinct_from : List String → List String → List String
distinct_from seen [] = []
distinct_from seen (t ∷ ts) =
    let rest = distinct_from seen ts in
    let fresh = t ∷ distinct_from (t ∷ seen) ts in if includes seen t then rest else fresh

unfoldable pub sorted : List String → List String
unfolding distinct_from sort compare_text
sorted ts = sort compare_text (distinct_from [] ts)

includes-distinct_from :
    (seen ts : List String) (t : String)
    → (includes seen t || includes (distinct_from seen ts) t) ≡ (includes seen t || includes ts t)
unfolding distinct_from
includes-distinct_from seen [] t = refl
includes-distinct_from seen (u ∷ ts) t = elim (Bool-cases (includes seen u)) [
  | inl old ↦ elim (Bool-cases (u == t)) [
    | inl same ↦
        let known : includes seen t ≡ true = ap (includes seen) (sym ((eq_iff u t).0 same)) ∙ old in
        rw old (ground (arith, known))
    | inr other ↦ rw old (ground (arith, includes-distinct_from seen ts t, other))
  ]
  | inr new ↦ rw new (ground (arith, includes-distinct_from (u ∷ seen) ts t))
]

pub any-includes : (ts : List String) (t : String) → any (λ u. u == t) ts ≡ includes ts t
any-includes [] t = refl
any-includes (u ∷ ts) t = ap (λ b. u == t || b) (any-includes ts t)

-- Exactly the texts of the list.
pub includes-sorted : (ts : List String) (t : String) → includes (sorted ts) t ≡ includes ts t
unfolding sorted
includes-sorted ts t =
    sym (any-includes (sort compare_text (distinct_from [] ts)) t)
    ∙ any-sort compare_text (λ u. u == t) (distinct_from [] ts)
    ∙ any-includes (distinct_from [] ts) t
    ∙ includes-distinct_from [] ts t
