-- ===== src/Base/Text.antt =====
-- Texts: concatenation, numbers in template literals, and the order of `<` on JavaScript strings,
-- which compares UTF-16 code units (it differs from code point order above U+FFFF).
pub mod Decimal
pub mod Sets
pub mod Unique
use Prim.Native.Nat.{ℕ, zero, suc, ◌+◌, ◌-◌, ◌/◌, ◌%◌, Ordering, compare}
use Prim.Native.Char.{Char, code}
use Prim.Native.String
use Prim.Native.String.{String}
use mathlib.Core.Path.{◌≡◌, refl}
use mathlib.Core.Bool.{Bool, true, false, ◌||◌}
use mathlib.Core.List.{List, [], ◌∷◌, ◌++◌}
use text.Mathlib.Text.{◌==◌}
use enistere_foundation.Base.Tests.{ltb, eqb, if◌then◌else◌}

infixr 60 ◌<>◌
abbrev pub ◌<>◌ : String → String → String
s <> t = String.◌++◌ s t

abbrev digit : ℕ → String
digit d =
    if eqb d 0
    then "0"
    else if eqb d 1
    then "1"
    else if eqb d 2
    then "2"
    else if eqb d 3
    then "3"
    else if eqb d 4
    then "4"
    else if eqb d 5
    then "5"
    else if eqb d 6
    then "6"
    else if eqb d 7
    then "7"
    else if eqb d 8
    then "8"
    else "9"

decimal_from : ℕ → ℕ → String
decimal_from zero n = ""
decimal_from (suc fuel) n =
    let rest = decimal_from fuel (n / 10) in if ltb n 10 then digit n else rest <> digit (n % 10)

-- `${n}` of a natural number; `n + 1` rounds suffice, since each divides by ten.
unfoldable pub decimal : ℕ → String
unfolding decimal_from
decimal n = decimal_from (n + 1) n

-- `values.join(separator)`
unfoldable pub join : String → List String → String
join separator [] = ""
join separator (t ∷ []) = t
join separator (t ∷ u ∷ ts) = t <> separator <> join separator (u ∷ ts)

-- `values.includes(t)`, `set.has(t)`
abbrev pub includes : List String → String → Bool
includes [] t = false
includes (u ∷ us) t = u == t || includes us t

-- The UTF-16 code units of a text.
unfoldable pub code_units : Char → List ℕ
code_units c =
    if ltb (code c) 0x10000
    then code c ∷ []
    else (0xD800 + (code c - 0x10000) / 0x400) ∷ (0xDC00 + (code c - 0x10000) % 0x400) ∷ []

unfoldable pub units : String → List ℕ
units String.[] = []
units (String.◌∷◌ c s) = code_units c ++ units s

abbrev pub then_by : Ordering → Ordering → Ordering
then_by Ordering.lt r = Ordering.lt
then_by Ordering.eq r = r
then_by Ordering.gt r = Ordering.gt

unfoldable pub compare_units : List ℕ → List ℕ → Ordering
compare_units [] [] = Ordering.eq
compare_units [] (y ∷ ys) = Ordering.lt
compare_units (x ∷ xs) [] = Ordering.gt
compare_units (x ∷ xs) (y ∷ ys) = then_by (compare x y) (compare_units xs ys)

-- `a < b ? -1 : a > b ? 1 : 0`
unfoldable pub compare_text : String → String → Ordering
unfolding units code_units compare_units
compare_text a b = compare_units (units a) (units b)
