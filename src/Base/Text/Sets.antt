-- ===== src/Base/Text/Sets.antt =====
-- `includes` decides the library's membership.
use Prim.Native.String.{String}
use mathlib.Core.Path.{◌≡◌, refl, sym}
use mathlib.Core.Logic.{◌↔◌, ◌⊎◌, inl, inr}
use mathlib.Core.Logic.Or
use mathlib.Core.Bool.{Bool, true, false, not, ◌&&◌, ◌||◌}
use mathlib.Core.List.{
  List, [], ◌∷◌, Mem, Nodup, Nodup-nil, Nodup-cons, mem-cons, mem-cons_of_mem, not-mem-nil, ◌++◌,
}
use native.Mathlib.Omega.{arith}
use text.Mathlib.Text.{◌==◌}
use text.Mathlib.TextEquality.{eq_iff}
use enistere_foundation.Base.Tests.{Bool-cases}
use mathlib.Core.HLevel.{Discrete, hedberg}
use enistere_foundation.Base.Text.{includes}

Bool-set : IsSet Bool
Bool-set = hlevel

includes_of_mem : (ts : List String) (t : String) → Mem t ts → includes ts t ≡ true
includes_of_mem [] t m = absurd (not-mem-nil m)
includes_of_mem (u ∷ ts) t m =
    Or.elim (Bool-set _ _) (mem-cons.0 m) (λ (e : t ≡ u). ground (arith, eq_iff u t, sym e))
      (λ later. ground (arith, includes_of_mem ts t later))

or-cases : (a b : Bool) → (a || b) ≡ true → (a ≡ true) ⊎ (b ≡ true)
or-cases true b h = inl refl
or-cases false b h = inr h

mem_of_includes : (ts : List String) (t : String) → includes ts t ≡ true → Mem t ts
mem_of_includes [] t h = cc
mem_of_includes (u ∷ ts) t h = elim (or-cases (u == t) (includes ts t) h) [
  | inl here ↦ mem-cons.1 (Or.inl (sym ((eq_iff u t).0 here)))
  | inr later ↦ mem-cons_of_mem u (mem_of_includes ts t later)
]

pub includes_iff : (ts : List String) (t : String) → (includes ts t ≡ true) ↔ Mem t ts
includes_iff ts t = (mem_of_includes ts t, includes_of_mem ts t)

pub includes-append :
    (xs ys : List String) (k : String) → includes (xs ++ ys) k ≡ (includes xs k || includes ys k)
includes-append [] ys k = refl
includes-append (x ∷ xs) ys k = ground (arith, includes-append xs ys k)

-- No text occurs twice.
abbrev pub all_distinct : List String → Bool
all_distinct [] = true
all_distinct (t ∷ ts) = not (includes ts t) && all_distinct ts

pub all_distinct-Nodup : (ts : List String) → all_distinct ts ≡ true → Nodup ts
all_distinct-Nodup [] h = Nodup-nil
all_distinct-Nodup (t ∷ ts) h =
    Nodup-cons.1
      ((λ m. ground (arith, (includes_iff ts t).1 m)), all_distinct-Nodup ts (ground arith))

pub String-discrete : Discrete String
String-discrete s t = elim (Bool-cases (s == t)) [
  | inl e ↦ yes ((eq_iff s t).0 e)
  | inr n ↦ no (λ e. ground (arith, (eq_iff s t).1 e))
]

pub String-set : IsSet String
String-set = hedberg String-discrete
