-- ===== src/Base/Text/Decimal.antt =====
-- The decimal text of a natural number: which characters it has, and how it is read back.
use Prim.Native.Nat.{ℕ, zero, suc, ◌+◌, ◌-◌, ◌*◌, ◌/◌, ◌%◌, ◌<◌}
use Prim.Native.Char.{code}
use Prim.Native.String.{String}
use mathlib.Core.Path.{◌≡◌, refl, ap, ◌∙◌}
use mathlib.Core.Bool.{Bool, true, false, ◌&&◌}
use mathlib.Core.Logic.{inl, inr}
use text.Mathlib.TextLemmas.{nil-append, cons-append}
use native.Mathlib.Omega.{arith}
use enistere_foundation.Base.Tests.{ltb, leb, Bool-cases}
use enistere_foundation.Base.Patterns.{is_digit}
use enistere_foundation.Base.Text.{◌<>◌, digit, decimal_from, decimal}

-- Every character passes the test.
abbrev pub every : (ℕ → Bool) → String → Bool
every p String.[] = true
every p (String.◌∷◌ c s) = p (code c) && every p s

-- The number that a text of digits stands for, after the digits of `n`.
unfoldable pub read_digits : ℕ → String → ℕ
read_digits n String.[] = n
read_digits n (String.◌∷◌ c s) = read_digits (n * 10 + (code c - b'0')) s

-- `[1-9]` at the start.
abbrev pub leads : String → Bool
leads String.[] = false
leads (String.◌∷◌ c s) = leb b'1' (code c) && leb (code c) b'9'

every-append : (p : ℕ → Bool) (s t : String) → every p (s <> t) ≡ (every p s && every p t)
every-append p String.[] t = ap (every p) (nil-append t)
every-append p (String.◌∷◌ c s) t =
    ap (every p) (cons-append c s t) ∙ ground (arith, every-append p s t)

read_digits-append :
    (n : ℕ) (s t : String) → read_digits n (s <> t) ≡ read_digits (read_digits n s) t
unfolding read_digits
read_digits-append n String.[] t = ap (read_digits n) (nil-append t)
read_digits-append n (String.◌∷◌ c s) t =
    ap (read_digits n) (cons-append c s t) ∙ read_digits-append (n * 10 + (code c - b'0')) s t

digit-cases :
    (P : ℕ → Type 0)
    → P 0
    → P 1
    → P 2
    → P 3
    → P 4
    → P 5
    → P 6
    → P 7
    → P 8
    → P 9
    → (d : ℕ) → d < 10
    → P d
digit-cases P a b c d e f g i j k zero h = a
digit-cases P a b c d e f g i j k (suc zero) h = b
digit-cases P a b c d e f g i j k (suc (suc zero)) h = c
digit-cases P a b c d e f g i j k (suc (suc (suc zero))) h = d
digit-cases P a b c d e f g i j k (suc (suc (suc (suc zero)))) h = e
digit-cases P a b c d e f g i j k (suc (suc (suc (suc (suc zero))))) h = f
digit-cases P a b c d e f g i j k (suc (suc (suc (suc (suc (suc zero)))))) h = g
digit-cases P a b c d e f g i j k (suc (suc (suc (suc (suc (suc (suc zero))))))) h = i
digit-cases P a b c d e f g i j k (suc (suc (suc (suc (suc (suc (suc (suc zero)))))))) h = j
digit-cases P a b c d e f g i j k (suc (suc (suc (suc (suc (suc (suc (suc (suc zero))))))))) h = k
digit-cases P a b c d e f g i j k (suc (suc (suc (suc (suc (suc (suc (suc (suc (suc m)))))))))) h =
    absurd (omega (arith, h))

digit-read : (n d : ℕ) → d < 10 → read_digits n (digit d) ≡ n * 10 + d
unfolding read_digits
digit-read n d h =
    digit-cases (λ d. read_digits n (digit d) ≡ n * 10 + d) refl refl refl refl refl refl refl refl
      refl refl d h

digit-every : (d : ℕ) → d < 10 → every is_digit (digit d) ≡ true
digit-every d h =
    digit-cases (λ d. every is_digit (digit d) ≡ true) refl refl refl refl refl refl refl refl refl
      refl d h

-- More fuel than the number.
decimal_from-read : (fuel n : ℕ) → n < fuel → read_digits 0 (decimal_from fuel n) ≡ n
unfolding read_digits decimal_from
decimal_from-read zero n h = absurd (omega (arith, h))
decimal_from-read (suc fuel) n h = elim (Bool-cases (ltb n 10)) [
  | inl small ↦ rw small (digit-read 0 n (ground (arith, small)) ∙ omega arith)
  | inr large ↦ rw large (
      read_digits-append 0 (decimal_from fuel (n / 10)) (digit (n % 10))
      ∙ ap (λ m. read_digits m (digit (n % 10)))
          (decimal_from-read fuel (n / 10) (ground (arith, h, large)))
      ∙ digit-read (n / 10) (n % 10) (ground arith)
      ∙ ground arith)
]

decimal_from-every : (fuel n : ℕ) → every is_digit (decimal_from fuel n) ≡ true
unfolding decimal_from
decimal_from-every zero n = refl
decimal_from-every (suc fuel) n = elim (Bool-cases (ltb n 10)) [
  | inl small ↦ rw small (digit-every n (ground (arith, small)))
  | inr large ↦ rw large (
      every-append is_digit (decimal_from fuel (n / 10)) (digit (n % 10))
      ∙ ground (arith, decimal_from-every fuel (n / 10), digit-every (n % 10) (ground arith)))
]

pub read_digits-decimal : (n : ℕ) → read_digits 0 (decimal n) ≡ n
unfolding decimal
read_digits-decimal n = decimal_from-read (n + 1) n (omega arith)

pub every-decimal : (n : ℕ) → every is_digit (decimal n) ≡ true
unfolding decimal
every-decimal n = decimal_from-every (n + 1) n

leads-append : (s t : String) → leads s ≡ true → leads (s <> t) ≡ true
leads-append String.[] t h = cc h
leads-append (String.◌∷◌ c s) t h = ap leads (cons-append c s t) ∙ h

digit-leads : (d : ℕ) → 0 < d → d < 10 → leads (digit d) ≡ true
digit-leads d p h =
    digit-cases (λ d. 0 < d → leads (digit d) ≡ true) (λ p. absurd (omega (arith, p))) (λ p. refl)
      (λ p. refl) (λ p. refl) (λ p. refl) (λ p. refl) (λ p. refl) (λ p. refl) (λ p. refl)
      (λ p. refl) d h p

decimal_from-leads : (fuel n : ℕ) → 0 < n → n < fuel → leads (decimal_from fuel n) ≡ true
unfolding decimal_from
decimal_from-leads zero n p h = absurd (omega (arith, h))
decimal_from-leads (suc fuel) n p h = elim (Bool-cases (ltb n 10)) [
  | inl small ↦ rw small (digit-leads n p (ground (arith, small)))
  | inr large ↦ rw large (
      leads-append (decimal_from fuel (n / 10)) (digit (n % 10))
        (decimal_from-leads fuel (n / 10) (ground (arith, large)) (ground (arith, h, large, p))))
]

pub leads-decimal : (n : ℕ) → 0 < n → leads (decimal n) ≡ true
unfolding decimal
leads-decimal n p = decimal_from-leads (n + 1) n p (omega arith)
