-- ===== src/Base/Patterns.antt =====
-- The regular expressions of the program that match words: as functions on texts.
use Prim.Native.Nat.{ℕ}
use Prim.Native.Char.{code}
use Prim.Native.String.{String}
use mathlib.Core.Bool.{Bool, true, false, not, ◌&&◌, ◌||◌}
use enistere_foundation.Base.Tests.{leb, eqb, if◌then◌else◌}

-- `[0-9]`, `[a-z]`, `[A-Z]`
abbrev pub is_digit : ℕ → Bool
is_digit c = leb b'0' c && leb c b'9'

abbrev pub is_small : ℕ → Bool
is_small c = leb b'a' c && leb c b'z'

abbrev pub is_capital : ℕ → Bool
is_capital c = leb b'A' c && leb c b'Z'

module _ (next separator : ℕ → Bool) where
  -- `next*(?:separator next+)*$`, with the test that the last character was a separator
  unfoldable pub words : Bool → String → Bool
  words gap String.[] = not gap
  words gap (String.◌∷◌ c s) =
      let more = words false s in
      let after = words true s in
      if next (code c) then more else separator (code c) && not gap && after

  -- `^start next*(?:separator next+)*$`
  unfoldable pub is_words : (ℕ → Bool) → String → Bool
  unfolding words
  is_words start String.[] = false
  is_words start (String.◌∷◌ c s) = start (code c) && words false s

-- `^[a-z][a-z0-9]*(?:[-.][a-z0-9]+)*$`
unfoldable pub is_identifier : String → Bool
unfolding is_words
is_identifier = is_words (λ c. is_small c || is_digit c) (λ c. eqb c b'-' || eqb c b'.') is_small

-- `^[A-Za-z][A-Za-z0-9]*(?:[-_.][A-Za-z0-9]+)*$`
unfoldable pub is_item : String → Bool
unfolding is_words
is_item =
    is_words (λ c. is_small c || is_capital c || is_digit c)
      (λ c. eqb c b'-' || eqb c b'_' || eqb c b'.') (λ c. is_small c || is_capital c)
