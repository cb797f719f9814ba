-- ===== src/Contracts/Checks.antt =====
-- kernel/contracts/src/primitives/checks.ts: the checks that several contracts share.
-- `date_parse` is the host's `Date.parse`, none for NaN.
pub mod Laws
use Prim.Native.Char.{code}
use enistere_foundation.Base.{
  ◌>>=◌, String, ℕ, zero, suc, ◌+◌, ◌*◌, ◌-◌, ◌%◌, Bool, false, ◌&&◌, ◌||◌, List, [], ◌∷◌, Option,
  none, some, ◌<>◌, decimal, includes, flat_map_from, ltb, leb, eqb, not, if◌then◌else◌,
}
use enistere_foundation.Base.Dict.{get, put}
use enistere_foundation.Contracts.Diagnostics.{Diagnostic, DiagnosticCode, diagnostic, located}
use enistere_foundation.Contracts.Diagnostics.Codes.{
  contract_invalid_timestamp, contract_duplicate_item_id,
}

-- `[0-9]{n}`, with the number so far, and what follows it.
read_digits : ℕ → ℕ → String → Option (ℕ × String)
read_digits zero n s = some (n, s)
read_digits (suc k) n String.[] = none
read_digits (suc k) n (String.◌∷◌ c s) =
    let next = read_digits k (n * 10 + (code c - b'0')) s in
    if leb b'0' (code c) && leb (code c) b'9' then next else none

read_char : ℕ → String → Option String
read_char k String.[] = none
read_char k (String.◌∷◌ c s) = if eqb (code c) k then some s else none

-- What the pattern captures.
pub record Stamp : Type 0 where
  pub year : ℕ
  pub month : ℕ
  pub day : ℕ
  pub hour : ℕ
  pub minute : ℕ
  pub second : ℕ

read_stamp : String → Option Stamp
unfolding read_digits read_char
read_stamp s0 = do
  (year, s1) ← read_digits 4 0 s0
  s2 ← read_char b'-' s1
  (month, s3) ← read_digits 2 0 s2
  s4 ← read_char b'-' s3
  (day, s5) ← read_digits 2 0 s4
  s6 ← read_char b'T' s5
  (hour, s7) ← read_digits 2 0 s6
  s8 ← read_char b':' s7
  (minute, s9) ← read_digits 2 0 s8
  s10 ← read_char b':' s9
  (second, _) ← read_digits 2 0 s10
  some (record {
    year = year;
    month = month;
    day = day;
    hour = hour;
    minute = minute;
    second = second;
  })

-- The year that `Date.UTC` takes: the first hundred stand for those of the twentieth century.
abbrev utc_year : ℕ → ℕ
utc_year y = if ltb y 100 then 1900 + y else y

abbrev is_leap : ℕ → Bool
is_leap y = eqb (y % 4) 0 && not (eqb (y % 100) 0) || eqb (y % 400) 0

abbrev days_in_month : ℕ → ℕ → ℕ
days_in_month y m =
    if eqb m 2
    then (if is_leap y then 29 else 28)
    else if eqb m 4 || eqb m 6 || eqb m 9 || eqb m 11
    then 30
    else 31

-- `Date.UTC(year, month - 1, day)` has that month and that day again.
abbrev is_calendar_day : Stamp → Bool
is_calendar_day t =
    leb 1 t.month
    && leb t.month 12
    && leb 1 t.day
    && leb t.day (days_in_month (utc_year t.year) t.month)

abbrev is_real_stamp : Stamp → Bool
is_real_stamp t = is_calendar_day t && ltb t.hour 24 && ltb t.minute 60 && ltb t.second 60

abbrev is_real : Option Stamp → Option ℕ → Bool
is_real none instant = false
is_real (some t) none = false
is_real (some t) (some instant) = is_real_stamp t

module _ (date_parse : String → Option ℕ) where
  unfoldable pub is_real_timestamp : String → Bool
  unfolding read_stamp
  is_real_timestamp value = is_real (read_stamp value) (date_parse value)

  unfoldable pub timestamp : Option String → String → String → List Diagnostic
  unfolding is_real_timestamp diagnostic
  timestamp none path ref = []
  timestamp (some value) path ref =
      if is_real_timestamp value
      then []
      else diagnostic contract_invalid_timestamp
          ("'" <> value <> "' is not a real RFC 3339 instant") (located ref path)
        ∷ []

-- `if (first === undefined)`: go on with the identifier, or report it.
abbrev pub declared_twice :
    Option ℕ → String → ℕ → String → String → List Diagnostic → List Diagnostic → List Diagnostic
declared_twice none id index path ref rest fresh = fresh
declared_twice (some first) id index path ref rest fresh =
    diagnostic contract_duplicate_item_id
      ("'"
        <> id
        <> "' is declared twice (indexes "
        <> decimal first
        <> " and "
        <> decimal index
        <> ")")
      (located ref (path <> "/" <> decimal index <> "/id"))
    ∷ rest

-- The loop of `uniqueIds`, with the first index of the identifiers so far.
unfoldable pub unique_loop : List (String × ℕ) → ℕ → String → String → List String → List Diagnostic
unfolding get diagnostic decimal
unique_loop seen index path ref [] = []
unique_loop seen index path ref (id ∷ ids) =
    let fresh = unique_loop (put seen id index) (suc index) path ref ids in
    let rest = unique_loop seen (suc index) path ref ids in
    declared_twice (get seen id) id index path ref rest fresh

-- The identifiers of the items, in their order.
unfoldable pub unique_ids : List String → String → String → List Diagnostic
unfolding unique_loop put
unique_ids ids path ref = unique_loop [] 0 path ref ids

abbrev pub unknown_id :
    List String → String → String → DiagnosticCode → String → ℕ → String → List Diagnostic
unknown_id known path ref code label index value =
    if includes known value
    then []
    else diagnostic code ("unknown " <> label <> " '" <> value <> "'")
        (located ref (path <> "/" <> decimal index))
      ∷ []

unfoldable pub known_ids :
    List String → List String → String → String → DiagnosticCode → String → List Diagnostic
unfolding diagnostic decimal
known_ids values known path ref code label =
    flat_map_from 0 (unknown_id known path ref code label) values
