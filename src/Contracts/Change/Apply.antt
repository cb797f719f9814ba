-- ===== src/Contracts/Change/Apply.antt =====
-- kernel/contracts/src/contracts/change-request.ts: the changes of a request, applied to JSON data.
-- `to_index` is the host's `Number` on a segment, when it gives a natural number. A member that an
-- object has from its prototype only is none of its members here.
pub mod Refused
pub mod Undo
use Prim.Native.Char.{code}
use Prim.Native.String
use enistere_foundation.Base.{
  String, ℕ, zero, suc, Bool, true, false, not, ◌&&◌, ◌||◌, List, [], ◌∷◌, Option, none, some,
  ◌>>=◌, get_or, is_some, decimal, leb, ltb, eqb, ◌<>◌, ◌==◌, if◌then◌else◌,
}
use enistere_foundation.Base.Patterns.{is_digit}
use enistere_foundation.Base.Text.Decimal.{every, leads, read_digits}
use enistere_foundation.Contracts.Json.{
  Json, array, object, unsupported, undefined, Items, nil, item, Members, end, member,
}
use enistere_foundation.Contracts.Types.Change.{ChangeOp, add, replace, remove, Change}

-- `path.split('/')`
abbrev push : String → List String → List String
push c [] = c ∷ []
push c (s ∷ ss) = (c <> s) ∷ ss

unfoldable split_path : String → List String
split_path String.[] = "" ∷ []
split_path (String.◌∷◌ c s) =
    let rest = split_path s in if eqb (code c) b'/' then "" ∷ rest else push (String.◌∷◌ c "") rest

-- `segment.replaceAll('~…', …)`, for one digit after the tilde
unfoldable replace_all : ℕ → String → String → String
replace_all mark by String.[] = ""
replace_all mark by (String.◌∷◌ c String.[]) = String.◌∷◌ c ""
replace_all mark by (String.◌∷◌ c (String.◌∷◌ d s)) =
    let after = replace_all mark by s in
    let rest = replace_all mark by (String.◌∷◌ d s) in
    if eqb (code c) b'~' && eqb (code d) mark then by <> after else String.◌∷◌ c rest

abbrev decode_segments : List String → List String
decode_segments [] = []
decode_segments (s ∷ ss) = replace_all b'0' "~" (replace_all b'1' "/" s) ∷ decode_segments ss

abbrev tail : List String → List String
tail [] = []
tail (s ∷ ss) = ss

unfoldable pub decode_pointer : String → List String
unfolding split_path replace_all
decode_pointer path = decode_segments (tail (split_path path))

-- An array.
abbrev pub size : Items → ℕ
size nil = 0
size (item v vs) = suc (size vs)

abbrev pub item_at : Items → ℕ → Option Json
item_at nil n = none
item_at (item v vs) zero = some v
item_at (item v vs) (suc n) = item_at vs n

abbrev pub set_item : Items → ℕ → Json → Items
set_item nil n w = nil
set_item (item v vs) zero w = item w vs
set_item (item v vs) (suc n) w = item v (set_item vs n w)

-- `splice(n, 0, w)`, `splice(n, 1)`
abbrev pub insert_item : Items → ℕ → Json → Items
insert_item nil n w = item w nil
insert_item (item v vs) zero w = item w (item v vs)
insert_item (item v vs) (suc n) w = item v (insert_item vs n w)

abbrev pub remove_item : Items → ℕ → Items
remove_item nil n = nil
remove_item (item v vs) zero = vs
remove_item (item v vs) (suc n) = item v (remove_item vs n)

-- An object.
abbrev pub member_at : Members → String → Option Json
member_at end key = none
member_at (member k v ms) key = if k == key then some v else member_at ms key

abbrev pub set_member : Members → String → Json → Members
set_member end key w = member key w end
set_member (member k v ms) key w =
    let rest = set_member ms key w in if k == key then member k w ms else member k v rest

abbrev pub remove_member : Members → String → Members
remove_member end key = end
remove_member (member k v ms) key =
    let rest = remove_member ms key in if k == key then ms else member k v rest

-- A changed value, or the reason why the change does not apply.
pub data Applied : Type 0 where
  changed : Json → Applied
  failed : String → Applied

abbrev pub then_put : (Json → Json) → Applied → Applied
then_put f (changed v) = changed (f v)
then_put f (failed reason) = failed reason

abbrev pub op_text : ChangeOp → String
op_text add = "ADD"
op_text replace = "REPLACE"
op_text remove = "REMOVE"

-- `/^(0|[1-9][0-9]*)$/`
abbrev pub is_position : String → Bool
is_position s = s == "0" || (leads s && every is_digit s)

abbrev pub no_index : String → String → Applied
no_index last path = failed ("invalid array index '" <> last <> "' at " <> path)

-- `position` and `bound`; `-` names the end.
unfoldable pub change_array : ChangeOp → Json → String → String → Items → Applied
unfolding read_digits
change_array add value path last vs =
    if last == "-"
    then changed (array (insert_item vs (size vs) value))
    else if is_position last && leb (read_digits 0 last) (size vs)
    then changed (array (insert_item vs (read_digits 0 last) value))
    else no_index last path
change_array replace value path last vs =
    if is_position last && ltb (read_digits 0 last) (size vs)
    then changed (array (set_item vs (read_digits 0 last) value))
    else no_index last path
change_array remove value path last vs =
    if is_position last && ltb (read_digits 0 last) (size vs)
    then changed (array (remove_item vs (read_digits 0 last)))
    else no_index last path

unfoldable pub change_object : ChangeOp → Json → String → String → Members → Applied
change_object add value path last ms =
    if is_some (member_at ms last)
    then failed ("ADD on existing member " <> path)
    else changed (object (set_member ms last value))
change_object replace value path last ms =
    if is_some (member_at ms last)
    then changed (object (set_member ms last value))
    else failed ("REPLACE on missing member " <> path)
change_object remove value path last ms =
    if is_some (member_at ms last)
    then changed (object (remove_member ms last))
    else failed ("REMOVE on missing member " <> path)

abbrev pub no_container : String → Applied
no_container path = failed ("no container at " <> path)

module _ (to_index : String → Option ℕ) (op : ChangeOp) (value : Json) (path : String) where
  -- The document is an object, so the last case is that of a parent inside it.
  unfoldable pub change_in : List String → String → Json → Applied
  unfolding change_array change_object
  change_in [] last (array vs) = change_array op value path last vs
  change_in [] last (object ms) = change_object op value path last ms
  change_in (s ∷ ss) last (array vs) = elim (to_index s) [
    | none ↦ no_container path
    | some n ↦ elim (item_at vs n) [
      | none ↦ no_container path
      | some child ↦ then_put (λ w. array (set_item vs n w)) (change_in ss last child)
    ]
  ]
  change_in (s ∷ ss) last (object ms) = elim (member_at ms s) [
    | none ↦ no_container path
    | some child ↦ then_put (λ w. object (set_member ms s w)) (change_in ss last child)
  ]
  change_in ss last v = no_container path

-- The segments but the last, and the last: `undefined` when there is none.
abbrev pub parent_of : List String → List String
parent_of [] = []
parent_of (s ∷ []) = []
parent_of (s ∷ t ∷ ts) = s ∷ parent_of (t ∷ ts)

abbrev pub last_of : List String → String
last_of [] = "undefined"
last_of (s ∷ []) = s
last_of (s ∷ t ∷ ts) = last_of (t ∷ ts)

-- The document, or the index and the reason of the first change that does not apply.
pub data Outcome : Type 0 where
  document : Json → Outcome
  refused : ℕ → String → Outcome

module _ (to_index : String → Option ℕ) where
  unfoldable pub apply_change : Change → Json → Applied
  unfolding change_in decode_pointer
  apply_change c =
      let segments = decode_pointer c.path in
      change_in to_index c.op (get_or c.value (unsupported undefined)) c.path (parent_of segments)
        (last_of segments)

  abbrev pub apply_from : ℕ → List Change → Json → Outcome
  apply_from index [] v = document v
  apply_from index (c ∷ cs) v = elim (apply_change c v) [
    | failed reason ↦ refused index reason
    | changed w ↦ apply_from (suc index) cs w
  ]

  unfoldable pub apply_changes : Json → List Change → Outcome
  unfolding apply_change
  apply_changes v cs = apply_from 0 cs v
