-- ===== src/Contracts/Json.antt =====
-- kernel/contracts/src/primitives/canonical-json.ts: JSON values and their canonical text.
-- A finite number is kept as the text that ECMAScript prints for it, by which JCS identifies it. What
-- is no plain JSON is a value too: an object of another prototype is an `instance` with its own
-- members, and the types that the serialization does not know are `unsupported`.
pub mod Plain
pub mod Stringify
use Prim.Native.Char.{Char, code}
use Prim.Native.String
use enistere_foundation.Base.{
  String, ℕ, suc, ◌-◌, ◌+◌, ◌/◌, ◌%◌, Bool, true, false, List, [], ◌∷◌, ◌<>◌, decimal, join,
  compare_text, eqb, ltb, if◌then◌else◌,
}
use enistere_foundation.Base.Sorting.{sort}
use enistere_foundation.Base.Sorting.Order.{by}

pub data Number : Type 0 where
  finite : String → Number
  nan infinity minus_infinity : Number

pub data Unsupported : Type 0 where
  undefined bigint symbol function : Unsupported

mutual
  pub data Json : Type 0 where
    null : Json
    bool : Bool → Json
    number : Number → Json
    text : String → Json
    array : Items → Json
    object : Members → Json
    instance : Members → Json
    unsupported : Unsupported → Json

  pub data Items : Type 0 where
    nil : Items
    item : Json → Items → Items

  pub data Members : Type 0 where
    end : Members
    member : String → Json → Members → Members

-- `CanonicalJsonError`: its message and its path.
pub data Canonical {ℓ} (A : Type ℓ) : Type ℓ where
  done : A → Canonical A
  refused : String → String → Canonical A

infixl 5 ◌>>=◌
abbrev pub ◌>>=◌ {ℓ κ} : {A : Type ℓ} {B : Type κ} → Canonical A → (A → Canonical B) → Canonical B
done a >>= f = f a
refused message path >>= f = refused message path

-- `JSON.stringify` of a text.
hex : ℕ → String
hex d =
    if eqb d 10
    then "a"
    else if eqb d 11
    then "b"
    else if eqb d 12
    then "c"
    else if eqb d 13
    then "d"
    else if eqb d 14
    then "e"
    else if eqb d 15
    then "f"
    else decimal d

escape_char : Char → String
escape_char c =
    if eqb (code c) 34
    then "\\\""
    else if eqb (code c) 92
    then "\\\\"
    else if eqb (code c) 8
    then "\\b"
    else if eqb (code c) 9
    then "\\t"
    else if eqb (code c) 10
    then "\\n"
    else if eqb (code c) 12
    then "\\f"
    else if eqb (code c) 13
    then "\\r"
    else if ltb (code c) 32
    then "\\u00" <> hex (code c / 16) <> hex (code c % 16)
    else String.◌∷◌ c String.[]

escape_text : String → String
escape_text String.[] = ""
escape_text (String.◌∷◌ c s) = escape_char c <> escape_text s

quote : String → String
quote s = "\"" <> escape_text s <> "\""

-- `segment.replaceAll('~', '~0').replaceAll('/', '~1')`
unfoldable pub escape_pointer : String → String
escape_pointer String.[] = ""
escape_pointer (String.◌∷◌ c s) =
    (if eqb (code c) b'~' then "~0" else if eqb (code c) b'/' then "~1" else String.◌∷◌ c String.[])
    <> escape_pointer s

-- The first error of the members in their sorted order, or all the texts.
sequence : List (String × Canonical String) → Canonical (List String)
sequence [] = done []
sequence ((key, r) ∷ rs) = do
  value ← r
  values ← sequence rs
  done ((quote key <> ":" <> value) ∷ values)

-- `Number.isFinite`
abbrev is_finite : Number → Bool
is_finite (finite t) = true
is_finite _ = false

-- `JSON.stringify` of a number.
abbrev number_text : Number → String
number_text (finite t) = t
number_text _ = "null"

-- `typeof`
abbrev type_of : Unsupported → String
type_of undefined = "undefined"
type_of bigint = "bigint"
type_of symbol = "symbol"
type_of function = "function"

mutual
  unfolding escape_pointer sequence quote escape_text escape_char hex

  serialize : Json → String → Canonical String
  serialize null path = done "null"
  serialize (bool true) path = done "true"
  serialize (bool false) path = done "false"
  serialize (number n) path =
      if is_finite n then done (number_text n) else refused "non-finite number" path
  serialize (text t) path = done (quote t)
  serialize (array vs) path = do
    texts ← serialize_items vs 0 path
    done ("[" <> join "," texts <> "]")
  serialize (object ms) path = do
    texts ← sequence (
        sort (by compare_text (λ (e : String × Canonical String). e.0)) (serialize_members ms path))
    done ("{" <> join "," texts <> "}")
  serialize (instance ms) path = refused "non-plain object" path
  serialize (unsupported u) path = refused ("unsupported " <> type_of u <> " value") path

  serialize_items : Items → ℕ → String → Canonical (List String)
  serialize_items nil index path = done []
  serialize_items (item v vs) index path = do
    value ← serialize v (path <> "/" <> decimal index)
    values ← serialize_items vs (suc index) path
    done (value ∷ values)

  serialize_members : Members → String → List (String × Canonical String)
  serialize_members end path = []
  serialize_members (member k v ms) path =
      (k, serialize v (path <> "/" <> escape_pointer k)) ∷ serialize_members ms path

unfoldable pub canonicalize : Json → Canonical String
unfolding serialize serialize_items serialize_members sort compare_text join decimal
canonicalize value = serialize value ""

abbrev pub array_of : List Json → Items
array_of [] = nil
array_of (v ∷ vs) = item v (array_of vs)

abbrev pub object_of : List (String × Json) → Members
object_of [] = end
object_of ((k, v) ∷ ms) = member k v (object_of ms)

abbrev pub finite_number : String → Json
finite_number t = number (finite t)
