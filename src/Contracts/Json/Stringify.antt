-- ===== src/Contracts/Json/Stringify.antt =====
-- `JSON.stringify`, as the messages of kernel/compiler/src/policy.ts print their values.
use enistere_foundation.Base.{String, true, false, List, [], ◌∷◌, ◌<>◌, join}
use enistere_foundation.Contracts.Json.{
  Json, null, bool, number, text, array, object, instance, unsupported, Items, nil, item, Members,
  end, member, number_text, quote, escape_text, escape_char, hex,
}

mutual
  unfolding quote escape_text escape_char hex join

  -- A value of an unsupported type is `null`, as in an array, and an instance has its own members.
  stringify : Json → String
  stringify null = "null"
  stringify (bool true) = "true"
  stringify (bool false) = "false"
  stringify (number n) = number_text n
  stringify (text t) = quote t
  stringify (array vs) = "[" <> join "," (stringify_items vs) <> "]"
  stringify (object ms) = "{" <> join "," (stringify_members ms) <> "}"
  stringify (instance ms) = "{" <> join "," (stringify_members ms) <> "}"
  stringify (unsupported u) = "null"

  stringify_items : Items → List String
  stringify_items nil = []
  stringify_items (item v vs) = stringify v ∷ stringify_items vs

  -- In the order of the members.
  stringify_members : Members → List String
  stringify_members end = []
  stringify_members (member k v ms) = (quote k <> ":" <> stringify v) ∷ stringify_members ms

unfoldable pub json_stringify : Json → String
unfolding stringify stringify_items stringify_members
json_stringify = stringify
