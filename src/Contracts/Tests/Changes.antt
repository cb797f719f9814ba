-- ===== src/Contracts/Tests/Changes.antt =====
-- kernel/contracts/src/contracts/change-request.ts on a small document.
use enistere_foundation.Base.{
  String, ℕ, false, List, [], ◌∷◌, Option, none, some, ◌≡◌, ◌==◌, refl, if◌then◌else◌,
}
use enistere_foundation.Base.Text.Decimal.{read_digits}
use enistere_foundation.Contracts.Change.Apply.{
  document, refused, is_position, last_of, decode_pointer, apply_changes,
}
use enistere_foundation.Contracts.Change.Apply.Refused.{IsRefused, apply_changes-refused}
use enistere_foundation.Contracts.Change.Apply.Undo.{addition, removal, apply_changes-removal}
use enistere_foundation.Contracts.Json.{Json, text, array, object, array_of, object_of}

abbrev index_of : String → Option ℕ
index_of s = if is_position s then some (read_digits 0 s) else none

abbrev definition : List Json → Json
definition components = object (
    object_of
      (("spec", object (object_of (("components", array (array_of components)) ∷ []))) ∷ []))

abbrev api : Json
api = object (object_of (("id", text "api") ∷ []))

abbrev named_api : Json
named_api = object (object_of (("id", text "api") ∷ ("na/me", text "API") ∷ []))

abbrev web : Json
web = object (object_of (("id", text "web") ∷ []))

added_name :
    apply_changes index_of
      (definition (api ∷ []))
      (addition "/spec/components/0/na~1me" (some (text "API")) "named" ∷ [])
    ≡ document (definition (named_api ∷ []))
unfolding apply_changes
added_name = refl

name_segment : (last_of (decode_pointer "/spec/components/0/na~1me") == "-") ≡ false
unfolding decode_pointer
name_segment = refl

apply_changes-removal_example :
    apply_changes index_of (definition (api ∷ [])) (
      addition "/spec/components/0/na~1me" (some (text "API")) "named"
      ∷ removal "/spec/components/0/na~1me" "not"
      ∷ [])
    ≡ document (definition (api ∷ []))
apply_changes-removal_example =
    apply_changes-removal index_of (definition (api ∷ [])) (definition (named_api ∷ []))
      "/spec/components/0/na~1me" (some (text "API")) "named" "not" name_segment added_name

appended :
    apply_changes index_of
      (definition (api ∷ []))
      (addition "/spec/components/-" (some web) "grown" ∷ [])
    ≡ document (definition (api ∷ web ∷ []))
unfolding apply_changes
appended = refl

-- The second change has no target.
second_refused :
    apply_changes index_of
      (definition (api ∷ []))
      (removal "/spec/components/0" "gone" ∷ removal "/spec/components/0" "again" ∷ [])
    ≡ refused 1 "invalid array index '0' at /spec/components/0"
unfolding apply_changes
second_refused = refl

apply_changes-refused_example :
    IsRefused index_of
      (definition (api ∷ []))
      (removal "/spec/components/0" "gone" ∷ removal "/spec/components/0" "again" ∷ [])
      1
      "invalid array index '0' at /spec/components/0"
apply_changes-refused_example =
    apply_changes-refused index_of (definition (api ∷ []))
      (removal "/spec/components/0" "gone" ∷ removal "/spec/components/0" "again" ∷ []) 1
      "invalid array index '0' at /spec/components/0" second_refused
