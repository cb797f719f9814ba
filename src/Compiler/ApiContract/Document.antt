-- ===== src/Compiler/ApiContract/Document.antt =====
-- kernel/compiler/src/api-contract.ts: the OpenAPI document of a contract.
use enistere_foundation.Base.{
  String, Bool, true, false, List, [], ◌∷◌, ◌++◌, Option, none, some, map, keep, is_empty, ◌<>◌,
  if◌then◌else◌,
}
use enistere_foundation.Base.Dict.{get, put, from_entries}
use enistere_foundation.Compiler.DomainIr.{DomainTypeRef, IrField, IrType, IrOperation, DomainIr}
use enistere_foundation.Contracts.Domain.{element_type}
use enistere_foundation.Contracts.Json.{
  Json, bool, finite_number, text, array, object, array_of, object_of,
}
use enistere_foundation.Contracts.Types.Domain.{DomainTypeKind, enum, OperationKind, command, query}

abbrev pub api_contract_projection : String
api_contract_projection = "foundation.enistere.com/api-contract/v1"

abbrev uuid_pattern : String
uuid_pattern = "^[0-9a-fA-F]{8}-[0-9a-fA-F]{4}-[0-9a-fA-F]{4}-[0-9a-fA-F]{4}-[0-9a-fA-F]{12}$"

abbrev date_pattern : String
date_pattern = "^[0-9]{4}-[0-9]{2}-[0-9]{2}$"

abbrev date_time_pattern : String
date_time_pattern =
    "^[0-9]{4}-[0-9]{2}-[0-9]{2}T[0-9]{2}:[0-9]{2}:[0-9]{2}(?:\\.[0-9]+)?(?:Z|[+-][0-9]{2}:[0-9]{2})$"

abbrev decimal_pattern : String
decimal_pattern = "^-?[0-9]+(?:\\.[0-9]+)?$"

-- An object literal.
abbrev pub json : List (String × Json) → Json
json ms = object (object_of ms)

abbrev pub texts_json : List String → Json
texts_json ts = array (array_of (map text ts))

-- `PRIMITIVE_SCHEMAS`
abbrev primitive_schemas : List (String × List (String × Json))
primitive_schemas =
    ("string", ("type", text "string") ∷ [])
    ∷ ("text", ("type", text "string") ∷ [])
    ∷ ("integer", ("type", text "integer") ∷ [])
    ∷ (
      "decimal",
      ("type", text "string") ∷ ("format", text "decimal") ∷ ("pattern", text decimal_pattern) ∷ [],
    )
    ∷ ("boolean", ("type", text "boolean") ∷ [])
    ∷ (
      "date",
      ("type", text "string") ∷ ("format", text "date") ∷ ("pattern", text date_pattern) ∷ [],
    )
    ∷ (
      "datetime",
      ("type", text "string")
          ∷ ("format", text "date-time")
          ∷ ("pattern", text date_time_pattern)
          ∷ [],
    )
    ∷ (
      "uuid",
      ("type", text "string") ∷ ("format", text "uuid") ∷ ("pattern", text uuid_pattern) ∷ [],
    )
    ∷ (
      "file-ref",
      ("type", text "string") ∷ ("format", text "file-ref") ∷ ("minLength", finite_number "1") ∷ [],
    )
    ∷ []

abbrev problem_schema : Json
problem_schema = json (
    ("description", text "Problem Details (RFC 9457).")
    ∷ ("type", text "object")
    ∷ ("required", texts_json ("title" ∷ "status" ∷ []))
    ∷ (
      "properties",
      json (
          ("type", json (("type", text "string") ∷ []))
          ∷ ("title", json (("type", text "string") ∷ []))
          ∷ ("status", json (("type", text "integer") ∷ []))
          ∷ ("detail", json (("type", text "string") ∷ []))
          ∷ ("code", json (("type", text "string") ∷ []))
          ∷ []),
    )
    ∷ [])

-- `{ ...PRIMITIVE_SCHEMAS[primitive] }`: nothing is spread for an unknown one.
abbrev spread : Option (List (String × Json)) → List (String × Json)
spread none = []
spread (some ms) = ms

abbrev item_schema : String → Option String → List (String × Json)
item_schema element none = ("$ref", text ("#/components/schemas/" <> element)) ∷ []
item_schema element (some primitive) = spread (get primitive_schemas primitive)

abbrev pub type_schema : DomainTypeRef → List (String × Json)
type_schema t =
    let item = item_schema (element_type t.expression) t.primitive in
    if t.list then ("type", text "array") ∷ ("items", json item) ∷ [] else item

abbrev field_schema : IrField → Json
field_schema f =
    if f.sensitive
    then json (type_schema f.type ++ ("x-foundation-sensitive", bool true) ∷ [])
    else json (type_schema f.type)

abbrev properties_of : List IrField → List (String × Json)
properties_of fields = from_entries [] (map (λ (f : IrField). (f.name, field_schema f)) fields)

abbrev required_of : List IrField → List (String × Json)
required_of fields =
    let required = map (λ (f : IrField). f.name) (keep (λ f. f.required) fields) in
    if is_empty required then [] else ("required", texts_json required) ∷ []

abbrev object_schema : IrType → Json
object_schema t = json (
    ("type", text "object") ∷ required_of t.fields
    ++ ("properties", json (properties_of t.fields))
      ∷ ("additionalProperties", bool false)
      ∷ ("x-foundation-type", text t.ref)
      ∷ [])

abbrev is_enum : DomainTypeKind → Bool
is_enum enum = true
is_enum _ = false

abbrev schema_of : IrType → Json
schema_of t =
    if is_enum t.kind
    then json (
        ("type", text "string")
        ∷ ("enum", texts_json t.values)
        ∷ ("x-foundation-type", text t.ref)
        ∷ [])
    else object_schema t

abbrev pub schemas : DomainIr → List (String × Json)
schemas d =
    put (from_entries [] (map (λ (t : IrType). (t.id, schema_of t)) d.types)) "Problem"
      problem_schema

abbrev problem : String → Json → Json
problem description schema = json (
    ("description", text description)
    ∷ ("content", json (("application/problem+json", json (("schema", schema) ∷ [])) ∷ []))
    ∷ [])

abbrev problem_ref : Json
problem_ref = json (("$ref", text "#/components/schemas/Problem") ∷ [])

abbrev is_get : OperationKind → Option DomainTypeRef → Bool
is_get query none = true
is_get query (some t) = false
is_get command input = false

abbrev pub operation_path : DomainIr → IrOperation → String
operation_path d o = "/" <> d.bounded_context <> "/" <> o.id

abbrev pub operation_method : IrOperation → String
operation_method o = if is_get o.kind o.input then "get" else "post"

abbrev json_content : DomainTypeRef → Json
json_content t = json (("application/json", json (("schema", json (type_schema t)) ∷ [])) ∷ [])

abbrev done_response : Option DomainTypeRef → Json
done_response none = json (("description", text "Done.") ∷ [])
done_response (some t) = json (("description", text "Done.") ∷ ("content", json_content t) ∷ [])

abbrev input_response : Option DomainTypeRef → List (String × Json)
input_response none = []
input_response (some t) = ("400", problem "The input does not match the contract." problem_ref) ∷ []

abbrev errors_schema : List String → Json
errors_schema errors = json (
    (
      "allOf",
      array (
          array_of (
            problem_ref
            ∷ json (
                ("type", text "object")
                ∷ ("required", texts_json ("code" ∷ []))
                ∷ ("properties", json (("code", json (("enum", texts_json errors) ∷ [])) ∷ []))
                ∷ [])
            ∷ [])),
    )
    ∷ [])

abbrev errors_response : List String → List (String × Json)
errors_response errors =
    if is_empty errors
    then []
    else ("422", problem "A declared domain error." (errors_schema errors)) ∷ []

abbrev responses_of : IrOperation → Json
responses_of o = json (
    (("200", done_response o.output) ∷ input_response o.input)
    ++ errors_response o.errors
    ++ ("501", problem "The operation is not implemented yet by the owning team." problem_ref) ∷ [])

abbrev request_body : Option DomainTypeRef → List (String × Json)
request_body none = []
request_body (some t) =
    ("requestBody", json (("required", bool true) ∷ ("content", json_content t) ∷ [])) ∷ []

abbrev kind_text : OperationKind → String
kind_text command = "COMMAND"
kind_text query = "QUERY"

abbrev pub operation_object : IrOperation → Json
operation_object o = json (
    (("operationId", text o.id)
      ∷ ("x-foundation-operation", text o.ref)
      ∷ ("x-foundation-kind", text (kind_text o.kind))
      ∷ (
        "x-foundation-authorization",
        json (("intent", text o.intent) ∷ ("roles", texts_json o.roles) ∷ []),
      )
      ∷ ("x-foundation-idempotent", bool o.idempotent)
      ∷ ("x-foundation-emits", texts_json o.emits)
      ∷ ("x-foundation-invariants", texts_json o.invariants)
      ∷ request_body o.input)
    ++ ("responses", responses_of o) ∷ [])
