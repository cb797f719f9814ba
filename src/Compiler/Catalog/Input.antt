-- ===== src/Compiler/Catalog/Input.antt =====
-- kernel/compiler/src/catalog.ts: a catalog that is read from data.
pub mod Accepted
use Prim.Native.Char.{code}
use Prim.Native.String
use enistere_foundation.Base.{
  String, ℕ, suc, Bool, true, false, not, ◌&&◌, ◌||◌, List, [], ◌∷◌, ◌++◌, Option, none, some,
  ◌>>=◌, map, keep, all, is_empty, flat_map, flat_map_from, map_from, includes, decimal, join,
  compare_text, eqb, leb, ◌<>◌, ◌==◌, if◌then◌else◌,
}
use enistere_foundation.Base.Patterns.{is_identifier, is_digit, is_small, is_capital}
use enistere_foundation.Base.Sorting.{sort}
use enistere_foundation.Base.Text.Sets.{all_distinct}
use enistere_foundation.Compiler.Catalog.{
  RuntimeAdapterDescriptor, CapabilityProviderDescriptor, ExtensionCatalog, catalog_path,
  catalog_conflicts,
}
use enistere_foundation.Contracts.Diagnostics.{
  Diagnostic, DiagnosticInput, diagnostic, kernel_compiler, sort_diagnostics, has_errors,
}
use enistere_foundation.Contracts.Diagnostics.Codes.{catalog_invalid}
use enistere_foundation.Contracts.Digest.{Result, returned, thrown, digest_of}
use enistere_foundation.Contracts.Json.{
  Json, Items, Members, text, array, object, nil, item, end, member, object_of,
}
use enistere_foundation.Contracts.Refs.{Digest}

-- `value[key]`
abbrev pub field : Members → String → Option Json
field end key = none
field (member k v ms) key = if k == key then some v else field ms key

-- `Object.keys(value)`
abbrev pub keys_of : Members → List String
keys_of end = []
keys_of (member k v ms) = k ∷ keys_of ms

abbrev as_object : Json → Option Members
as_object (object ms) = some ms
as_object _ = none

abbrev as_array : Json → Option Items
as_array (array vs) = some vs
as_array _ = none

abbrev as_text : Json → Option String
as_text (text t) = some t
as_text _ = none

abbrev list_of : Items → List Json
list_of nil = []
list_of (item v vs) = v ∷ list_of vs

-- `\d*`, and what follows it
abbrev skip_digits : String → String
skip_digits String.[] = String.[]
skip_digits (String.◌∷◌ c s) =
    let rest = skip_digits s in if is_digit (code c) then rest else String.◌∷◌ c s

-- `(0|[1-9]\d*)`
abbrev skip_number : String → Option String
skip_number String.[] = none
skip_number (String.◌∷◌ c s) =
    if eqb (code c) b'0' then some s else if is_digit (code c) then some (skip_digits s) else none

abbrev skip_dot : String → Option String
skip_dot String.[] = none
skip_dot (String.◌∷◌ c s) = if eqb (code c) b'.' then some s else none

-- `[0-9A-Za-z.-]*$`
abbrev is_label : String → Bool
is_label String.[] = true
is_label (String.◌∷◌ c s) =
    (is_digit (code c)
      || is_capital (code c)
      || is_small (code c)
      || eqb (code c) b'.'
      || eqb (code c) b'-')
    && is_label s

abbrev is_filled : String → Bool
is_filled String.[] = false
is_filled (String.◌∷◌ c s) = true

-- `(?:-[0-9A-Za-z.-]+)?$`
abbrev is_suffix : Option String → Bool
is_suffix none = false
is_suffix (some String.[]) = true
is_suffix (some (String.◌∷◌ c s)) = eqb (code c) b'-' && is_filled s && is_label s

unfoldable pub is_semver : String → Bool
is_semver s =
    is_suffix (do
      s1 ← skip_number s
      s2 ← skip_dot s1
      s3 ← skip_number s2
      s4 ← skip_dot s3
      skip_number s4)

-- `typeof value === 'string' && pattern.test(value)`
abbrev pub passes : (String → Bool) → Option Json → Bool
passes pattern none = false
passes pattern (some (text t)) = pattern t
passes pattern (some _) = false

abbrev pub text_or_empty : Option Json → String
text_or_empty (some (text t)) = t
text_or_empty _ = ""

abbrev pub items_or_none : Option Json → List Json
items_or_none (some (array vs)) = list_of vs
items_or_none _ = []

-- The texts of a list.
abbrev pub texts_of : Option Json → List String
texts_of v = map (λ j. text_or_empty (some j)) (items_or_none v)

abbrev pub is_name_list : Option Json → Bool
is_name_list v =
    not (is_empty (items_or_none v))
    && all (λ j. passes is_identifier (some j)) (items_or_none v)
    && all_distinct (texts_of v)

abbrev pub complain : Bool → String → String → List Diagnostic
complain ok message path =
    if ok then [] else diagnostic catalog_invalid message (catalog_path path) ∷ []

abbrev unknown_keys : List String → Members → List String
unknown_keys known ms = keep (λ k. not (includes known k)) (keys_of ms)

abbrev pub unknown_message : List String → String
unknown_message ks = "unknown fields: " <> join ", " (sort compare_text ks)

-- What `checkEntry` pushes; it says `valid` exactly when it pushes nothing.
unfoldable pub entry_problems :
    Members → String → List String → List String → List String → List Diagnostic
unfolding is_identifier is_semver diagnostic join sort compare_text
entry_problems ms path keys lists names =
    complain (is_empty (unknown_keys keys ms)) (unknown_message (unknown_keys keys ms)) path
    ++ complain (passes is_identifier (field ms "id")) "id must be a lowercase identifier"
        (path <> "/id")
    ++ complain (passes is_semver (field ms "version")) "version must be SemVer"
        (path <> "/version")
    ++ flat_map
        (λ key.
          complain (passes is_identifier (field ms key)) (key <> " must be a lowercase identifier")
            (path <> "/" <> key))
        names
    ++ flat_map
        (λ key.
          complain (is_name_list (field ms key))
            (key <> " must be a non-empty list of unique identifiers") (path <> "/" <> key))
        lists

abbrev pub check_entry :
    Option Members → String → List String → List String → List String → List Diagnostic
check_entry none path keys lists names =
    diagnostic catalog_invalid "a descriptor must be an object" (catalog_path path) ∷ []
check_entry (some ms) path keys lists names = entry_problems ms path keys lists names

abbrev pub check_adapter : ℕ → Json → List Diagnostic
check_adapter index entry =
    check_entry (as_object entry) ("/runtimeAdapters/" <> decimal index)
      ("id" ∷ "version" ∷ "componentKinds" ∷ "runtime" ∷ []) ("componentKinds" ∷ [])
      ("runtime" ∷ [])

abbrev pub check_provider : ℕ → Json → List Diagnostic
check_provider index entry =
    check_entry (as_object entry) ("/capabilityProviders/" <> decimal index)
      ("id" ∷ "version" ∷ "capability" ∷ "runtimes" ∷ []) ("runtimes" ∷ []) ("capability" ∷ [])

-- The members of an object, and none of another value.
abbrev pub members_of : Json → Members
members_of (object ms) = ms
members_of _ = end

abbrev pub as_adapter : Json → RuntimeAdapterDescriptor
as_adapter v = record {
  id = text_or_empty (field (members_of v) "id");
  version = text_or_empty (field (members_of v) "version");
  component_kinds = texts_of (field (members_of v) "componentKinds");
  runtime = text_or_empty (field (members_of v) "runtime");
}

abbrev pub as_provider : Json → CapabilityProviderDescriptor
as_provider v = record {
  id = text_or_empty (field (members_of v) "id");
  version = text_or_empty (field (members_of v) "version");
  capability = text_or_empty (field (members_of v) "capability");
  runtimes = texts_of (field (members_of v) "runtimes");
}

pub record CatalogValidation : Type 0 where
  pub catalog : Option ExtensionCatalog
  pub digest : Option Digest
  pub diagnostics : List Diagnostic

abbrev refused : List Diagnostic → CatalogValidation
refused found = record { catalog = none; digest = none; diagnostics = found }

-- The object, its adapters and its providers.
abbrev catalog_arrays : Json → Option (Members × Items × Items)
catalog_arrays input = do
  ms ← as_object input
  a ← field ms "runtimeAdapters"
  adapters ← as_array a
  p ← field ms "capabilityProviders"
  providers ← as_array p
  some (ms, adapters, providers)

abbrev extra_fields : Members → List Diagnostic
extra_fields ms =
    let extra = unknown_keys ("runtimeAdapters" ∷ "capabilityProviders" ∷ "$comment" ∷ []) ms in
    if is_empty extra
    then []
    else diagnostic catalog_invalid (unknown_message extra)
        (record { ref = none; path = none; layer = some kernel_compiler })
      ∷ []

abbrev pub catalog_of : Items → Items → ExtensionCatalog
catalog_of adapters providers = record {
  runtime_adapters = map as_adapter (list_of adapters);
  capability_providers = map as_provider (list_of providers);
}

abbrev entry_diagnostics : Items → Items → List Diagnostic
entry_diagnostics adapters providers =
    flat_map_from 0 check_adapter (list_of adapters)
    ++ flat_map_from 0 check_provider (list_of providers)

module _ (sha256 : String → String) where
  abbrev accepted : Items → Items → List Diagnostic → Result Digest → Result CatalogValidation
  accepted adapters providers diagnostics (thrown message) = thrown message
  accepted adapters providers diagnostics (returned digest) = returned (record {
    catalog = some (catalog_of adapters providers);
    digest = some digest;
    diagnostics = diagnostics;
  })

  abbrev settle : Items → Items → List Diagnostic → Result CatalogValidation
  settle adapters providers diagnostics =
      if has_errors diagnostics
      then returned (refused diagnostics)
      else accepted adapters providers diagnostics (
          digest_of sha256 (
            object (
              object_of (
                ("runtimeAdapters", array adapters)
                ∷ ("capabilityProviders", array providers)
                ∷ []))))

  abbrev validate_arrays : Option (Members × Items × Items) → Result CatalogValidation
  validate_arrays none = returned (
      refused (
        diagnostic catalog_invalid "expected { runtimeAdapters: [], capabilityProviders: [] }"
          (record { ref = none; path = none; layer = some kernel_compiler })
        ∷ []))
  validate_arrays (some (ms, adapters, providers)) =
      let entries = entry_diagnostics adapters providers in
      if is_empty entries
      then settle adapters providers
          (sort_diagnostics (extra_fields ms ++ catalog_conflicts (catalog_of adapters providers)))
      else returned (refused (sort_diagnostics (extra_fields ms ++ entries)))

  unfoldable pub validate_catalog : Json → Result CatalogValidation
  unfolding entry_problems catalog_conflicts digest_of sort_diagnostics diagnostic
  validate_catalog input = validate_arrays (catalog_arrays input)
