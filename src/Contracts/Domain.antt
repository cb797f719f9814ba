-- ===== src/Contracts/Domain.antt =====
-- kernel/contracts/src/contracts/domain-contract.ts: the rules of A5.
pub mod Laws
use Prim.Native.Char.{code}
use Prim.Native.String
use enistere_foundation.Base.{
  String, ℕ, suc, Bool, true, false, ◌&&◌, ◌||◌, not, List, [], ◌∷◌, ◌++◌, Option, none, some, map,
  includes, get_or, flat_map_from, decimal, eqb, ◌<>◌, if◌then◌else◌,
}
use enistere_foundation.Contracts.Checks.{unique_ids, known_ids}
use enistere_foundation.Contracts.Diagnostics.{Diagnostic, diagnostic, located}
use enistere_foundation.Contracts.Diagnostics.Codes.{
  domain_unknown_type, domain_unknown_event, domain_unknown_invariant, domain_unknown_operation,
  domain_unknown_requirement, domain_invalid_type_shape, contract_duplicate_item_id,
}
use enistere_foundation.Contracts.Types.Baseline.{Requirement, RequirementBaselineSpec}
use enistere_foundation.Contracts.Types.Domain.{
  DomainTypeKind, entity, value, enum, Field, DomainType, DomainOperation, Invariant, Event,
  Scenario, Facet, DomainContractSpec,
}

abbrev pub domain_primitives : List String
domain_primitives =
    "string" ∷ "text" ∷ "integer" ∷ "decimal" ∷ "boolean" ∷ "date" ∷ "datetime" ∷ "uuid"
    ∷ "file-ref" ∷ []

-- What follows the prefix.
after : String → String → Option String
after String.[] s = some s
after (String.◌∷◌ c p) String.[] = none
after (String.◌∷◌ c p) (String.◌∷◌ d s) =
    let rest = after p s in if eqb (code c) (code d) then rest else none

-- `.`: all but a line terminator.
abbrev is_dot : ℕ → Bool
is_dot c = not (eqb c 10 || eqb c 13 || eqb c 8232 || eqb c 8233)

abbrev cons_char : String → Option String → Option String
cons_char c none = none
cons_char c (some s) = some (c <> s)

abbrev is_end : String → Bool
is_end String.[] = true
is_end (String.◌∷◌ c s) = false

-- `(.*)>$`
inner : String → Option String
inner String.[] = none
inner (String.◌∷◌ c s) =
    let rest = cons_char (String.◌∷◌ c String.[]) (inner s) in
    if is_end s
    then (if eqb (code c) b'>' then some String.[] else none)
    else if is_dot (code c)
    then rest
    else none

abbrev listed : String → Option String → String
listed expression none = expression
listed expression (some element) = if is_end element then expression else element

abbrev inner_of : Option String → Option String
inner_of none = none
inner_of (some s) = inner s

unfoldable pub element_type : String → String
unfolding after inner
element_type expression = listed expression (inner_of (after "list<" expression))

abbrev pub type_ids : List DomainType → List String
type_ids = map (λ (t : DomainType). t.id)

abbrev pub operation_ids : List DomainOperation → List String
operation_ids = map (λ (o : DomainOperation). o.id)

abbrev pub invariant_ids : List Invariant → List String
invariant_ids = map (λ (i : Invariant). i.id)

abbrev pub event_ids : List Event → List String
event_ids = map (λ (e : Event). e.id)

abbrev pub scenario_ids : List Scenario → List String
scenario_ids = map (λ (s : Scenario). s.id)

abbrev pub facet_ids : List Facet → List String
facet_ids = map (λ (f : Facet). f.id)

abbrev pub domain_contract_items : DomainContractSpec → List String
domain_contract_items spec =
    type_ids spec.types
    ++ operation_ids spec.operations
    ++ invariant_ids spec.invariants
    ++ event_ids spec.events
    ++ scenario_ids spec.acceptance

abbrev pub type_expression : List String → String → String → Option String → List Diagnostic
type_expression types path ref none = []
type_expression types path ref (some expression) =
    if not (includes domain_primitives (element_type expression))
      && not (includes types (element_type expression))
    then diagnostic domain_unknown_type ("unknown type '" <> element_type expression <> "'")
        (located ref path)
      ∷ []
    else []

abbrev kind_name : DomainTypeKind → String
kind_name entity = "ENTITY"
kind_name value = "VALUE"
kind_name enum = "ENUM"

abbrev pub has_items {ℓ} : {A : Type ℓ} → List A → Bool
has_items [] = false
has_items (x ∷ xs) = true

abbrev pub has_wrong_shape : DomainTypeKind → Bool → Bool → Bool
has_wrong_shape enum has_fields has_values = has_fields || not has_values
has_wrong_shape entity has_fields has_values = has_values || not has_fields
has_wrong_shape value has_fields has_values = has_values || not has_fields

abbrev pub check_shape : DomainType → String → String → List Diagnostic
check_shape t path ref =
    if has_wrong_shape t.kind (has_items (get_or t.fields [])) (has_items (get_or t.values []))
    then diagnostic domain_invalid_type_shape
        (kind_name t.kind <> " type '" <> t.id <> "' has an invalid shape") (located ref path)
      ∷ []
    else []

abbrev pub check_name : List String → String → String → String → String → List Diagnostic
check_name names name id path ref =
    if includes names name
    then diagnostic contract_duplicate_item_id
        ("field '" <> name <> "' is declared twice in '" <> id <> "'")
        (located ref (path <> "/name"))
      ∷ []
    else []

-- The fields of a type, with the names so far.
unfoldable pub check_fields :
    List String → String → String → String → List String → ℕ → List Field → List Diagnostic
unfolding element_type diagnostic decimal
check_fields types id path ref names index [] = []
check_fields types id path ref names index (f ∷ fields) =
    let field_path = path <> "/fields/" <> decimal index in
    check_name names f.name id field_path ref
    ++ type_expression types (field_path <> "/type") ref (some f.type)
    ++ check_fields types id path ref (f.name ∷ names) (suc index) fields

unfoldable pub check_type : List String → String → ℕ → DomainType → List Diagnostic
unfolding check_fields decimal diagnostic
check_type types ref index t =
    let path = "/spec/types/" <> decimal index in
    check_shape t path ref ++ check_fields types t.id path ref [] 0 (get_or t.fields [])

unfoldable pub check_operation : DomainContractSpec → String → ℕ → DomainOperation → List Diagnostic
unfolding element_type known_ids diagnostic decimal
check_operation spec ref index o =
    let path = "/spec/operations/" <> decimal index in
    type_expression (type_ids spec.types) (path <> "/input") ref o.input
    ++ type_expression (type_ids spec.types) (path <> "/output") ref o.output
    ++ known_ids (get_or o.emits []) (event_ids spec.events) (path <> "/emits") ref
        domain_unknown_event "event"
    ++ known_ids (get_or o.invariants []) (invariant_ids spec.invariants) (path <> "/invariants")
        ref domain_unknown_invariant "invariant"

unfoldable pub check_references : DomainContractSpec → String → List Diagnostic
unfolding element_type check_type check_operation known_ids diagnostic decimal
check_references spec ref =
    flat_map_from 0 (check_type (type_ids spec.types) ref) spec.types
    ++ flat_map_from 0 (check_operation spec ref) spec.operations
    ++ flat_map_from 0
        (λ index i.
          known_ids i.applies_to (type_ids spec.types)
            ("/spec/invariants/" <> decimal index <> "/appliesTo") ref domain_unknown_type "type")
        spec.invariants
    ++ flat_map_from 0
        (λ index e.
          type_expression (type_ids spec.types) ("/spec/events/" <> decimal index <> "/payload") ref
            (some e.payload))
        spec.events
    ++ flat_map_from 0
        (λ index s.
          known_ids s.operations (operation_ids spec.operations)
            ("/spec/acceptance/" <> decimal index <> "/operations") ref domain_unknown_operation
            "operation")
        spec.acceptance
    ++ flat_map_from 0
        (λ index f.
          known_ids f.applies_to
            (type_ids spec.types ++ operation_ids spec.operations ++ event_ids spec.events)
            ("/spec/facets/" <> decimal index <> "/appliesTo") ref domain_unknown_type
            "facet target")
        spec.facets

unfoldable pub check_identities : DomainContractSpec → String → List Diagnostic
unfolding unique_ids
check_identities spec ref =
    unique_ids (type_ids spec.types) "/spec/types" ref
    ++ unique_ids (operation_ids spec.operations) "/spec/operations" ref
    ++ unique_ids (invariant_ids spec.invariants) "/spec/invariants" ref
    ++ unique_ids (event_ids spec.events) "/spec/events" ref
    ++ unique_ids (scenario_ids spec.acceptance) "/spec/acceptance" ref
    ++ unique_ids (facet_ids spec.facets) "/spec/facets" ref

unfoldable pub validate_domain_contract : DomainContractSpec → String → List Diagnostic
unfolding check_identities check_references
validate_domain_contract spec ref = check_identities spec ref ++ check_references spec ref

unfoldable pub cross_validate_domain_contract :
    DomainContractSpec → String → RequirementBaselineSpec → List Diagnostic
unfolding known_ids decimal
cross_validate_domain_contract spec ref baseline =
    flat_map_from 0
      (λ index s.
        known_ids s.requirements (map (λ (r : Requirement). r.id) baseline.requirements)
          ("/spec/acceptance/" <> decimal index <> "/requirements") ref domain_unknown_requirement
          "requirement")
      spec.acceptance
