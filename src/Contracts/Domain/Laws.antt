-- ===== src/Contracts/Domain/Laws.antt =====
-- Which domain contracts the rules of A5 accept.
use enistere_foundation.Base.{
  String, ℕ, suc, true, false, ◌||◌, List, [], ◌∷◌, ◌++◌, Option, none, some, map, includes, get_or,
  ◌≡◌, ◌↔◌, refl, All, arith, eq_iff,
}
use enistere_foundation.Base.Text.Sets.{all_distinct}
use enistere_foundation.Contracts.Authority.Laws.{both_iff}
use enistere_foundation.Contracts.Checks.Laws.{unique_ids_iff, known_ids_iff, flat_map_from_iff}
use enistere_foundation.Contracts.Domain.{
  domain_primitives, element_type, type_ids, operation_ids, invariant_ids, event_ids, scenario_ids,
  facet_ids, type_expression, has_items, has_wrong_shape, check_shape, check_name, check_fields,
  check_type, check_operation, check_references, check_identities, validate_domain_contract,
}
use enistere_foundation.Contracts.Types.Domain.{
  Field, DomainType, DomainOperation, Invariant, Event, Scenario, Facet, DomainContractSpec,
}

-- Every one of the identifiers is declared.
abbrev pub AreKnown : List String → List String → Type 0
AreKnown known = All (λ v. includes known v ≡ true)

-- The element type is a primitive or declared.
abbrev pub IsKnownType : List String → Option String → Type 0
IsKnownType types none = Unit
IsKnownType types (some expression) =
    (includes domain_primitives (element_type expression)
      || includes types (element_type expression))
    ≡ true

abbrev pub field_names : List Field → List String
field_names = map (λ (f : Field). f.name)

abbrev pub IsTyped : List String → Field → Type 0
IsTyped types f = IsKnownType types (some f.type)

abbrev pub IsWellFormedType : List String → DomainType → Type 0
IsWellFormedType types t =
    (has_wrong_shape t.kind (has_items (get_or t.fields [])) (has_items (get_or t.values []))
      ≡ false)
    × (all_distinct (field_names (get_or t.fields [])) ≡ true)
    × All (IsTyped types) (get_or t.fields [])

abbrev pub IsWellFormedOperation : DomainContractSpec → DomainOperation → Type 0
IsWellFormedOperation spec o =
    IsKnownType (type_ids spec.types) o.input
    × IsKnownType (type_ids spec.types) o.output
    × AreKnown (event_ids spec.events) (get_or o.emits [])
    × AreKnown (invariant_ids spec.invariants) (get_or o.invariants [])

pub record HasDistinctItems (spec : DomainContractSpec) : Type 0 where
  pub types : all_distinct (type_ids spec.types) ≡ true
  pub operations : all_distinct (operation_ids spec.operations) ≡ true
  pub invariants : all_distinct (invariant_ids spec.invariants) ≡ true
  pub events : all_distinct (event_ids spec.events) ≡ true
  pub acceptance : all_distinct (scenario_ids spec.acceptance) ≡ true
  pub facets : all_distinct (facet_ids spec.facets) ≡ true

pub record IsClosed (spec : DomainContractSpec) : Type 0 where
  pub types : All (IsWellFormedType (type_ids spec.types)) spec.types
  pub operations : All (IsWellFormedOperation spec) spec.operations
  pub invariants :
      All (λ (i : Invariant). AreKnown (type_ids spec.types) i.applies_to) spec.invariants
  pub events : All (λ (e : Event). IsKnownType (type_ids spec.types) (some e.payload)) spec.events
  pub acceptance :
      All (λ (s : Scenario). AreKnown (operation_ids spec.operations) s.operations) spec.acceptance
  pub facets :
      All
        (λ (f : Facet).
          AreKnown
            (type_ids spec.types ++ operation_ids spec.operations ++ event_ids spec.events)
            f.applies_to)
        spec.facets

type_expression_iff :
    (types : List String) (path ref : String) (expression : Option String)
    → (type_expression types path ref expression ≡ []) ↔ IsKnownType types expression
type_expression_iff types path ref none = ((λ h. tt), λ h. refl)
type_expression_iff types path ref (some expression) = ((λ h. ground arith), λ h. ground (arith, h))

check_name_iff :
    (names : List String) (name id path ref : String)
    → (check_name names name id path ref ≡ []) ↔ (includes names name ≡ false)
check_name_iff names name id path ref = ((λ h. ground arith), λ h. ground (arith, h))

check_shape_iff :
    (t : DomainType) (path ref : String)
    → (check_shape t path ref ≡ []) ↔ (
        has_wrong_shape t.kind (has_items (get_or t.fields [])) (has_items (get_or t.values []))
        ≡ false)
check_shape_iff t path ref = ((λ h. ground arith), λ h. ground (arith, h))

-- Names are new after `name` exactly when they are new before it and are not `name`.
All-includes_iff :
    (names : List String) (name : String) (ns : List String)
    → All (λ n. includes (name ∷ names) n ≡ false) ns
      ↔ ((includes ns name ≡ false) × All (λ n. includes names n ≡ false) ns)
All-includes_iff names name [] = ((λ h. (refl, tt)), λ h. tt)
All-includes_iff names name (n ∷ ns) =
    let (to, from) = All-includes_iff names name ns in
    (
      (λ h.
          let (away, old) = to h.1 in
          (ground (arith, h.0, eq_iff name n, eq_iff n name), (ground (arith, h.0), old))),
      λ h. (
        ground (arith, h.0, h.1.0, eq_iff name n, eq_iff n name),
        from (ground (arith, h.0), h.1.1),
      ),
    )

check_fields_iff :
    (types : List String) (id path ref : String) (names : List String) (index : ℕ)
    (fields : List Field)
    → (check_fields types id path ref names index fields ≡ []) ↔ (
        (all_distinct (field_names fields) ≡ true)
        × All (λ n. includes names n ≡ false) (field_names fields)
        × All (IsTyped types) fields)
unfolding check_fields
check_fields_iff types id path ref names index [] = ((λ h. (refl, tt, tt)), λ h. refl)
check_fields_iff types id path ref names index (f ∷ fields) =
    let new =
      both_iff _ _ (check_name_iff names f.name id _ ref)
        (type_expression_iff types _ ref (some f.type)) in
    let (to, from) =
      both_iff _ _ new (check_fields_iff types id path ref (f.name ∷ names) (suc index) fields) in
    let (split, join) = All-includes_iff names f.name (field_names fields) in
    (
      (λ h.
          let ((n, t), (d, a, ts)) = to h in
          let (away, old) = split a in (ground (arith, d, away), (n, old), (t, ts))),
      λ (d, (n, old), (t, ts)).
          from ((n, t), (ground (arith, d), join (ground (arith, d), old), ts)),
    )

check_type_iff :
    (types : List String) (ref : String) (index : ℕ) (t : DomainType)
    → (check_type types ref index t ≡ []) ↔ IsWellFormedType types t
unfolding check_type
check_type_iff types ref index t =
    let (to, from) =
      both_iff _ _ (check_shape_iff t _ ref)
        (check_fields_iff types t.id _ ref [] 0 (get_or t.fields [])) in
    (
      (λ h. let (s, (d, _, ts)) = to h in (s, d, ts)),
      λ (s, d, ts). from (s, (d, All-none (field_names (get_or t.fields [])), ts)),
    )
  where
    All-none : (ns : List String) → All (λ n. includes [] n ≡ false) ns
    All-none [] = tt
    All-none (n ∷ ns) = (refl, All-none ns)

check_operation_iff :
    (spec : DomainContractSpec) (ref : String) (index : ℕ) (o : DomainOperation)
    → (check_operation spec ref index o ≡ []) ↔ IsWellFormedOperation spec o
unfolding check_operation
check_operation_iff spec ref index o =
    let types =
      both_iff _ _ (type_expression_iff (type_ids spec.types) _ ref o.input)
        (type_expression_iff (type_ids spec.types) _ ref o.output) in
    let events =
      both_iff _ _ types (known_ids_iff (get_or o.emits []) (event_ids spec.events) _ ref _ _) in
    let (to, from) =
      both_iff _ _ events
        (known_ids_iff (get_or o.invariants []) (invariant_ids spec.invariants) _ ref _ _) in
    ((λ h. let (((i, o), e), v) = to h in (i, o, e, v)), λ (i, o, e, v). from (((i, o), e), v))

check_identities_iff :
    (spec : DomainContractSpec) (ref : String)
    → (check_identities spec ref ≡ []) ↔ HasDistinctItems spec
unfolding check_identities
check_identities_iff spec ref =
    let two =
      both_iff _ _ (unique_ids_iff (type_ids spec.types) _ ref)
        (unique_ids_iff (operation_ids spec.operations) _ ref) in
    let three = both_iff _ _ two (unique_ids_iff (invariant_ids spec.invariants) _ ref) in
    let four = both_iff _ _ three (unique_ids_iff (event_ids spec.events) _ ref) in
    let five = both_iff _ _ four (unique_ids_iff (scenario_ids spec.acceptance) _ ref) in
    let (to, from) = both_iff _ _ five (unique_ids_iff (facet_ids spec.facets) _ ref) in
    (
      (λ h.
          let (((((t, o), i), e), a), f) = to h in
          record {
            types = t;
            operations = o;
            invariants = i;
            events = e;
            acceptance = a;
            facets = f;
          }),
      λ h. from (((((h.types, h.operations), h.invariants), h.events), h.acceptance), h.facets),
    )

check_references_iff :
    (spec : DomainContractSpec) (ref : String) → (check_references spec ref ≡ []) ↔ IsClosed spec
unfolding check_references
check_references_iff spec ref =
    let types = type_ids spec.types in
    let two =
      both_iff _ _
        (flat_map_from_iff (IsWellFormedType types) _ 0 spec.types (check_type_iff types ref))
        (flat_map_from_iff (IsWellFormedOperation spec) _ 0 spec.operations
          (check_operation_iff spec ref)) in
    let three = both_iff _ _ two (
      flat_map_from_iff (λ (i : Invariant). AreKnown types i.applies_to) _ 0 spec.invariants
        (λ index i. known_ids_iff i.applies_to types _ ref _ _)) in
    let four = both_iff _ _ three (
      flat_map_from_iff (λ (e : Event). IsKnownType types (some e.payload)) _ 0 spec.events
        (λ index e. type_expression_iff types _ ref (some e.payload))) in
    let five = both_iff _ _ four (
      flat_map_from_iff (λ (s : Scenario). AreKnown (operation_ids spec.operations) s.operations) _
        0 spec.acceptance (λ index s. known_ids_iff s.operations _ _ ref _ _)) in
    let (to, from) = both_iff _ _ five (
      flat_map_from_iff
        (λ (f : Facet).
          AreKnown (types ++ operation_ids spec.operations ++ event_ids spec.events) f.applies_to)
        _ 0 spec.facets (λ index f. known_ids_iff f.applies_to _ _ ref _ _)) in
    (
      (λ h.
          let (((((t, o), i), e), a), f) = to h in
          record {
            types = t;
            operations = o;
            invariants = i;
            events = e;
            acceptance = a;
            facets = f;
          }),
      λ h. from (((((h.types, h.operations), h.invariants), h.events), h.acceptance), h.facets),
    )

-- A domain contract is accepted exactly when no identifier occurs twice among its types,
-- operations, invariants, events, scenarios or facets, every type has the shape of its kind and
-- fields with distinct names and known types, and every type, event, invariant and operation
-- that is named elsewhere is a declared one (a type may be a primitive, or a list of a known
-- type).
pub validate_domain_contract_iff :
    (spec : DomainContractSpec) (ref : String)
    → (validate_domain_contract spec ref ≡ []) ↔ (HasDistinctItems spec × IsClosed spec)
unfolding validate_domain_contract
validate_domain_contract_iff spec ref =
    both_iff _ _ (check_identities_iff spec ref) (check_references_iff spec ref)
