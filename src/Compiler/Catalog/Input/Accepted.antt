-- ===== src/Compiler/Catalog/Input/Accepted.antt =====
-- A catalog that is accepted has well-formed descriptors and no conflict.
use mathlib.Core.List.{Nodup, append-eq-nil_iff}
use enistere_foundation.Base.{
  String, ℕ, suc, Bool, true, false, List, [], ◌∷◌, ◌++◌, Option, none, some, map, all, is_empty,
  flat_map, flat_map_from, ◌≡◌, refl, ◌∙◌, subst, All, All-append, arith, Bool-cases, Option-cases,
  inl, inr,
}
use enistere_foundation.Base.Dict.{get, put}
use enistere_foundation.Base.Patterns.{is_identifier}
use enistere_foundation.Base.Text.Sets.{all_distinct}
use enistere_foundation.Compiler.Catalog.{
  RuntimeAdapterDescriptor, CapabilityProviderDescriptor, ExtensionCatalog, Claim, claim, cover,
  claims, run_claims, catalog_conflicts,
}
use enistere_foundation.Compiler.Catalog.Distinct.{
  declared_ids, adapter_pairs, provider_pairs, distinct_ids, distinct_pairs,
}
use enistere_foundation.Compiler.Catalog.Input.{
  CatalogValidation, is_semver, passes, field, text_or_empty, texts_of, items_or_none, is_name_list,
  complain, entry_problems, check_adapter, check_provider, as_adapter, as_provider, catalog_arrays,
  catalog_of, entry_diagnostics, extra_fields, list_of, accepted, validate_catalog,
}
use enistere_foundation.Contracts.Diagnostics.{Diagnostic, diagnostic, has_errors, sort_diagnostics}
use enistere_foundation.Contracts.Diagnostics.Silent.{IsError, sort_diagnostics-nil}
use enistere_foundation.Contracts.Digest.{Result, returned, thrown}
use enistere_foundation.Contracts.Json.{Json, Items, Members, text, object}
use enistere_foundation.Contracts.Refs.{Digest}

run_claims-All :
    (ids coverage : List (String × String)) (cs : List Claim)
    → All IsError (run_claims ids coverage cs)
unfolding run_claims diagnostic
run_claims-All ids coverage [] = tt
run_claims-All ids coverage (claim id path ∷ cs) = elim (Option-cases (get ids id)) [
  | inl new ↦ rw new (run_claims-All (put ids id path) coverage cs)
  | inr (other, e) ↦ rw e (refl, run_claims-All ids coverage cs)
]
run_claims-All ids coverage (cover key label path ∷ cs) = elim (Option-cases (get coverage key)) [
  | inl new ↦ rw new (run_claims-All ids (put coverage key path) cs)
  | inr (other, e) ↦ rw e (refl, run_claims-All ids coverage cs)
]

extra_fields-All : (ms : Members) → All IsError (extra_fields ms)
unfolding diagnostic
extra_fields-All ms = ground arith

-- A list of at least one identifier, none of them twice.
pub record AreNames (ts : List String) : Type 0 where
  pub some_name : is_empty ts ≡ false
  pub identifiers : all is_identifier ts ≡ true
  pub distinct : all_distinct ts ≡ true

pub record IsWellFormedAdapter (a : RuntimeAdapterDescriptor) : Type 0 where
  pub identified : is_identifier a.id ≡ true
  pub versioned : is_semver a.version ≡ true
  pub runs_on : is_identifier a.runtime ≡ true
  pub kinds : AreNames a.component_kinds

pub record IsWellFormedProvider (p : CapabilityProviderDescriptor) : Type 0 where
  pub identified : is_identifier p.id ≡ true
  pub versioned : is_semver p.version ≡ true
  pub provides : is_identifier p.capability ≡ true
  pub runtimes : AreNames p.runtimes

complain-nil : (ok : Bool) (message path : String) → complain ok message path ≡ [] → ok ≡ true
complain-nil ok message path h = ground arith

passes_text :
    (pattern : String → Bool) (v : Option Json)
    → passes pattern v ≡ true
    → pattern (text_or_empty v) ≡ true
passes_text pattern none h = cc
passes_text pattern (some (text t)) h = h
passes_text pattern (some v) h = cc

all_passes :
    (vs : List Json)
    → all (λ j. passes is_identifier (some j)) vs ≡ true
    → all is_identifier (map (λ j. text_or_empty (some j)) vs) ≡ true
all_passes [] h = refl
all_passes (v ∷ vs) h =
    let first : is_identifier (text_or_empty (some v)) ≡ true =
      passes_text is_identifier (some v) (ground arith) in
    ground (arith, first, all_passes vs)

is_empty-map {ℓ κ} :
    {A : Type ℓ} {B : Type κ} (f : A → B) (xs : List A) → is_empty (map f xs) ≡ is_empty xs
is_empty-map f [] = refl
is_empty-map f (x ∷ xs) = refl

is_name_list-AreNames : (v : Option Json) → is_name_list v ≡ true → AreNames (texts_of v)
is_name_list-AreNames v h = record {
  some_name = is_empty-map (λ j. text_or_empty (some j)) (items_or_none v) ∙ ground (arith, h);
  identifiers = all_passes (items_or_none v) (ground (arith, h));
  distinct = ground (arith, h);
}

record IsEntry (ms : Members) (list name : String) : Type 0 where
  identified : is_identifier (text_or_empty (field ms "id")) ≡ true
  versioned : is_semver (text_or_empty (field ms "version")) ≡ true
  named : is_identifier (text_or_empty (field ms name)) ≡ true
  listed : AreNames (texts_of (field ms list))

entry_problems-nil :
    (ms : Members) (path : String) (keys : List String) (list name : String)
    → entry_problems ms path keys (list ∷ []) (name ∷ []) ≡ []
    → IsEntry ms list name
unfolding entry_problems
entry_problems-nil ms path keys list name h =
    let (h4, lists) = append-eq-nil_iff.0 h in
    let (h3, names) = append-eq-nil_iff.0 h4 in
    let (h2, version) = append-eq-nil_iff.0 h3 in
    let (h1, id) = append-eq-nil_iff.0 h2 in
    record {
      identified = passes_text is_identifier (field ms "id") (complain-nil _ _ _ id);
      versioned = passes_text is_semver (field ms "version") (complain-nil _ _ _ version);
      named =
          passes_text is_identifier (field ms name)
            (complain-nil _ _ _ (append-eq-nil_iff.0 names).0);
      listed =
          is_name_list-AreNames (field ms list) (complain-nil _ _ _ (append-eq-nil_iff.0 lists).0);
    }

check_adapter-nil : (i : ℕ) (v : Json) → check_adapter i v ≡ [] → IsWellFormedAdapter (as_adapter v)
check_adapter-nil i (object ms) h =
    let e = entry_problems-nil ms _ _ "componentKinds" "runtime" h in
    record {
      identified = e.identified;
      versioned = e.versioned;
      runs_on = e.named;
      kinds = e.listed;
    }
check_adapter-nil i v h = cc

check_provider-nil :
    (i : ℕ) (v : Json) → check_provider i v ≡ [] → IsWellFormedProvider (as_provider v)
check_provider-nil i (object ms) h =
    let e = entry_problems-nil ms _ _ "runtimes" "capability" h in
    record {
      identified = e.identified;
      versioned = e.versioned;
      provides = e.named;
      runtimes = e.listed;
    }
check_provider-nil i v h = cc

entries-nil {ℓ} :
    {A : Type ℓ} (check : ℕ → Json → List Diagnostic) (read : Json → A) (P : A → Type 0)
    → ((i : ℕ) (v : Json) → check i v ≡ [] → P (read v))
    → (i : ℕ) (vs : List Json) → flat_map_from i check vs ≡ []
    → All P (map read vs)
entries-nil check read P each i [] h = tt
entries-nil check read P each i (v ∷ vs) h =
    let (here, later) = append-eq-nil_iff.0 h in
    (each i v here, entries-nil check read P each (suc i) vs later)

pub record IsAccepted (c : ExtensionCatalog) : Type 0 where
  pub adapters : All IsWellFormedAdapter c.runtime_adapters
  pub providers : All IsWellFormedProvider c.capability_providers
  pub ids : all_distinct (declared_ids c) ≡ true
  pub adapter_coverage : Nodup (flat_map adapter_pairs c.runtime_adapters)
  pub provider_coverage : Nodup (flat_map provider_pairs c.capability_providers)

is_empty-nil {ℓ} : {A : Type ℓ} (xs : List A) → is_empty xs ≡ true → xs ≡ []
is_empty-nil [] h = refl
is_empty-nil (x ∷ xs) h = cc

catalog_of-IsAccepted :
    (ms : Members) (adapters providers : Items)
    → entry_diagnostics adapters providers ≡ []
    → has_errors
        (sort_diagnostics (extra_fields ms ++ catalog_conflicts (catalog_of adapters providers)))
      ≡ false
    → IsAccepted (catalog_of adapters providers)
unfolding catalog_conflicts
catalog_of-IsAccepted ms adapters providers entries silent =
    let (a, p) = append-eq-nil_iff.0 entries in
    let errors =
      All-append IsError (extra_fields ms) _ (extra_fields-All ms)
        (run_claims-All [] [] (claims (catalog_of adapters providers))) in
    let conflict_free = (append-eq-nil_iff.0 (sort_diagnostics-nil _ errors silent)).1 in
    let (of_adapters, of_providers) =
      distinct_pairs (catalog_of adapters providers) conflict_free in
    record {
      adapters =
          entries-nil check_adapter as_adapter IsWellFormedAdapter check_adapter-nil 0
            (list_of adapters) a;
      providers =
          entries-nil check_provider as_provider IsWellFormedProvider check_provider-nil 0
            (list_of providers) p;
      ids = distinct_ids (catalog_of adapters providers) conflict_free;
      adapter_coverage = of_adapters;
      provider_coverage = of_providers;
    }

module _ (sha256 : String → String) where
  accepted-catalog :
      (adapters providers : Items) (ds : List Diagnostic) (d : Result Digest)
      (v : CatalogValidation) (c : ExtensionCatalog)
      → accepted sha256 adapters providers ds d ≡ returned v
      → v.catalog ≡ some c
      → catalog_of adapters providers ≡ c
  accepted-catalog adapters providers ds (thrown message) v c h e = cc
  accepted-catalog adapters providers ds (returned digest) v c h e = cc

  -- When the validation of a catalog's data returns a catalog, all its adapters and providers
  -- are well formed (an identifier, a semantic version, identifiers for names and non-empty
  -- lists of distinct ones), no identifier is declared twice among adapters and providers, no
  -- pair of a component kind and a runtime is covered twice by adapters, and no pair of a
  -- capability and a runtime by providers.
  pub validate_catalog-IsAccepted :
      (input : Json) (v : CatalogValidation) (c : ExtensionCatalog)
      → validate_catalog sha256 input ≡ returned v
      → v.catalog ≡ some c
      → IsAccepted c
  unfolding validate_catalog
  validate_catalog-IsAccepted input v c h e = elim (Option-cases (catalog_arrays input)) [
    | inl no_arrays ↦ cc (h, no_arrays)
    | inr ((ms, adapters, providers), arrays) ↦
        elim (Bool-cases (is_empty (entry_diagnostics adapters providers))) [
          | inr wrong ↦ absurd (refused_none (rw (arrays, wrong) at h))
          | inl right ↦
              elim (Bool-cases (
                has_errors (
                  sort_diagnostics
                    (extra_fields ms ++ catalog_conflicts (catalog_of adapters providers))))) [
                      | inl errors ↦ absurd (refused_none (rw (arrays, right, errors) at h))
                      | inr silent ↦
                          subst IsAccepted
                            (accepted-catalog adapters providers _ _ v c
                              (rw (arrays, right, silent) at h) e)
                            (catalog_of-IsAccepted ms adapters providers (is_empty-nil _ right)
                              silent)
                    ]
        ]
  ]
    where
      refused_none :
          {ds : List Diagnostic}
          → returned (record { catalog = none; digest = none; diagnostics = ds }) ≡ returned v
          → ⊥
      refused_none r = cc
