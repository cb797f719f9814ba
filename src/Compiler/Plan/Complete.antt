-- ===== src/Compiler/Plan/Complete.antt =====
-- A plan hides nothing: a component of the IR has a step, or is listed as unsupported.
use enistere_foundation.Base.{
  String, Bool, true, false, not, ◌&&◌, ◌||◌, List, [], ◌∷◌, Option, none, some, map, find, any,
  flat_map, includes, is_some, ◌≡◌, ◌⊎◌, refl, ap, ◌∙◌, subst, All, arith, eq_iff, eq_refl,
  Bool-cases, Option-cases, inl, inr, ◌==◌,
}
use enistere_foundation.Base.Dict.{get, put, from_entries, get-put}
use enistere_foundation.Base.Lists.Any.{any_left, any_right}
use enistere_foundation.Compiler.ApiContract.{ApiContract}
use enistere_foundation.Compiler.Catalog.{ExtensionCatalog}
use enistere_foundation.Compiler.Ir.{IrComponent, SystemIr}
use enistere_foundation.Compiler.Plan.{
  PlanStep, ComponentStep, materialize_step, connect_external_step, bind_capability_step,
}
use enistere_foundation.Compiler.Plan.Build.{
  Turn, component_step, plan_source, plan_component, components_by_id, plan_system,
}
use enistere_foundation.Compiler.Policy.{PolicyReport}
use enistere_foundation.Compiler.Resolve.{
  ExtensionRef, ResolvedComponent, ResolvedSystem, resolved, UnsupportedItem, serves,
  try_preferences, try_declared, resolve_component, resolve_components,
}
use enistere_foundation.Compiler.Resolve.Report.{resolve_system, with_digest, resolved_json}
use enistere_foundation.Contracts.Digest.{returned, digest_of}
use enistere_foundation.Contracts.Digest.Returns.{bind-eq-returned, returned-injective}
use enistere_foundation.Contracts.Diagnostics.{Diagnostic}
use enistere_foundation.Contracts.Refs.{Digest}
use enistere_foundation.Contracts.Types.System.{OwnershipClass}

abbrev pub is_step_for : String → PlanStep → Bool
is_step_for id (materialize_step s) = s.component == id
is_step_for id (connect_external_step s) = s.component == id
is_step_for id (bind_capability_step component capability provider) = false

-- The whole component is unsupported, not one of its capabilities.
abbrev pub lists_component : String → UnsupportedItem → Bool
lists_component id u = u.component == id && not (is_some u.capability)

record IsRealized (c : IrComponent) (r : ResolvedComponent) : Type 0 where
  adapter : ExtensionRef
  runtime : String
  named : r.id ≡ c.id
  status : r.status ≡ resolved
  adapted : r.adapter ≡ some adapter
  running : r.runtime ≡ some runtime
  preferred : includes c.runtime.preferences runtime ≡ true

try_preferences-accounts :
    (catalog : ExtensionCatalog) (definition : String) (c : IrComponent) (skipped rs : List String)
    → ((r : String) → includes rs r ≡ true → includes c.runtime.preferences r ≡ true)
    → IsRealized c (try_preferences catalog definition c skipped rs).value
      ⊎ (any (lists_component c.id) (try_preferences catalog definition c skipped rs).items ≡ true)
unfolding try_preferences
try_preferences-accounts catalog definition c skipped [] sub = inr (ground (arith, eq_refl c.id))
try_preferences-accounts catalog definition c skipped (r ∷ rs) sub =
    elim (Option-cases (find (serves c.kind r) catalog.runtime_adapters)) [
      | inl e ↦
          rw e
            (try_preferences-accounts catalog definition c _ rs (λ q h. sub q (ground (arith, h))))
      | inr (a, e) ↦ rw e (
          inl (record {
            adapter = record { id = a.id; version = a.version };
            runtime = r;
            named = refl;
            status = refl;
            adapted = refl;
            running = refl;
            preferred = sub r (ground (arith, eq_refl r));
          }))
    ]

resolve_component-accounts :
    (catalog : ExtensionCatalog) (definition : String) (c : IrComponent)
    → IsRealized c (resolve_component catalog definition c).value
      ⊎ (any (lists_component c.id) (resolve_component catalog definition c).items ≡ true)
unfolding resolve_component
resolve_component-accounts catalog definition c = declared c.runtime.preferences (λ r h. h)
  where
    declared :
        (ps : List String)
        → ((r : String) → includes ps r ≡ true → includes c.runtime.preferences r ≡ true)
        → IsRealized c (try_declared catalog definition c ps).value
          ⊎ (any (lists_component c.id) (try_declared catalog definition c ps).items ≡ true)
    declared [] sub = inr (ground (arith, eq_refl c.id))
    declared (p ∷ ps) sub = try_preferences-accounts catalog definition c [] (p ∷ ps) sub

-- The map has every component of the list.
from_entries_has :
    (m : List (String × IrComponent)) (cs : List IrComponent) (id : String)
    → (is_some (get m id) || includes (map (λ (c : IrComponent). c.id) cs) id) ≡ true
    → is_some (get (from_entries m (map (λ (c : IrComponent). (c.id, c)) cs)) id) ≡ true
unfolding from_entries
from_entries_has m [] id h = ground (arith, h)
from_entries_has m (c ∷ cs) id h =
    from_entries_has (put m c.id c) cs id (ground (arith, h, get-put m c.id id c))

component_step-named :
    (o : OwnershipClass) (s : ComponentStep) (id : String)
    → s.component ≡ id
    → is_step_for id (component_step o s) ≡ true
component_step-named OwnershipClass.external s id e = (eq_iff s.component id).1 e
component_step-named o s id e = (eq_iff s.component id).1 e

or_left : (a b : Bool) → a ≡ true → (a || b) ≡ true
or_left a b h = rw h refl

-- A component that is realized has a step.
realized-planned :
    (contracts : List ApiContract) (by_id : List (String × IrComponent)) (c : IrComponent)
    (r : ResolvedComponent)
    → IsRealized c r
    → includes c.runtime.preferences "" ≡ false
    → is_some (get by_id c.id) ≡ true
    → any (is_step_for c.id) (plan_component contracts by_id r).steps ≡ true
unfolding plan_component
realized-planned contracts by_id c r z filled known =
    rw (z.status, z.adapted, z.running, not_empty z.runtime z.preferred)
      (sourced (get by_id r.id) (ap (λ id. is_some (get by_id id)) z.named ∙ known))
  where
    not_empty :
        (runtime : String) → includes c.runtime.preferences runtime ≡ true → (runtime == "") ≡ false
    not_empty runtime p = elim (Bool-cases (runtime == "")) [
      | inr e ↦ e
      | inl e ↦
          let same = ap (includes c.runtime.preferences) ((eq_iff runtime "").0 e) in
          absurd (cc (same, p, filled))
    ]

    sourced :
        (o : Option IrComponent)
        → is_some o ≡ true
        → any (is_step_for c.id) (plan_source contracts r z.adapter z.runtime o).steps ≡ true
    sourced none s = cc
    sourced (some source) s =
        or_left _ _ (component_step-named source.ownership.class _ c.id z.named)

-- Each component of a list, by what its turn pushes and what its resolution lists.
module _ (contracts : List ApiContract) (by_id : List (String × IrComponent))
    (catalog : ExtensionCatalog) (definition : String) where
  abbrev turns : List IrComponent → List Turn
  turns cs = map (plan_component contracts by_id) (resolve_components catalog definition cs).value

  abbrev IsAccounted : List PlanStep → List UnsupportedItem → IrComponent → Type 0
  IsAccounted steps items c =
      (any (is_step_for c.id) steps ≡ true) ⊎ (any (lists_component c.id) items ≡ true)

  accounts :
      (cs : List IrComponent)
      → All (λ (c : IrComponent). includes c.runtime.preferences "" ≡ false) cs
      → All (λ (c : IrComponent). is_some (get by_id c.id) ≡ true) cs
      → All
          (IsAccounted
            (flat_map (λ (t : Turn). t.steps) (turns cs))
            (resolve_components catalog definition cs).items)
          cs
  unfolding resolve_components
  accounts [] f k = tt
  accounts (c ∷ cs) (f, fs) (k, ks) =
      (first (resolve_component-accounts catalog definition c), later cs (accounts cs fs ks))
    where
      first :
          IsRealized c (resolve_component catalog definition c).value
            ⊎ (any (lists_component c.id) (resolve_component catalog definition c).items ≡ true)
          → IsAccounted
              (flat_map (λ (t : Turn). t.steps) (turns (c ∷ cs)))
              (resolve_components catalog definition (c ∷ cs)).items
              c
      first (inl z) = inl (
          any_left (is_step_for c.id)
            (plan_component contracts by_id (resolve_component catalog definition c).value).steps
            (flat_map (λ (t : Turn). t.steps) (turns cs))
            (realized-planned contracts by_id c (resolve_component catalog definition c).value z f
              k))
      first (inr u) = inr (
          any_left (lists_component c.id) (resolve_component catalog definition c).items
            (resolve_components catalog definition cs).items u)

      later :
          (ds : List IrComponent)
          → All
              (IsAccounted
                (flat_map (λ (t : Turn). t.steps) (turns cs))
                (resolve_components catalog definition cs).items)
              ds
          → All
              (IsAccounted
                (flat_map (λ (t : Turn). t.steps) (turns (c ∷ cs)))
                (resolve_components catalog definition (c ∷ cs)).items)
              ds
      later [] a = tt
      later (d ∷ ds) (inl s, a) = (
        inl (
            any_right (is_step_for d.id)
              (plan_component contracts by_id (resolve_component catalog definition c).value).steps
              (flat_map (λ (t : Turn). t.steps) (turns cs)) s),
        later ds a,
      )
      later (d ∷ ds) (inr s, a) = (
        inr (
            any_right (lists_component d.id) (resolve_component catalog definition c).items
              (resolve_components catalog definition cs).items s),
        later ds a,
      )

known_components :
    (components cs : List IrComponent)
    → ((id : String)
        → includes (map (λ (c : IrComponent). c.id) cs) id ≡ true
        → includes (map (λ (c : IrComponent). c.id) components) id ≡ true)
    → All (λ (c : IrComponent). is_some (get (components_by_id components) c.id) ≡ true) cs
unfolding components_by_id
known_components components [] sub = tt
known_components components (c ∷ cs) sub = (
  from_entries_has [] components c.id (ground (arith, sub c.id (or_left _ _ (eq_refl c.id)))),
  known_components components cs (λ id h. sub id (ground (arith, h))),
)

module _ (sha256 : String → String) (ir : SystemIr) (catalog : ExtensionCatalog)
    (contracts : List ApiContract) where
  -- When a System IR is resolved, and no component prefers a runtime with an empty name, every
  -- component of the IR has a step in the plan of that resolution or is listed there as
  -- unsupported.
  pub plan_system-accounts :
      (closure ir_digest catalog_digest : Digest) (policy : Option PolicyReport)
      (chosen : ResolvedSystem) (found : List Diagnostic)
      → resolve_system sha256 ir.system ir.definition ir_digest ir.components catalog catalog_digest
        ≡ returned (chosen, found)
      → All (λ (c : IrComponent). includes c.runtime.preferences "" ≡ false) ir.components
      → All
          (λ (c : IrComponent).
            (any (is_step_for c.id) (plan_system closure ir_digest ir chosen contracts policy).steps
              ≡ true)
            ⊎ (any
                  (lists_component c.id)
                  (plan_system closure ir_digest ir chosen contracts policy).unsupported
                ≡ true))
          ir.components
  unfolding plan_system resolve_system
  plan_system-accounts closure ir_digest catalog_digest policy chosen found h filled =
      let (digest, _, e) =
        bind-eq-returned
          (digest_of sha256 (
            resolved_json ir.system ir_digest catalog_digest
              (resolve_components catalog ir.definition ir.components)))
          (λ digest. returned (
            with_digest sha256 ir.system ir_digest catalog_digest
              (resolve_components catalog ir.definition ir.components) digest))
          h in
      let same : with_digest sha256 ir.system ir_digest catalog_digest
            (resolve_components catalog ir.definition ir.components) digest
          ≡ (chosen, found) =
        returned-injective e in
      subst
        (λ (q : ResolvedSystem × List Diagnostic).
          All
            (λ (c : IrComponent).
              (any (is_step_for c.id) (plan_system closure ir_digest ir q.0 contracts policy).steps
                ≡ true)
              ⊎ (any (lists_component c.id)
                    (plan_system closure ir_digest ir q.0 contracts policy).unsupported
                  ≡ true))
            ir.components)
        same
        (accounts contracts (components_by_id ir.components) catalog ir.definition ir.components
          filled (known_components ir.components ir.components (λ id k. k)))
