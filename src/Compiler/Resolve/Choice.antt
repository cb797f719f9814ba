-- ===== src/Compiler/Resolve/Choice.antt =====
-- The adapter of a component is the one of the first preference that has any.
use mathlib.Core.List.{
  Mem, mem-cons, mem-cons_of_mem, append_assoc, append-nil, map-map, append-eq-nil_iff,
}
use mathlib.Core.Logic.Or
use enistere_foundation.Base.{
  String, Bool, true, false, List, [], ◌∷◌, ◌++◌, none, some, map, find, any, ◌≡◌, ◌≢◌, ◌⊎◌, refl,
  sym, ap, ◌∙◌, subst, All, All-append, arith, Bool-cases, Option-cases, inl, inr,
}
use enistere_foundation.Compiler.Catalog.{ExtensionCatalog, RuntimeAdapterDescriptor}
use enistere_foundation.Compiler.Ir.{IrComponent, IrCapability}
use enistere_foundation.Compiler.Resolve.{
  ResolvedCapability, ResolvedComponent, resolved, serves, provides, resolve_capability, unresolved,
  try_preferences, try_declared, resolve_component, push_all, bind_capability, CapabilityStatus,
}

-- What `find` finds is in the list and passes the test.
pub find-some {ℓ} :
    {A : Type ℓ} (p : A → Bool) (xs : List A) (x : A) → find p xs ≡ some x → Mem x xs × (p x ≡ true)
find-some p [] x h = cc
find-some p (y ∷ xs) x h = elim (Bool-cases (p y)) [
  | inl holds ↦
      let same : y ≡ x = ground (arith, h, holds) in
      (mem-cons.1 (Or.inl (sym same)), ap p (sym same) ∙ holds)
  | inr fails ↦ let (m, t) = find-some p xs x (ground (arith, h, fails)) in (mem-cons_of_mem y m, t)
]

pub find-none {ℓ} : {A : Type ℓ} (p : A → Bool) (xs : List A) → find p xs ≡ none → any p xs ≡ false
find-none p [] h = refl
find-none p (y ∷ xs) h = ground (arith, find-none p xs)

-- No descriptor of the catalog serves components of the kind on the runtime.
abbrev pub IsUnserved : ExtensionCatalog → String → String → Type 0
IsUnserved catalog kind runtime = any (serves kind runtime) catalog.runtime_adapters ≡ false

-- The first preference that is served, and what realizes the component there.
pub record IsChosen (catalog : ExtensionCatalog) (definition : String) (c : IrComponent)
    (r : ResolvedComponent) : Type 0 where
  pub skipped : List String
  pub runtime : String
  pub later : List String
  pub adapter : RuntimeAdapterDescriptor
  pub preferred : c.runtime.preferences ≡ skipped ++ runtime ∷ later
  pub unserved : All (IsUnserved catalog c.kind) skipped
  pub listed : Mem adapter catalog.runtime_adapters
  pub served : serves c.kind runtime adapter ≡ true
  pub result : r ≡ record {
    id = c.id;
    kind = c.kind;
    status = resolved;
    runtime = some runtime;
    adapter = some (record { id = adapter.id; version = adapter.version });
    capabilities =
        map
          (λ (k : IrCapability). (resolve_capability catalog definition c.id runtime k).value)
          c.platform_capabilities;
  }

try_preferences-IsChosen :
    (catalog : ExtensionCatalog) (definition : String) (c : IrComponent) (skipped rs : List String)
    → c.runtime.preferences ≡ skipped ++ rs
    → All (IsUnserved catalog c.kind) skipped
    → IsChosen catalog definition c (try_preferences catalog definition c skipped rs).value
      ⊎ (((try_preferences catalog definition c skipped rs).value ≡ unresolved c)
          × All (IsUnserved catalog c.kind) c.runtime.preferences)
unfolding try_preferences
try_preferences-IsChosen catalog definition c skipped [] e none_so_far =
    inr (refl, subst (All (IsUnserved catalog c.kind)) (sym (e ∙ append-nil skipped)) none_so_far)
try_preferences-IsChosen catalog definition c skipped (runtime ∷ rs) e none_so_far =
    elim (Option-cases (find (serves c.kind runtime) catalog.runtime_adapters)) [
      | inl unserved ↦ rw unserved (
          try_preferences-IsChosen catalog definition c (skipped ++ runtime ∷ []) rs
            (e ∙ sym (append_assoc skipped (runtime ∷ []) rs))
            (All-append (IsUnserved catalog c.kind) skipped (runtime ∷ []) none_so_far
              (find-none _ catalog.runtime_adapters unserved, tt)))
      | inr (a, found) ↦
          let (listed, served) =
            find-some (serves c.kind runtime) catalog.runtime_adapters a found in
          rw found (
            inl (record {
              skipped = skipped;
              runtime = runtime;
              later = rs;
              adapter = a;
              preferred = e;
              unserved = none_so_far;
              listed = listed;
              served = served;
              result =
                  ap
                    (λ capabilities. record {
                      id = c.id;
                      kind = c.kind;
                      status = resolved;
                      runtime = some runtime;
                      adapter = some (record { id = a.id; version = a.version });
                      capabilities = capabilities;
                    })
                    (map-map (λ q. q.value) (resolve_capability catalog definition c.id runtime)
                      c.platform_capabilities);
            }))
    ]

-- A component is resolved on the first of its preferences that some adapter of the catalog
-- serves for its kind, with such an adapter and with its capabilities bound on that runtime; or
-- no adapter serves any of its preferences, and it is unsupported.
pub resolve_component-IsChosen :
    (catalog : ExtensionCatalog) (definition : String) (c : IrComponent)
    → IsChosen catalog definition c (resolve_component catalog definition c).value
      ⊎ (((resolve_component catalog definition c).value ≡ unresolved c)
          × All (IsUnserved catalog c.kind) c.runtime.preferences)
unfolding resolve_component
resolve_component-IsChosen catalog definition c = declared c.runtime.preferences refl
  where
    declared :
        (ps : List String)
        → c.runtime.preferences ≡ ps
        → IsChosen catalog definition c (try_declared catalog definition c ps).value
          ⊎ (((try_declared catalog definition c ps).value ≡ unresolved c)
              × All (IsUnserved catalog c.kind) c.runtime.preferences)
    declared [] e = inr (refl, subst (All (IsUnserved catalog c.kind)) (sym e) tt)
    declared (p ∷ ps) e = try_preferences-IsChosen catalog definition c [] (p ∷ ps) e tt

-- A skipped preference is reported.
skipped-reported :
    (catalog : ExtensionCatalog) (definition : String) (c : IrComponent) (s : String)
    (ss rs : List String)
    → (try_preferences catalog definition c (s ∷ ss) rs).found ≢ []
unfolding try_preferences
skipped-reported catalog definition c s ss [] h = cc
skipped-reported catalog definition c s ss (runtime ∷ rs) h =
    elim (Option-cases (find (serves c.kind runtime) catalog.runtime_adapters)) [
      | inl e ↦ skipped-reported catalog definition c s (ss ++ runtime ∷ []) rs (rw e at h)
      | inr (a, e) ↦ cc
    ]

all_bound :
    (catalog : ExtensionCatalog) (definition component runtime : String) (ks : List IrCapability)
    → (push_all (map (resolve_capability catalog definition component runtime) ks)).found ≡ []
    → All
        (λ (k : ResolvedCapability). k.status ≡ CapabilityStatus.bound)
        (push_all (map (resolve_capability catalog definition component runtime) ks)).value
all_bound catalog definition component runtime [] h = tt
all_bound catalog definition component runtime (k ∷ ks) h =
    let parts = append-eq-nil_iff.0 h in
    elim (Option-cases (find (provides k.id runtime) catalog.capability_providers)) [
      | inl e ↦ absurd (unbound (parts.0) e)
      | inr (p, e) ↦ (rw e refl, all_bound catalog definition component runtime ks (parts.1))
    ]
  where
    unbound :
        (bind_capability definition component runtime k.id
            (find (provides k.id runtime) catalog.capability_providers)).found
          ≡ []
        → find (provides k.id runtime) catalog.capability_providers ≡ none
        → ⊥
    unbound f e = cc

-- When the resolution of a component reports no diagnostic, the component has a preference, it
-- runs on the first one, and each of its capabilities is bound to a provider.
pub resolve_component-silent :
    (catalog : ExtensionCatalog) (definition : String) (c : IrComponent)
    → (resolve_component catalog definition c).found ≡ []
    → (preferred : String) × (later : List String) × (c.runtime.preferences ≡ preferred ∷ later)
      × ((resolve_component catalog definition c).value.runtime ≡ some preferred)
      × All
          (λ (k : ResolvedCapability). k.status ≡ CapabilityStatus.bound)
          (resolve_component catalog definition c).value.capabilities
unfolding resolve_component try_preferences
resolve_component-silent catalog definition c = declared c.runtime.preferences refl
  where
    declared :
        (ps : List String)
        → c.runtime.preferences ≡ ps
        → (try_declared catalog definition c ps).found ≡ []
        → (preferred : String) × (later : List String) × (c.runtime.preferences ≡ preferred ∷ later)
          × ((try_declared catalog definition c ps).value.runtime ≡ some preferred)
          × All
              (λ (k : ResolvedCapability). k.status ≡ CapabilityStatus.bound)
              (try_declared catalog definition c ps).value.capabilities
    declared [] e h = cc
    declared (p ∷ ps) e h = elim (Option-cases (find (serves c.kind p) catalog.runtime_adapters)) [
      | inl unserved ↦ absurd (skipped-reported catalog definition c p [] ps (rw unserved at h))
      | inr (a, found) ↦ rw found (
        p,
        ps,
        e,
        refl,
        all_bound catalog definition c.id p c.platform_capabilities (rw found at h),
      )
    ]
