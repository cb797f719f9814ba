-- ===== src/Compiler/Resolve/Order.antt =====
-- Resolution does not depend on the order in which a catalog lists its descriptors.
use mathlib.Core.List.{Mem, Perm, not-mem-nil, mem-cons}
use mathlib.Core.List.Perm
use mathlib.Core.Logic.Or
use enistere_foundation.Base.{
  String, Bool, true, List, [], ◌∷◌, ◌++◌, Option, some, map, find, any, flat_map, includes, ◌≡◌,
  refl, sym, ap, ap₂, ◌∙◌, arith, eq_iff, Bool-cases, Option-cases, inl, inr,
}
use enistere_foundation.Base.Text.Sets.{String-set}
use enistere_foundation.Compiler.Catalog.{
  RuntimeAdapterDescriptor, CapabilityProviderDescriptor, ExtensionCatalog, adapter_key,
  capability_key, catalog_conflicts,
}
use enistere_foundation.Compiler.Catalog.Coverage.{
  AtMostOne, AtMostOne-of_distinct, distinct_keys, adapter_keys, provider_keys, includes-map,
  all_distinct-append_left, all_distinct-append_right,
}
use enistere_foundation.Compiler.Ir.{IrComponent, IrCapability}
use enistere_foundation.Compiler.Resolve.{
  serves, provides, resolve_capability, bind_capability, push_all, try_preferences, try_declared,
  resolve_component, resolve_components, adapted,
}
use enistere_foundation.Compiler.Resolve.Choice.{find-some, find-none}

serves-AtMostOne :
    (c : ExtensionCatalog) (kind runtime : String)
    → catalog_conflicts c ≡ []
    → AtMostOne (serves kind runtime) c.runtime_adapters
serves-AtMostOne c kind runtime h =
    AtMostOne-of_distinct adapter_keys (serves kind runtime) (adapter_key kind runtime) keyed
      c.runtime_adapters
      (all_distinct-append_left (flat_map adapter_keys c.runtime_adapters) _ (distinct_keys c h))
  where
    keyed :
        (a : RuntimeAdapterDescriptor)
        → serves kind runtime a ≡ true
        → includes (adapter_keys a) (adapter_key kind runtime) ≡ true
    keyed a s =
        let same : a.runtime ≡ runtime = (eq_iff a.runtime runtime).0 (ground (arith, s)) in
        ap (λ r. includes (adapter_keys a) (adapter_key kind r)) (sym same)
        ∙ includes-map (λ k. adapter_key k a.runtime) a.component_kinds kind (ground (arith, s))

provides-AtMostOne :
    (c : ExtensionCatalog) (capability runtime : String)
    → catalog_conflicts c ≡ []
    → AtMostOne (provides capability runtime) c.capability_providers
provides-AtMostOne c capability runtime h =
    AtMostOne-of_distinct provider_keys (provides capability runtime)
      (capability_key capability runtime) keyed c.capability_providers
      (all_distinct-append_right (flat_map adapter_keys c.runtime_adapters) _ (distinct_keys c h))
  where
    keyed :
        (p : CapabilityProviderDescriptor)
        → provides capability runtime p ≡ true
        → includes (provider_keys p) (capability_key capability runtime) ≡ true
    keyed p s =
        let same : p.capability ≡ capability =
          (eq_iff p.capability capability).0 (ground (arith, s)) in
        ap (λ c. includes (provider_keys p) (capability_key c runtime)) (sym same)
        ∙ includes-map (λ r. capability_key p.capability r) p.runtimes runtime (ground (arith, s))

Bool-set : IsSet Bool
Bool-set = hlevel

any_of_mem {ℓ} :
    {A : Type ℓ} (p : A → Bool) (xs : List A) (x : A) → Mem x xs → p x ≡ true → any p xs ≡ true
any_of_mem p [] x m h = absurd (not-mem-nil m)
any_of_mem p (y ∷ xs) x m h =
    Or.elim (Bool-set _ _) (mem-cons.0 m)
      (λ (e : x ≡ y). let t : p y ≡ true = ap p (sym e) ∙ h in ground (arith, t))
      (λ later. ground (arith, any_of_mem p xs x later h))

module _ {ℓ} {A : Type ℓ} (A-set : IsSet (Option A)) (p : A → Bool) where
  find_only : (xs : List A) (x : A) → AtMostOne p xs → Mem x xs → p x ≡ true → find p xs ≡ some x
  find_only [] x u m h = absurd (not-mem-nil m)
  find_only (y ∷ xs) x u m h =
      Or.elim (A-set _ _) (mem-cons.0 m)
        (λ (e : x ≡ y). let t : p y ≡ true = ap p (sym e) ∙ h in rw t (ap some (sym e)))
        (λ later. elim (Bool-cases (p y)) [
          | inl first ↦ absurd (cc (u.0 first, any_of_mem p xs x later h))
          | inr other ↦ rw other (find_only xs x u.1 later h)
        ])

  find-perm : {xs ys : List A} → Perm xs ys → AtMostOne p ys → find p xs ≡ find p ys
  find-perm {xs} {ys} same u = elim (Option-cases (find p xs)) [
    | inr (x, e) ↦
        let (m, t) = find-some p xs x e in e ∙ sym (find_only ys x u ((Perm.mem_iff same).0 m) t)
    | inl e ↦ elim (Option-cases (find p ys)) [
      | inl e' ↦ e ∙ sym e'
      | inr (y, e') ↦
          let (m, t) = find-some p ys y e' in
          absurd (cc (any_of_mem p xs y ((Perm.mem_iff same).1 m) t, find-none p xs e))
    ]
  ]

Adapter-set : IsSet (Option RuntimeAdapterDescriptor)
Adapter-set = hlevel (String-set)

Provider-set : IsSet (Option CapabilityProviderDescriptor)
Provider-set = hlevel (String-set)

module _ (c d : ExtensionCatalog) (definition : String)
    (adapters : Perm c.runtime_adapters d.runtime_adapters)
    (providers : Perm c.capability_providers d.capability_providers)
    (accepted : catalog_conflicts d ≡ []) where
  resolve_capability-perm :
      (component runtime : String) (ks : List IrCapability)
      → map (resolve_capability c definition component runtime) ks
        ≡ map (resolve_capability d definition component runtime) ks
  resolve_capability-perm component runtime [] = refl
  resolve_capability-perm component runtime (k ∷ ks) =
      ap₂ (λ q qs. q ∷ qs)
        (ap (bind_capability definition component runtime k.id) (
          find-perm Provider-set (provides k.id runtime) providers
            (provides-AtMostOne d k.id runtime accepted)))
        (resolve_capability-perm component runtime ks)

  try_preferences-perm :
      (k : IrComponent) (skipped rs : List String)
      → try_preferences c definition k skipped rs ≡ try_preferences d definition k skipped rs
  unfolding try_preferences
  try_preferences-perm k skipped [] = refl
  try_preferences-perm k skipped (r ∷ rs) =
      let same =
        find-perm Adapter-set (serves k.kind r) adapters (serves-AtMostOne d k.kind r accepted) in
      rw same (elim (Option-cases (find (serves k.kind r) d.runtime_adapters)) [
        | inl e ↦ rw e (try_preferences-perm k (skipped ++ r ∷ []) rs)
        | inr (a, e) ↦ rw e (
            ap (λ qs. adapted definition k r skipped a (push_all qs))
              (resolve_capability-perm k.id r k.platform_capabilities))
      ])

  -- Two catalogs with the same adapters and the same providers in another order resolve all
  -- components alike, values, diagnostics and unsupported items, when the second has no
  -- conflict.
  pub resolve_components-perm :
      (ks : List IrComponent)
      → resolve_components c definition ks ≡ resolve_components d definition ks
  unfolding resolve_components
  resolve_components-perm ks = ap push_all (each ks)
    where
      declared :
          (k : IrComponent) (ps : List String)
          → try_declared c definition k ps ≡ try_declared d definition k ps
      declared k [] = refl
      declared k (p ∷ ps) = try_preferences-perm k [] (p ∷ ps)

      each :
          (ks : List IrComponent)
          → map (resolve_component c definition) ks ≡ map (resolve_component d definition) ks
      each [] = refl
      each (k ∷ ks) = ap₂ (λ q qs. q ∷ qs) (declared k k.runtime.preferences) (each ks)
