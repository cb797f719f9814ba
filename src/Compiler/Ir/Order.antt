-- ===== src/Compiler/Ir/Order.antt =====
-- kernel/compiler/src/ir.ts: the normalization forgets the authoring order.
use Prim.Native.Nat.{Ordering}
use mathlib.Core.List.{Perm}
use mathlib.Core.List.Perm
use enistere_foundation.Base.{
  String, true, false, List, [], ◌∷◌, map, includes, compare_text, ◌≡◌, ◌≢◌, refl, sym, ap, ◌∙◌,
  All, arith, eq_iff,
}
use enistere_foundation.Base.Sorting.Order.{by, by-IsOrder, compare_text-IsOrder}
use enistere_foundation.Base.Sorting.Unique.{AreApart, sort-perm_eq, compare_text-eq}
use enistere_foundation.Base.Text.Sets.{all_distinct, String-set}
use enistere_foundation.Compiler.Ir.{IrComponent, DesignBinding}
use enistere_foundation.Compiler.Ir.Build.{
  PinnedDomain, normalize_component, normalize_components, resolve_item, environment_ids,
  build_system_ir, build_domains, ir_of,
}
use enistere_foundation.Contracts.Types.Common.{Metadata}
use enistere_foundation.Contracts.Types.System.{Component, SystemDefinitionSpec}

abbrev pub component_ids : List Component → List String
component_ids = map (λ (c : Component). c.id)

IrComponents-set : IsSet (List IrComponent)
IrComponents-set = hlevel (String-set)

by_id-AreApart :
    (normal : Component → IrComponent)
    → ((c : Component) → (normal c).id ≡ c.id)
    → (cs : List Component) → all_distinct (component_ids cs) ≡ true
    → AreApart
        (by compare_text (λ (c : IrComponent). c.id))
        (by-IsOrder (λ c. c.id) compare_text-IsOrder)
        (map normal cs)
by_id-AreApart normal same [] h = tt
by_id-AreApart normal same (c ∷ cs) h =
    (apart cs (ground (arith, h)), by_id-AreApart normal same cs (ground (arith, h)))
  where
    apart :
        (ds : List Component)
        → includes (component_ids ds) c.id ≡ false
        → All
            (λ y. by compare_text (λ (c : IrComponent). c.id) (normal c) y ≢ Ordering.eq)
            (map normal ds)
    apart [] n = tt
    apart (d ∷ ds) n = (
      (λ e.
          let ids = sym (same d) ∙ sym (compare_text-eq (normal c).id (normal d).id e) ∙ same c in
          ground (
            arith,
            n,
            (eq_iff d.id c.id).1
                (sym (same d) ∙ sym (compare_text-eq (normal c).id (normal d).id e) ∙ same c),
          )),
      apart ds (ground (arith, n)),
    )

-- The authoring order of the components is forgotten.
normalize_components-perm :
    (spec : SystemDefinitionSpec) (cs : List Component)
    → Perm spec.components cs
    → all_distinct (component_ids spec.components) ≡ true
    → normalize_components spec ≡ normalize_components (record spec { components = cs })
unfolding normalize_components
normalize_components-perm spec cs p h =
    sort-perm_eq _ (by-IsOrder (λ (c : IrComponent). c.id) compare_text-IsOrder) IrComponents-set
      (Perm.map _ p) (by_id-AreApart _ ids spec.components h)
  where
    ids :
        (c : Component)
        → (normalize_component c (environment_ids spec.environments) (resolve_item spec)).id ≡ c.id
    ids c = refl

-- When the components of a definition have distinct identifiers, the System IR is the same
-- whatever the order in which they are written.
pub build_system_ir-perm :
    (metadata : Metadata) (spec : SystemDefinitionSpec) (cs : List Component)
    (contracts : List PinnedDomain) (design_bindings : List DesignBinding)
    → Perm spec.components cs
    → all_distinct (component_ids spec.components) ≡ true
    → build_system_ir metadata spec contracts design_bindings
      ≡ build_system_ir metadata (record spec { components = cs }) contracts design_bindings
unfolding build_system_ir
build_system_ir-perm metadata spec cs contracts design_bindings p h =
    ap (λ ks. ir_of metadata spec ks (build_domains spec contracts) design_bindings)
      (normalize_components-perm spec cs p h)
