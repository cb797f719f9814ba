-- ===== src/Compiler/Ir/Unsupported.antt =====
-- kernel/compiler/src/ir.ts: what nobody implements or publishes is listed, and nothing else.
use enistere_foundation.Base.{
  String, Bool, false, not, ◌&&◌, List, ◌++◌, keep, any, is_empty, includes, ◌≡◌, refl, ap, ◌∙◌,
  arith, eq_iff, Bool-cases, inl, inr, ◌==◌, any-append,
}
use enistere_foundation.Base.Lists.Any.{
  any-ext, any-keep, any_never, any_both, is_empty-keep, any-map, any-flat_map, is_empty-map,
}
use enistere_foundation.Base.Sorting.Order.{any-sort}
use enistere_foundation.Compiler.DomainIr.{IrOperation, IrEvent, DomainIr}
use enistere_foundation.Compiler.Ir.{
  IrComponent, OperationBinding, EventBinding, operation_unimplemented, event_unpublished,
  UnsupportedIntent,
}
use enistere_foundation.Compiler.Ir.Build.{
  operation_binding, event_binding, operation_bindings_of, event_bindings_of, unimplemented,
  unpublished, uninterpreted, unsupported_of, unsupported_items, compare_intents, publishes_event,
  emitters,
}

abbrev is_unimplemented : String → UnsupportedIntent → Bool
is_unimplemented item u = elim u.code [ operation_unimplemented ↦ u.item == item | _ ↦ false ]

abbrev is_unpublished : String → UnsupportedIntent → Bool
is_unpublished item u = elim u.code [ event_unpublished ↦ u.item == item | _ ↦ false ]

-- The item is listed as an operation that nobody implements.
abbrev pub lists_operation : String → List UnsupportedIntent → Bool
lists_operation item = any (is_unimplemented item)

abbrev pub lists_event : String → List UnsupportedIntent → Bool
lists_event item = any (is_unpublished item)

abbrev pub is_implemented : List IrComponent → String → Bool
is_implemented components item = any (λ c. includes c.implements item) components

abbrev pub has_operation : List DomainIr → String → Bool
has_operation domains item =
    any (λ (d : DomainIr). any (λ (o : IrOperation). o.ref == item) d.operations) domains

operation_test :
    (components : List IrComponent) (item : String) (o : IrOperation)
    → (is_empty (operation_binding components o).implemented_by && (o.ref == item))
      ≡ ((o.ref == item) && not (is_implemented components item))
operation_test components item o = elim (Bool-cases (o.ref == item)) [
  | inr other ↦ ground (arith, other)
  | inl same ↦
      let empty =
        is_empty-map (λ (c : IrComponent). c.id)
          (keep (λ c. includes c.implements o.ref) components)
        ∙ is_empty-keep (λ c. includes c.implements o.ref) components in
      let here = ap (is_implemented components) ((eq_iff o.ref item).0 same) in
      rw (empty, here) (ground arith)
]

lists-unimplemented :
    (components : List IrComponent) (domains : List DomainIr) (item : String)
    → lists_operation item (unimplemented (operation_bindings_of components domains))
      ≡ (has_operation domains item && not (is_implemented components item))
lists-unimplemented components domains item =
    any-map (is_unimplemented item) _ (
      keep (λ (b : OperationBinding). is_empty b.implemented_by)
        (operation_bindings_of components domains))
    ∙ any-keep (λ b. b.item == item) (λ b. is_empty b.implemented_by)
        (operation_bindings_of components domains)
    ∙ any-flat_map (λ b. is_empty b.implemented_by && (b.item == item)) _ domains
    ∙ any-ext _ _ domains (λ d.
      any-map _ (operation_binding components) d.operations
      ∙ any-ext _ _ d.operations (operation_test components item)
      ∙ any_both (λ o. o.ref == item) (not (is_implemented components item)) d.operations)
    ∙ any_both (λ d. any (λ (o : IrOperation). o.ref == item) d.operations)
        (not (is_implemented components item)) domains

-- An item is listed as an operation that nobody implements exactly when it is the reference of
-- an operation of some domain and no component implements it.
lists_operation-unsupported_of :
    (components : List IrComponent) (domains : List DomainIr) (item : String)
    → lists_operation item (unsupported_of components domains)
      ≡ (has_operation domains item && not (is_implemented components item))
unfolding unsupported_of
lists_operation-unsupported_of components domains item =
    any-sort compare_intents (is_unimplemented item) (unsupported_items components domains)
    ∙ any-append (is_unimplemented item)
        (unimplemented (operation_bindings_of components domains)
          ++ unpublished (event_bindings_of components domains))
        (uninterpreted domains)
    ∙ rw
        (
          any-append (is_unimplemented item)
              (unimplemented (operation_bindings_of components domains))
              (unpublished (event_bindings_of components domains)),
          lists-unimplemented components domains item,
          no_events,
          no_facets,
        )
        (ground arith)
  where
    no_events :
        any (is_unimplemented item) (unpublished (event_bindings_of components domains)) ≡ false
    no_events =
        any-map (is_unimplemented item) _ (
          keep (λ (b : EventBinding). is_empty b.published_by)
            (event_bindings_of components domains))
        ∙ any_never _
            (keep (λ (b : EventBinding). is_empty b.published_by)
              (event_bindings_of components domains))
            (λ b. refl)

    no_facets : any (is_unimplemented item) (uninterpreted domains) ≡ false
    no_facets =
        any-flat_map (is_unimplemented item) _ domains
        ∙ any_never _ domains (λ d.
          any-map (is_unimplemented item) _ d.unsupported ∙ any_never _ d.unsupported (λ f. refl))

event_test :
    (components : List IrComponent) (operations : List IrOperation) (item : String) (e : IrEvent)
    → (is_empty (event_binding components operations e).published_by && (e.ref == item))
      ≡ ((e.ref == item) && not (any (publishes_event (emitters operations item) item) components))
event_test components operations item e = elim (Bool-cases (e.ref == item)) [
  | inr other ↦ ground (arith, other)
  | inl same ↦
      let empty =
        is_empty-map (λ (c : IrComponent). c.id)
          (keep (publishes_event (emitters operations e.ref) e.ref) components)
        ∙ is_empty-keep (publishes_event (emitters operations e.ref) e.ref) components in
      let here =
        ap (λ i. any (publishes_event (emitters operations i) i) components)
          ((eq_iff e.ref item).0 same) in
      rw (empty, here) (ground arith)
]

-- The event belongs to a domain, in which no component publishes it, neither by itself nor by an
-- operation that emits it.
abbrev pub is_silent_event : List IrComponent → String → DomainIr → Bool
is_silent_event components item d =
    any (λ (e : IrEvent). e.ref == item) d.events
    && not (any (publishes_event (emitters d.operations item) item) components)

lists-unpublished :
    (components : List IrComponent) (domains : List DomainIr) (item : String)
    → lists_event item (unpublished (event_bindings_of components domains))
      ≡ any (is_silent_event components item) domains
lists-unpublished components domains item =
    any-map (is_unpublished item) _
      (keep (λ (b : EventBinding). is_empty b.published_by) (event_bindings_of components domains))
    ∙ any-keep (λ b. b.item == item) (λ b. is_empty b.published_by)
        (event_bindings_of components domains)
    ∙ any-flat_map (λ b. is_empty b.published_by && (b.item == item)) _ domains
    ∙ any-ext _ _ domains (λ d.
      any-map _ (event_binding components d.operations) d.events
      ∙ any-ext _ _ d.events (event_test components d.operations item)
      ∙ any_both (λ e. e.ref == item)
          (not (any (publishes_event (emitters d.operations item) item) components)) d.events)

-- An item is listed as an event that nobody publishes exactly when it is the reference of an
-- event of some domain in which no component publishes it, neither by itself nor by
-- implementing an operation that emits it.
lists_event-unsupported_of :
    (components : List IrComponent) (domains : List DomainIr) (item : String)
    → lists_event item (unsupported_of components domains)
      ≡ any (is_silent_event components item) domains
unfolding unsupported_of
lists_event-unsupported_of components domains item =
    any-sort compare_intents (is_unpublished item) (unsupported_items components domains)
    ∙ any-append (is_unpublished item)
        (unimplemented (operation_bindings_of components domains)
          ++ unpublished (event_bindings_of components domains))
        (uninterpreted domains)
    ∙ rw
        (
          any-append (is_unpublished item)
              (unimplemented (operation_bindings_of components domains))
              (unpublished (event_bindings_of components domains)),
          lists-unpublished components domains item,
          no_operations,
          no_facets,
        )
        (ground arith)
  where
    no_operations :
        any (is_unpublished item) (unimplemented (operation_bindings_of components domains)) ≡ false
    no_operations =
        any-map (is_unpublished item) _ (
          keep (λ (b : OperationBinding). is_empty b.implemented_by)
            (operation_bindings_of components domains))
        ∙ any_never _
            (keep (λ (b : OperationBinding). is_empty b.implemented_by)
              (operation_bindings_of components domains))
            (λ b. refl)

    no_facets : any (is_unpublished item) (uninterpreted domains) ≡ false
    no_facets =
        any-flat_map (is_unpublished item) _ domains
        ∙ any_never _ domains (λ d.
          any-map (is_unpublished item) _ d.unsupported ∙ any_never _ d.unsupported (λ f. refl))

-- An item is listed as an operation that nobody implements exactly when it is the reference of
-- an operation of some domain and no component implements it; it is listed as an event that
-- nobody publishes exactly when it is the reference of an event of some domain in which no
-- component publishes it, neither by itself nor by implementing an operation that emits it.
pub lists-unsupported_of :
    (components : List IrComponent) (domains : List DomainIr) (item : String)
    → (lists_operation item (unsupported_of components domains)
        ≡ (has_operation domains item && not (is_implemented components item)))
      × (lists_event item (unsupported_of components domains)
          ≡ any (is_silent_event components item) domains)
lists-unsupported_of components domains item = (
  lists_operation-unsupported_of components domains item,
  lists_event-unsupported_of components domains item,
)
