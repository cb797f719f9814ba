-- ===== src/Contracts/Context.antt =====
-- kernel/contracts/src/contracts/effective-organization-context.ts: the derivation of A3.
-- A layer carries its index, which the code finds again by identity.
pub mod Locks
pub mod Trace
use Prim.Native.Nat.{Ordering, compare}
use enistere_foundation.Base.{
  String, ℕ, suc, Bool, true, false, List, [], ◌∷◌, ◌++◌, Option, none, some, find, map, map_from,
  any, get_or, decimal, eqb, ◌<>◌, ◌==◌, compare_text, not, if◌then◌else◌,
}
use enistere_foundation.Base.Dict.{get, put}
use enistere_foundation.Base.Sorting.{sort}
use enistere_foundation.Base.Sorting.Order.{by, or_by}
use enistere_foundation.Contracts.Diagnostics.{Diagnostic, diagnostic, located}
use enistere_foundation.Contracts.Diagnostics.Codes.{
  context_duplicate_precedence, context_rule_category_conflict, context_unknown_rule,
}
use enistere_foundation.Contracts.Json.{Json}
use enistere_foundation.Contracts.Types.Context.{
  ContextCategory, architecture, runtime, security, data_category, design, quality, deployment,
  approval, ai, evidence, ContextRule, ContextLayer, ContextWaiver, SourceType, layer, waiver,
  TraceOutcome, applied, overridden, refused_locked, waived, TraceEntry, RuleSource, EffectiveRule,
}

pub record Working : Type 0 where
  pub category : ContextCategory
  pub value : Json
  pub locked : Bool
  pub source : RuleSource
  pub trace : List TraceEntry

pub record Derivation : Type 0 where
  pub rules : List (String × Working)
  pub found : List Diagnostic

unfoldable pub category_text : ContextCategory → String
category_text architecture = "ARCHITECTURE"
category_text runtime = "RUNTIME"
category_text security = "SECURITY"
category_text data_category = "DATA"
category_text design = "DESIGN"
category_text quality = "QUALITY"
category_text deployment = "DEPLOYMENT"
category_text approval = "APPROVAL"
category_text ai = "AI"
category_text evidence = "EVIDENCE"

-- `source.type.toLowerCase()`
abbrev source_text : SourceType → String
source_text layer = "layer"
source_text waiver = "waiver"

abbrev pub is_applied : TraceEntry → Bool
is_applied e = elim e.outcome [
  | applied ↦ true
  | overridden ↦ false
  | refused_locked ↦ false
  | waived ↦ false
]

abbrev pub is_current : TraceEntry → Bool
is_current e = elim e.outcome [
  | applied ↦ true
  | overridden ↦ false
  | refused_locked ↦ false
  | waived ↦ true
]

-- `const applied = trace.findLast(p); if (applied) applied.outcome = 'OVERRIDDEN'`
unfoldable pub override_last : (TraceEntry → Bool) → List TraceEntry → List TraceEntry
override_last p [] = []
override_last p (e ∷ es) =
    let later = e ∷ override_last p es in
    if any p es then later else (if p e then record e { outcome = overridden } ∷ es else e ∷ es)

abbrev layer_entry : ContextLayer → ContextRule → TraceOutcome → Option String → TraceEntry
layer_entry l rule outcome reason = record {
  from = layer;
  id = l.id;
  value = rule.value;
  outcome = outcome;
  reason = reason;
}

abbrev first_working : ContextLayer → ContextRule → Working
first_working l rule = record {
  category = rule.category;
  value = rule.value;
  locked = get_or rule.locked false;
  source = record { type = layer; id = l.id };
  trace = layer_entry l rule applied none ∷ [];
}

abbrev refuse_rule : ContextLayer → ContextRule → Working → Working
refuse_rule l rule current = record current {
  trace =
      current.trace
      ++ layer_entry l rule refused_locked (
          some
            ("locked by " <> source_text current.source.type <> " '" <> current.source.id <> "'"))
        ∷ [];
}

abbrev override_rule : ContextLayer → ContextRule → Working → Working
override_rule l rule current = record current {
  value = rule.value;
  locked = get_or rule.locked false;
  source = record { type = layer; id = l.id };
  trace = override_last is_applied current.trace ++ layer_entry l rule applied none ∷ [];
}

-- What the rule's entry becomes.
unfoldable pub next_working : ContextLayer → ContextRule → Option Working → Working
unfolding override_last
next_working l rule none = first_working l rule
next_working l rule (some current) =
    if current.locked then refuse_rule l rule current else override_rule l rule current

abbrev category_conflict : String → ℕ → ℕ → ContextRule → Option Working → List Diagnostic
category_conflict ref layer_index rule_index rule none = []
category_conflict ref layer_index rule_index rule (some current) =
    if category_text current.category == category_text rule.category
    then []
    else diagnostic context_rule_category_conflict
        ("rule '"
          <> rule.id
          <> "' is "
          <> category_text current.category
          <> " and "
          <> category_text rule.category)
        (located ref (
          "/spec/layers/" <> decimal layer_index <> "/rules/" <> decimal rule_index <> "/category"))
      ∷ []

unfoldable pub apply_rules :
    String → ℕ → ContextLayer → ℕ → List ContextRule → Derivation → Derivation
unfolding next_working put get category_text diagnostic decimal
apply_rules ref layer_index l rule_index [] d = d
apply_rules ref layer_index l rule_index (rule ∷ rules) d =
    apply_rules ref layer_index l (suc rule_index) rules (record {
      rules = put d.rules rule.id (next_working l rule (get d.rules rule.id));
      found = d.found ++ category_conflict ref layer_index rule_index rule (get d.rules rule.id);
    })

unfoldable pub apply_layers : String → List (ℕ × ContextLayer) → Derivation → Derivation
unfolding apply_rules
apply_layers ref [] d = d
apply_layers ref ((index, l) ∷ layers) d =
    apply_layers ref layers (apply_rules ref index l 0 l.rules d)

abbrev waiver_entry : ContextWaiver → TraceEntry
waiver_entry w = record {
  from = waiver;
  id = w.id;
  value = w.value;
  outcome = waived;
  reason = some w.reason;
}

abbrev waive : ContextWaiver → Working → Working
waive w current = record current {
  value = w.value;
  source = record { type = waiver; id = w.id };
  trace = override_last is_current current.trace ++ waiver_entry w ∷ [];
}

abbrev pub apply_waiver : String → ℕ → ContextWaiver → Option Working → Derivation → Derivation
apply_waiver ref index w none d = record d {
  found =
      d.found
      ++ diagnostic context_unknown_rule
          ("waiver '" <> w.id <> "' excepts unknown rule '" <> w.rule <> "'")
          (located ref ("/spec/waivers/" <> decimal index <> "/rule"))
        ∷ [];
}
apply_waiver ref index w (some current) d = record d {
  rules = put d.rules w.rule (waive w current);
}

unfoldable pub apply_waivers : String → List (ℕ × ContextWaiver) → Derivation → Derivation
unfolding override_last put get diagnostic decimal
apply_waivers ref [] d = d
apply_waivers ref ((index, w) ∷ waivers) d =
    apply_waivers ref waivers (apply_waiver ref index w (get d.rules w.rule) d)

-- `if (other !== undefined)`: report it, or go on with the layer's precedence.
abbrev shared_precedence :
    String
    → ℕ
    → ContextLayer
    → Option (ℕ × String)
    → List Diagnostic
    → List Diagnostic
    → List Diagnostic
shared_precedence ref index l none rest fresh = fresh
shared_precedence ref index l (some (_, other)) rest fresh =
    diagnostic context_duplicate_precedence
      ("layers '" <> other <> "' and '" <> l.id <> "' share precedence " <> decimal l.precedence)
      (located ref ("/spec/layers/" <> decimal index <> "/precedence"))
    ∷ rest

-- The layers that repeat a precedence, with the precedences so far.
duplicate_precedences : String → ℕ → List (ℕ × String) → List ContextLayer → List Diagnostic
unfolding diagnostic decimal
duplicate_precedences ref index seen [] = []
duplicate_precedences ref index seen (l ∷ layers) =
    let fresh = duplicate_precedences ref (suc index) ((l.precedence, l.id) ∷ seen) layers in
    let rest = duplicate_precedences ref (suc index) seen layers in
    shared_precedence ref index l (find (λ (e : ℕ × String). eqb e.0 l.precedence) seen) rest fresh

abbrev pub effective_rule : String × Working → EffectiveRule
effective_rule (rule, w) = record {
  rule = rule;
  category = w.category;
  value = w.value;
  locked = w.locked;
  source = w.source;
  trace = w.trace;
}

abbrev layer_order : ℕ × ContextLayer → ℕ × ContextLayer → Ordering
layer_order =
    or_by (by compare (λ (e : ℕ × ContextLayer). e.1.precedence))
      (by compare_text (λ (e : ℕ × ContextLayer). e.1.id))

abbrev waiver_order : ℕ × ContextWaiver → ℕ × ContextWaiver → Ordering
waiver_order = by compare_text (λ (e : ℕ × ContextWaiver). e.1.id)

abbrev indexed {ℓ} : {A : Type ℓ} → List A → List (ℕ × A)
indexed = map_from 0 (λ i x. (i, x))

-- The rules after the layers, and after the waivers.
unfoldable pub derive : String → List ContextLayer → List ContextWaiver → Derivation
unfolding apply_layers apply_waivers duplicate_precedences sort
derive ref layers waivers = apply_waivers ref (sort waiver_order (indexed waivers)) (
    apply_layers ref (sort layer_order (indexed layers))
      (record { rules = []; found = duplicate_precedences ref 0 [] layers }))

pub record DerivationResult : Type 0 where
  pub effective : List EffectiveRule
  pub diagnostics : List Diagnostic

unfoldable pub derive_effective_rules :
    List ContextLayer → List ContextWaiver → String → DerivationResult
unfolding derive sort compare_text
derive_effective_rules layers waivers ref = record {
  effective =
      map effective_rule
        (sort (by compare_text (λ (e : String × Working). e.0)) (derive ref layers waivers).rules);
  diagnostics = (derive ref layers waivers).found;
}
