-- ===== src/Contracts/Tests/Derivation.antt =====
-- The derivation of A3 on two layers and a waiver.
use enistere_foundation.Base.{
  String, Bool, true, List, [], ◌∷◌, Option, none, some, map, All, ◌≡◌, refl,
}
use enistere_foundation.Base.Dict.{get}
use enistere_foundation.Contracts.Context.{Derivation, apply_layers, derive_effective_rules}
use enistere_foundation.Contracts.Context.Locks.{IsLockedAs, apply_layers-IsLockedAs}
use enistere_foundation.Contracts.Context.Trace.{IsTraced, derive_effective_rules-IsTraced}
use enistere_foundation.Contracts.Json.{text}
use enistere_foundation.Contracts.Types.Common.{ActorType, ExternalRef}
use enistere_foundation.Contracts.Types.Context.{
  data_category, ContextLayer, ContextRule, ContextWaiver, Scope, layer, TraceOutcome, applied,
  overridden, refused_locked, waived, TraceEntry, EffectiveRule,
}

abbrev residency : String → Option Bool → ContextRule
residency region locked = record {
  id = "data.residency";
  category = data_category;
  value = text region;
  locked = locked;
  rationale = none;
}

abbrev policy : ExternalRef
policy = record { type = "policy"; id = "p"; version = "1"; digest = none }

abbrev group_layer : ContextLayer
group_layer = record {
  id = "group";
  scope = Scope.organization;
  precedence = 1;
  source = policy;
  rules = residency "eu" (some true) ∷ [];
}

abbrev client_layer : ContextLayer
client_layer = record {
  id = "client";
  scope = Scope.client;
  precedence = 2;
  source = policy;
  rules = residency "us" none ∷ [];
}

abbrev exception : ContextWaiver
exception = record {
  id = "w1";
  rule = "data.residency";
  value = text "ch";
  reason = "migration";
  approved_by = record { type = ActorType.human; id = "ana"; role = none };
  expires_at = "2026-01-01T00:00:00Z";
}

abbrev outcomes : EffectiveRule → List TraceOutcome
outcomes r = map (λ (e : TraceEntry). e.outcome) r.trace

-- The locked value is overridden by the waiver alone.
derive_run :
    map outcomes
      (derive_effective_rules (client_layer ∷ group_layer ∷ []) (exception ∷ []) "").effective
    ≡ (overridden ∷ refused_locked ∷ waived ∷ []) ∷ []
unfolding derive_effective_rules
derive_run = refl

derive_effective_rules-IsTraced_example :
    All
      (λ (r : EffectiveRule). IsTraced r.value r.source r.trace)
      (derive_effective_rules (client_layer ∷ group_layer ∷ []) (exception ∷ []) "").effective
derive_effective_rules-IsTraced_example =
    derive_effective_rules-IsTraced (client_layer ∷ group_layer ∷ []) (exception ∷ []) ""

abbrev after_group : Derivation
after_group = record {
  rules =
      (
        "data.residency",
        record {
          category = data_category;
          value = text "eu";
          locked = true;
          source = record { type = layer; id = "group" };
          trace =
              record {
                from = layer;
                id = "group";
                value = text "eu";
                outcome = applied;
                reason = none;
              }
              ∷ [];
        },
      )
      ∷ [];
  found = [];
}

group_lock :
    IsLockedAs
      (text "eu")
      (record { type = layer; id = "group" })
      after_group.rules
      "data.residency"
unfolding get
group_lock = record {
  working = _;
  there = refl;
  lock = refl;
  same_value = refl;
  same_source = refl;
}

apply_layers-IsLockedAs_example :
    IsLockedAs
      (text "eu")
      (record { type = layer; id = "group" })
      (apply_layers "" ((0, client_layer) ∷ []) after_group).rules
      "data.residency"
apply_layers-IsLockedAs_example =
    apply_layers-IsLockedAs (text "eu") (record { type = layer; id = "group" }) "data.residency" ""
      ((0, client_layer) ∷ []) after_group group_lock
