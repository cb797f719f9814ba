-- ===== src/Compiler/Tests/Policy.antt =====
-- kernel/compiler/src/policy.ts on a context with a waiver.
use enistere_foundation.Base.{false, any, map, List, [], ◌∷◌, none, some, All, ◌≡◌, refl}
use enistere_foundation.Compiler.Ir.{SystemIr}
use enistere_foundation.Compiler.Policy.{PolicyReport, PolicyOutcome, PolicyEvaluation}
use enistere_foundation.Compiler.Policy.Backed.{IsBacked, evaluate_policies-IsBacked}
use enistere_foundation.Compiler.Policy.Blocking.{
  is_violated, is_violation, is_broken, evaluate_policies-blocks,
}
use enistere_foundation.Compiler.Policy.Evaluate.{evaluate_policies}
use enistere_foundation.Compiler.Resolve.{ResolvedSystem, resolve_components}
use enistere_foundation.Compiler.Tests.{two, api, constant}
use enistere_foundation.Compiler.Tests.Ir.{metadata}
use enistere_foundation.Contracts.Diagnostics.{Diagnostic}
use enistere_foundation.Contracts.Digest.{Result, returned, thrown}
use enistere_foundation.Contracts.Json.{text, array, array_of}
use enistere_foundation.Contracts.Types.Common.{ActorType}
use enistere_foundation.Contracts.Types.Context.{
  ContextCategory, EffectiveOrganizationContextSpec, EffectiveRule, SourceType, TraceOutcome,
}

abbrev allowed : EffectiveRule
allowed = record {
  rule = "runtime.api.allowed";
  category = ContextCategory.runtime;
  value = array (array_of (text "jvm" ∷ text "node" ∷ []));
  locked = false;
  source = record { type = SourceType.waiver; id = "w1" };
  trace =
      record {
        from = SourceType.layer;
        id = "org";
        value = array (array_of (text "jvm" ∷ []));
        outcome = TraceOutcome.applied;
        reason = none;
      }
      ∷ record {
        from = SourceType.waiver;
        id = "w1";
        value = array (array_of (text "jvm" ∷ text "node" ∷ []));
        outcome = TraceOutcome.waived;
        reason = none;
      }
      ∷ [];
}

abbrev residency : EffectiveRule
residency = record {
  rule = "data.residency";
  category = ContextCategory.data_category;
  value = text "eu";
  locked = false;
  source = record { type = SourceType.layer; id = "org" };
  trace = [];
}

abbrev other : EffectiveRule
other = record residency { rule = "runtime..allowed" }

abbrev context : EffectiveOrganizationContextSpec
context = record {
  system = "shop";
  layers = [];
  waivers =
      record {
        id = "w1";
        rule = "runtime.api.allowed";
        value = array (array_of (text "jvm" ∷ text "node" ∷ []));
        reason = "migration";
        approved_by = record { type = ActorType.human; id = "ann"; role = none };
        expires_at = "2027-01-01T00:00:00Z";
      }
      ∷ [];
  effective = allowed ∷ residency ∷ other ∷ [];
}

abbrev ir : SystemIr
ir = record {
  system = "shop";
  definition = "d";
  environments =
      record { id = "prod"; kind = "production"; deployment_mode = "saas"; region = some "eu-west" }
      ∷ record { id = "test"; kind = "test"; deployment_mode = "saas"; region = some "us-east" }
      ∷ [];
  integrations = [];
  components = api ("node" ∷ []) ∷ [];
  domains = [];
  design_bindings = [];
  operation_bindings = [];
  event_bindings = [];
  unsupported = [];
}

abbrev chosen : ResolvedSystem
chosen = record {
  system = "shop";
  ir = "sha256:0";
  catalog = "sha256:0";
  components = (resolve_components two "d" ir.components).value;
  unsupported_items = [];
  digest = "sha256:0";
}

abbrev evaluated : Result (PolicyReport × List Diagnostic)
evaluated = evaluate_policies constant (metadata "org") context ir chosen

abbrev evaluation_in : Result (PolicyReport × List Diagnostic) → PolicyReport × List Diagnostic
evaluation_in (returned r) = r
evaluation_in (thrown message) = (record { context = ""; evaluations = []; digest = "" }, [])

abbrev reported : PolicyReport × List Diagnostic
reported = evaluation_in evaluated

evaluated_returned : evaluated ≡ returned (reported.0, reported.1)
unfolding evaluate_policies resolve_components
evaluated_returned = refl

-- The waiver alone allows the runtime, and one environment is outside the residency.
outcomes :
    map (λ (e : PolicyEvaluation). e.outcome) reported.0.evaluations
    ≡ PolicyOutcome.satisfied ∷ PolicyOutcome.violated ∷ PolicyOutcome.not_evaluated
      ∷ PolicyOutcome.waived ∷ []
unfolding evaluate_policies resolve_components
outcomes = refl

evaluate_policies-blocks_example :
    (any is_violated reported.0.evaluations ≡ any (is_broken ir chosen) context.effective)
    × (any is_violation reported.1 ≡ any (is_broken ir chosen) context.effective)
evaluate_policies-blocks_example =
    evaluate_policies-blocks constant (metadata "org") context ir chosen reported.0 reported.1
      evaluated_returned

evaluate_policies-IsBacked_example : All (IsBacked context) reported.0.evaluations
evaluate_policies-IsBacked_example =
    evaluate_policies-IsBacked constant (metadata "org") context ir chosen reported.0 reported.1
      evaluated_returned
