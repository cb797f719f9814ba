-- ===== src/Compiler/Policy/Evaluate.antt =====
-- kernel/compiler/src/policy.ts: the evaluation of the rules of a context.
use Prim.Native.Nat.{Ordering}
use enistere_foundation.Base.{
  String, Bool, true, false, not, List, [], ◌∷◌, Option, none, some, map, find, keep, last?,
  flat_map, get_or, compare_text, ◌==◌, ◌<>◌, if◌then◌else◌,
}
use enistere_foundation.Base.Sorting.{sort}
use enistere_foundation.Base.Sorting.Order.{by, or_by}
use enistere_foundation.Compiler.Ir.{SystemIr}
use enistere_foundation.Compiler.Policy.{
  PolicyOutcome, satisfied, waived, violated, not_applicable, not_evaluated, EvaluationWaiver,
  PolicyEvaluation, PolicyReport,
}
use enistere_foundation.Compiler.Policy.Catalog.{Subject, PolicyRule, policy_catalog}
use enistere_foundation.Compiler.Resolve.{ResolvedSystem}
use enistere_foundation.Contracts.Context.{category_text}
use enistere_foundation.Contracts.Diagnostics.{
  Diagnostic, DiagnosticInput, diagnostic, kernel_compiler,
}
use enistere_foundation.Contracts.Diagnostics.Codes.{policy_violation, policy_not_evaluated}
use enistere_foundation.Contracts.Digest.{Result, returned, ◌>>=◌, digest_of}
use enistere_foundation.Contracts.Json.{Json, null, text, array, object, array_of, object_of}
use enistere_foundation.Contracts.Json.Stringify.{json_stringify}
use enistere_foundation.Contracts.Refs.{effective_organization_context, plain_ref, format_ref}
use enistere_foundation.Contracts.Types.Common.{Metadata}
use enistere_foundation.Contracts.Types.Context.{
  EffectiveOrganizationContextSpec, EffectiveRule, ContextWaiver, TraceEntry, TraceOutcome,
  SourceType, layer, waiver,
}

-- An entry of a layer that the lock of another did not refuse.
abbrev counts : SourceType → TraceOutcome → Bool
counts layer TraceOutcome.refused_locked = false
counts layer _ = true
counts waiver _ = false

abbrev value_of : Option TraceEntry → Option Json
value_of none = none
value_of (some e) = some e.value

-- The value a rule had before its waiver, when the waiver decided it.
abbrev before_of : SourceType → List TraceEntry → Option Json
before_of layer trace = none
before_of waiver trace = value_of (last? (keep (λ e. counts e.from e.outcome) trace))

abbrev pub before_waiver : EffectiveRule → Option Json
before_waiver rule = before_of rule.source.type rule.trace

abbrev pub waiver_from : SourceType → String → List ContextWaiver → Option ContextWaiver
waiver_from layer id waivers = none
waiver_from waiver id waivers = find (λ w. w.id == id) waivers

abbrev pub waiver_of : EffectiveRule → List ContextWaiver → Option ContextWaiver
waiver_of rule waivers = waiver_from rule.source.type rule.source.id waivers

-- What one subject, or one rule, pushes on the evaluations and on the diagnostics.
pub record Judged : Type 0 where
  pub evaluations : List PolicyEvaluation
  pub found : List Diagnostic

abbrev about : String → DiagnosticInput
about ref = record { ref = some ref; path = none; layer = some kernel_compiler }

abbrev pub evaluation :
    EffectiveRule
    → Option String
    → Json
    → PolicyOutcome
    → Option EvaluationWaiver
    → Option String
    → PolicyEvaluation
evaluation rule subject actual outcome w reason = record {
  rule = rule.rule;
  category = category_text rule.category;
  subject = subject;
  outcome = outcome;
  expected = rule.value;
  actual = actual;
  waiver = w;
  reason = reason;
}

abbrev pub not_interpreted : String → EffectiveRule → Judged
not_interpreted ref rule = record {
  evaluations =
      evaluation rule none null not_evaluated none
        (some "the compiler does not interpret this rule")
      ∷ [];
  found =
      diagnostic policy_not_evaluated
        ("rule '" <> rule.rule <> "' is not evaluated by the compiler") (about ref)
      ∷ [];
}

abbrev pub violates : String → EffectiveRule → Subject → Judged
violates ref rule s = record {
  evaluations = evaluation rule (some s.subject) s.actual violated none none ∷ [];
  found =
      diagnostic policy_violation
        ("'"
          <> s.subject
          <> "' violates rule '"
          <> rule.rule
          <> "': "
          <> json_stringify s.actual
          <> " is not allowed by "
          <> json_stringify rule.value)
        (about ref)
      ∷ [];
}

abbrev by_waiver : EffectiveRule → Subject → ContextWaiver → PolicyEvaluation
by_waiver rule s w =
    evaluation rule (some s.subject) s.actual waived
      (some (record { id = w.id; expires_at = w.expires_at })) (some w.reason)

abbrev satisfies : EffectiveRule → Subject → PolicyEvaluation
satisfies rule s = evaluation rule (some s.subject) s.actual satisfied none none

-- `waived`: there is a waiver, there is a value before it, and the subject does not satisfy that value.
abbrev pub granted :
    EffectiveRule → Subject → (Json → Bool) → Option ContextWaiver → Option Json → PolicyEvaluation
granted rule s check none previous = satisfies rule s
granted rule s check (some w) none = satisfies rule s
granted rule s check (some w) (some value) =
    if not (check value) then by_waiver rule s w else satisfies rule s

abbrev pub judge_check :
    String
    → EffectiveRule
    → Option ContextWaiver
    → Option Json
    → Subject
    → Option (Json → Bool)
    → Judged
judge_check ref rule w previous s none = record {
  evaluations = evaluation rule (some s.subject) s.actual not_applicable none s.reason ∷ [];
  found = [];
}
judge_check ref rule w previous s (some check) =
    if not (check rule.value)
    then violates ref rule s
    else record { evaluations = granted rule s check w previous ∷ []; found = [] }

abbrev pub judge : String → EffectiveRule → Option ContextWaiver → Option Json → Subject → Judged
judge ref rule w previous s = judge_check ref rule w previous s s.check

abbrev pub judge_all : List Judged → Judged
judge_all js = record {
  evaluations = flat_map (λ j. j.evaluations) js;
  found = flat_map (λ j. j.found) js;
}

abbrev pub judge_with :
    String
    → List ContextWaiver
    → SystemIr
    → ResolvedSystem
    → EffectiveRule
    → Option PolicyRule
    → Judged
judge_with ref waivers ir resolved rule none = not_interpreted ref rule
judge_with ref waivers ir resolved rule (some entry) = judge_all (
    map (judge ref rule (waiver_of rule waivers) (before_waiver rule))
      (entry.evaluate rule.rule ir resolved))

-- `CATALOG.find((candidate) => candidate.pattern.test(rule.rule))`
abbrev pub entry_of : EffectiveRule → Option PolicyRule
entry_of rule = find (λ (p : PolicyRule). p.pattern rule.rule) policy_catalog

-- One turn of the loop over the effective rules.
abbrev pub judge_rule :
    String → List ContextWaiver → SystemIr → ResolvedSystem → EffectiveRule → Judged
judge_rule ref waivers ir resolved rule = judge_with ref waivers ir resolved rule (entry_of rule)

abbrev pub compare_evaluations : PolicyEvaluation → PolicyEvaluation → Ordering
compare_evaluations =
    or_by (by compare_text (λ e. e.rule)) (by compare_text (λ e. get_or e.subject ""))

abbrev outcome_text : PolicyOutcome → String
outcome_text satisfied = "SATISFIED"
outcome_text waived = "WAIVED"
outcome_text violated = "VIOLATED"
outcome_text not_applicable = "NOT_APPLICABLE"
outcome_text not_evaluated = "NOT_EVALUATED"

abbrev optional_text : Option String → Json
optional_text none = null
optional_text (some t) = text t

abbrev waiver_json : Option EvaluationWaiver → Json
waiver_json none = null
waiver_json (some w) =
    object (object_of (("id", text w.id) ∷ ("expiresAt", text w.expires_at) ∷ []))

abbrev pub evaluation_json : PolicyEvaluation → Json
evaluation_json e = object (
    object_of (
      ("rule", text e.rule)
      ∷ ("category", text e.category)
      ∷ ("expected", e.expected)
      ∷ ("subject", optional_text e.subject)
      ∷ ("outcome", text (outcome_text e.outcome))
      ∷ ("actual", e.actual)
      ∷ ("waiver", waiver_json e.waiver)
      ∷ ("reason", optional_text e.reason)
      ∷ []))

-- The content that is digested.
abbrev pub report_json : String → Judged → Json
report_json ref judged = object (
    object_of (
      ("context", text ref)
      ∷ (
        "evaluations",
        array (array_of (map evaluation_json (sort compare_evaluations judged.evaluations))),
      )
      ∷ []))

module _ (sha256 : String → String) where
  abbrev pub report_of : String → Judged → Result (PolicyReport × List Diagnostic)
  report_of ref judged = do
    digest ← digest_of sha256 (report_json ref judged)
    returned (
      record {
        context = ref;
        evaluations = sort compare_evaluations judged.evaluations;
        digest = digest;
      },
      judged.found,
    )

  unfoldable pub evaluate_policies :
      Metadata
      → EffectiveOrganizationContextSpec
      → SystemIr
      → ResolvedSystem
      → Result (PolicyReport × List Diagnostic)
  unfolding format_ref policy_catalog diagnostic json_stringify category_text sort compare_text
      digest_of
  evaluate_policies metadata spec ir resolved =
      let ref =
        format_ref (plain_ref effective_organization_context metadata.id metadata.revision) in
      report_of ref (judge_all (map (judge_rule ref spec.waivers ir resolved) spec.effective))
