-- ===== src/Compiler/Policy/Blocking.antt =====
-- kernel/compiler/src/policy.ts: which evaluations block a compilation.
use enistere_foundation.Base.{
  String, Bool, true, false, not, ◌||◌, List, Option, none, some, map, flat_map, any, ◌≡◌, refl, ap,
  ◌∙◌, subst, inl, inr, Bool-cases,
}
use enistere_foundation.Base.Lists.Any.{any-map, any-flat_map, any-ext}
use enistere_foundation.Base.Sorting.Order.{any-sort}
use enistere_foundation.Compiler.Ir.{SystemIr}
use enistere_foundation.Compiler.Policy.{PolicyReport, violated, PolicyEvaluation}
use enistere_foundation.Compiler.Policy.Catalog.{Subject, PolicyRule, policy_catalog}
use enistere_foundation.Compiler.Policy.Evaluate.{
  Judged, judge_check, judge_with, granted, judge_all, judge_rule, report_json, entry_of,
  evaluate_policies, compare_evaluations, waiver_of, before_waiver,
}
use enistere_foundation.Compiler.Resolve.{ResolvedSystem}
use enistere_foundation.Contracts.Diagnostics.{Diagnostic, diagnostic}
use enistere_foundation.Contracts.Diagnostics.Codes.{policy_violation}
use enistere_foundation.Contracts.Digest.{returned, digest_of}
use enistere_foundation.Contracts.Refs.{effective_organization_context, plain_ref, format_ref}
use enistere_foundation.Contracts.Digest.Returns.{bind-eq-returned, returned-injective}
use enistere_foundation.Contracts.Json.{Json}
use enistere_foundation.Contracts.Types.Common.{Metadata}
use enistere_foundation.Contracts.Types.Context.{
  EffectiveOrganizationContextSpec, EffectiveRule, ContextWaiver,
}

abbrev pub is_violated : PolicyEvaluation → Bool
is_violated e = elim e.outcome [ violated ↦ true | _ ↦ false ]

abbrev pub is_violation : Diagnostic → Bool
is_violation d = elim d.code [ policy_violation ↦ true | _ ↦ false ]

-- The rule is interpreted, and a subject of it has a check that the effective value fails.
abbrev pub fails : Json → Option (Json → Bool) → Bool
fails value none = false
fails value (some check) = not (check value)

abbrev pub breaks_entry : SystemIr → ResolvedSystem → EffectiveRule → Option PolicyRule → Bool
breaks_entry ir resolved rule none = false
breaks_entry ir resolved rule (some entry) =
    any (λ (s : Subject). fails rule.value s.check) (entry.evaluate rule.rule ir resolved)

abbrev pub is_broken : SystemIr → ResolvedSystem → EffectiveRule → Bool
is_broken ir resolved rule = breaks_entry ir resolved rule (entry_of rule)

-- A test of what a loop pushes, by a test of what each of its turns pushes.
judged_any :
    {A B : Type 0} (turn : A → Judged) {q : A → Bool} (p : B → Bool) (part : Judged → List B)
    (xs : List A)
    → ((x : A) → any p (part (turn x)) ≡ q x)
    → any p (flat_map part (map turn xs)) ≡ any q xs
judged_any turn p part xs h =
    any-flat_map p part (map turn xs) ∙ any-map _ turn xs ∙ any-ext _ _ xs h

module _ (ref : String) (waivers : List ContextWaiver) (ir : SystemIr) (resolved : ResolvedSystem)
    (rule : EffectiveRule) where
  granted-violated :
      (s : Subject) (check : Json → Bool) (w : Option ContextWaiver) (previous : Option Json)
      → is_violated (granted rule s check w previous) ≡ false
  granted-violated s check none previous = refl
  granted-violated s check (some w) none = refl
  granted-violated s check (some w) (some value) = elim (Bool-cases (check value)) [
    | inl h ↦ rw h refl
    | inr h ↦ rw h refl
  ]

  judge_check-violated :
      (w : Option ContextWaiver) (previous : Option Json) (s : Subject)
      (check : Option (Json → Bool))
      → (any is_violated (judge_check ref rule w previous s check).evaluations
          ≡ fails rule.value check)
        × (any is_violation (judge_check ref rule w previous s check).found
            ≡ fails rule.value check)
  unfolding diagnostic
  judge_check-violated w previous s none = (refl, refl)
  judge_check-violated w previous s (some check) = elim (Bool-cases (check rule.value)) [
    | inl h ↦ (rw h (ap (λ b. b || false) (granted-violated s check w previous)), rw h refl)
    | inr h ↦ (rw h refl, rw h refl)
  ]

  judge_with-violated :
      (entry : Option PolicyRule)
      → (any is_violated (judge_with ref waivers ir resolved rule entry).evaluations
          ≡ breaks_entry ir resolved rule entry)
        × (any is_violation (judge_with ref waivers ir resolved rule entry).found
            ≡ breaks_entry ir resolved rule entry)
  unfolding diagnostic
  judge_with-violated none = (refl, refl)
  judge_with-violated (some entry) = (
    judged_any _ is_violated (λ j. j.evaluations) (entry.evaluate rule.rule ir resolved)
        (λ s. (judge_check-violated (waiver_of rule waivers) (before_waiver rule) s s.check).0),
    judged_any _ is_violation (λ j. j.found) (entry.evaluate rule.rule ir resolved)
        (λ s. (judge_check-violated (waiver_of rule waivers) (before_waiver rule) s s.check).1),
  )

module _ (sha256 : String → String) (metadata : Metadata) (spec : EffectiveOrganizationContextSpec)
    (ir : SystemIr) (resolved : ResolvedSystem) where
  -- When the evaluation of the policies returns, the report has a VIOLATED evaluation, and the
  -- diagnostics a POLICY_VIOLATION, exactly when some effective rule of the context is
  -- interpreted and has a subject whose check the effective value fails.
  pub evaluate_policies-blocks :
      (report : PolicyReport) (found : List Diagnostic)
      → evaluate_policies sha256 metadata spec ir resolved ≡ returned (report, found)
      → (any is_violated report.evaluations ≡ any (is_broken ir resolved) spec.effective)
        × (any is_violation found ≡ any (is_broken ir resolved) spec.effective)
  unfolding evaluate_policies policy_catalog
  evaluate_policies-blocks report found h =
      let ref =
        format_ref (plain_ref effective_organization_context metadata.id metadata.revision) in
      let judged = judge_all (map (judge_rule ref spec.waivers ir resolved) spec.effective) in
      let (digest, _, e) = bind-eq-returned (digest_of sha256 (report_json ref judged)) _ h in
      let kept = returned-injective e in
      let blocked =
        judged_any _ is_violated (λ j. j.evaluations) spec.effective
          (λ rule. (judge_with-violated ref spec.waivers ir resolved rule (entry_of rule)).0) in
      let listed =
        judged_any _ is_violation (λ j. j.found) spec.effective
          (λ rule. (judge_with-violated ref spec.waivers ir resolved rule (entry_of rule)).1) in
      subst
        (λ (q : PolicyReport × List Diagnostic).
          (any is_violated q.0.evaluations ≡ any (is_broken ir resolved) spec.effective)
          × (any is_violation q.1 ≡ any (is_broken ir resolved) spec.effective))
        kept (any-sort compare_evaluations is_violated judged.evaluations ∙ blocked, listed)
