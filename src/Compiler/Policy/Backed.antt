-- ===== src/Compiler/Policy/Backed.antt =====
-- kernel/compiler/src/policy.ts: what a waiver of a report rests on.
use enistere_foundation.Base.{
  String, Bool, true, false, ◌&&◌, List, [], ◌∷◌, Option, none, some, map, find, flat_map, any,
  ◌==◌, ◌≡◌, ◌⊎◌, refl, sym, subst, inl, inr, arith, Bool-cases, All, All-append, eq_refl, eq_iff,
}
use enistere_foundation.Base.Lists.Any.{All-mono}
use enistere_foundation.Base.Sorting.Order.{sort-All}
use enistere_foundation.Compiler.Ir.{SystemIr}
use enistere_foundation.Compiler.Policy.{
  PolicyReport, EvaluationWaiver, PolicyEvaluation, is_waived,
}
use enistere_foundation.Compiler.Policy.Catalog.{Subject, PolicyRule}
use enistere_foundation.Compiler.Policy.Evaluate.{
  Judged, judge, judge_check, judge_with, granted, waiver_from, judge_all, judge_rule, report_json,
  entry_of, evaluate_policies, compare_evaluations, waiver_of, before_waiver,
}
use enistere_foundation.Compiler.Resolve.{ResolvedSystem}
use enistere_foundation.Contracts.Diagnostics.{Diagnostic}
use enistere_foundation.Contracts.Digest.{returned, digest_of}
use enistere_foundation.Contracts.Refs.{effective_organization_context, plain_ref, format_ref}
use enistere_foundation.Contracts.Digest.Returns.{bind-eq-returned, returned-injective}
use enistere_foundation.Contracts.Json.{Json}
use enistere_foundation.Contracts.Types.Common.{Metadata}
use enistere_foundation.Contracts.Types.Context.{
  EffectiveOrganizationContextSpec, EffectiveRule, ContextWaiver, SourceType, layer, waiver,
}

-- A waived evaluation names a waiver of the context, which its rule has as its source.
abbrev pub grants : List ContextWaiver → EffectiveRule → Option EvaluationWaiver → Bool
grants waivers rule none = false
grants waivers rule (some e) =
    (rule.source.id == e.id)
    && any (λ (w : ContextWaiver). (w.id == e.id) && (w.expires_at == e.expires_at)) waivers

abbrev pub IsBacked : EffectiveOrganizationContextSpec → PolicyEvaluation → Type 0
IsBacked spec e =
    (is_waived e.outcome ≡ false)
    ⊎ (any (λ (rule : EffectiveRule). (rule.rule == e.rule) && grants spec.waivers rule e.waiver)
          spec.effective
        ≡ true)

-- The same, by the rule that is judged.
abbrev IsGranted : List ContextWaiver → EffectiveRule → PolicyEvaluation → Type 0
IsGranted waivers rule e =
    (is_waived e.outcome ≡ false) ⊎ (((rule.rule == e.rule) && grants waivers rule e.waiver) ≡ true)

find-named :
    (id : String) (ws : List ContextWaiver) (w : ContextWaiver)
    → find (λ (v : ContextWaiver). v.id == id) ws ≡ some w
    → ((id == w.id)
        && any (λ (v : ContextWaiver). (v.id == w.id) && (v.expires_at == w.expires_at)) ws)
      ≡ true
find-named id [] w h = cc
find-named id (v ∷ vs) w h = elim (Bool-cases (v.id == id)) [
  | inl here ↦
      let same : v ≡ w = ground (arith, h, here) in
      subst
        (λ (u : ContextWaiver).
          ((id == u.id)
            && any (λ (x : ContextWaiver). (x.id == u.id) && (x.expires_at == u.expires_at))
                (v ∷ vs))
          ≡ true)
        same
        (ground (
          arith,
          (eq_iff id v.id).1 (sym ((eq_iff v.id id).0 here)),
          eq_refl v.id,
          eq_refl v.expires_at,
        ))
  | inr away ↦ ground (arith, find-named id vs w (ground (arith, h, away)))
]

module _ (ref : String) (waivers : List ContextWaiver) (rule : EffectiveRule) where
  waiver_of-grants :
      (type : SourceType) (w : ContextWaiver)
      → waiver_from type rule.source.id waivers ≡ some w
      → grants waivers rule (some (record { id = w.id; expires_at = w.expires_at })) ≡ true
  waiver_of-grants layer w h = cc
  waiver_of-grants waiver w h = find-named rule.source.id waivers w h

  granted-IsGranted :
      (s : Subject) (check : Json → Bool) (w : Option ContextWaiver) (previous : Option Json)
      → waiver_of rule waivers ≡ w
      → IsGranted waivers rule (granted rule s check w previous)
  granted-IsGranted s check none previous h = inl refl
  granted-IsGranted s check (some w) none h = inl refl
  granted-IsGranted s check (some w) (some value) h = elim (Bool-cases (check value)) [
    | inl t ↦ rw t (inl refl)
    | inr t ↦ rw t (inr (ground (arith, eq_refl rule.rule, waiver_of-grants rule.source.type w h)))
  ]

  judge_check-IsGranted :
      (s : Subject) (check : Option (Json → Bool))
      → All
          (IsGranted waivers rule)
          (judge_check ref rule (waiver_of rule waivers) (before_waiver rule) s check).evaluations
  judge_check-IsGranted s none = (inl refl, tt)
  judge_check-IsGranted s (some check) = elim (Bool-cases (check rule.value)) [
    | inl t ↦
        rw t (granted-IsGranted s check (waiver_of rule waivers) (before_waiver rule) refl, tt)
    | inr t ↦ rw t (inl refl, tt)
  ]

  judge_all-IsGranted :
      (ss : List Subject)
      → All (IsGranted waivers rule) (
          flat_map
            (λ (j : Judged). j.evaluations)
            (map (judge ref rule (waiver_of rule waivers) (before_waiver rule)) ss))
  judge_all-IsGranted [] = tt
  judge_all-IsGranted (s ∷ ss) =
      All-append (IsGranted waivers rule)
        (judge ref rule (waiver_of rule waivers) (before_waiver rule) s).evaluations _
        (judge_check-IsGranted s s.check) (judge_all-IsGranted ss)

  judge_with-IsGranted :
      (ir : SystemIr) (resolved : ResolvedSystem) (entry : Option PolicyRule)
      → All (IsGranted waivers rule) (judge_with ref waivers ir resolved rule entry).evaluations
  judge_with-IsGranted ir resolved none = (inl refl, tt)
  judge_with-IsGranted ir resolved (some entry) =
      judge_all-IsGranted (entry.evaluate rule.rule ir resolved)

module _ (ref : String) (waivers : List ContextWaiver) (ir : SystemIr)
    (resolved : ResolvedSystem) where
  abbrev IsListed : List EffectiveRule → PolicyEvaluation → Type 0
  IsListed rules e =
      (is_waived e.outcome ≡ false)
      ⊎ (any (λ (rule : EffectiveRule). (rule.rule == e.rule) && grants waivers rule e.waiver) rules
          ≡ true)

  judge_rules-IsListed :
      (rules : List EffectiveRule)
      → All
          (IsListed rules)
          (judge_all (map (judge_rule ref waivers ir resolved) rules)).evaluations
  judge_rules-IsListed [] = tt
  judge_rules-IsListed (rule ∷ rules) =
      All-append (IsListed (rule ∷ rules)) (judge_rule ref waivers ir resolved rule).evaluations _
        (All-mono (IsGranted waivers rule) (IsListed (rule ∷ rules)) _ (λ e. first e)
          (judge_with-IsGranted ref waivers rule ir resolved (entry_of rule)))
        (All-mono (IsListed rules) (IsListed (rule ∷ rules)) _ (λ e. later e)
          (judge_rules-IsListed rules))
    where
      first : (e : PolicyEvaluation) → IsGranted waivers rule e → IsListed (rule ∷ rules) e
      first e (inl n) = inl n
      first e (inr g) = inr (ground (arith, g))

      later : (e : PolicyEvaluation) → IsListed rules e → IsListed (rule ∷ rules) e
      later e (inl n) = inl n
      later e (inr g) = inr (ground (arith, g))

module _ (sha256 : String → String) (metadata : Metadata) (spec : EffectiveOrganizationContextSpec)
    (ir : SystemIr) (resolved : ResolvedSystem) where
  -- When the evaluation of the policies returns, every WAIVED evaluation of the report carries
  -- the identifier and the expiry of a waiver of the context, and some effective rule of the
  -- same name has that waiver's identifier as that of its source.
  pub evaluate_policies-IsBacked :
      (report : PolicyReport) (found : List Diagnostic)
      → evaluate_policies sha256 metadata spec ir resolved ≡ returned (report, found)
      → All (IsBacked spec) report.evaluations
  unfolding evaluate_policies
  evaluate_policies-IsBacked report found h =
      let ref =
        format_ref (plain_ref effective_organization_context metadata.id metadata.revision) in
      let judged = judge_all (map (judge_rule ref spec.waivers ir resolved) spec.effective) in
      let (digest, _, e) = bind-eq-returned (digest_of sha256 (report_json ref judged)) _ h in
      subst (λ (q : PolicyReport × List Diagnostic). All (IsBacked spec) q.0.evaluations)
        (returned-injective e)
        (sort-All compare_evaluations (IsBacked spec) judged.evaluations
          (judge_rules-IsListed ref spec.waivers ir resolved spec.effective))
