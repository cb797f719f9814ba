-- ===== src/Engine/Materialize/Command.antt =====
-- `materialize` as a whole: the waiver gate, the plan and the loop.
use mathlib.Core.List.{Mem, mem-cons_self, not-mem-nil}
use enistere_foundation.Base.{
  String, ℕ, true, ◌&&◌, List, [], ◌∷◌, Option, none, some, ◌≡◌, ◌≢◌, ◌⊎◌, refl, sym, ap, subst,
  ◌∙◌, All, Any, Bool-cases, inl, inr,
}
use enistere_foundation.Contracts.Diagnostics.{Diagnostic, key, sort_diagnostics}
use enistere_foundation.Contracts.Diagnostics.Order.{keys, sort_diagnostics_lem}
use enistere_foundation.Contracts.Digest.{Result, returned}
use enistere_foundation.Compiler.Policy.{
  PolicyEvaluation, is_waived, expires_before, expired_waivers,
}
use enistere_foundation.Contracts.Digest.Returns.{bind-eq-returned, returned-injective}
use enistere_foundation.Engine.Materialize.{Directory, Compilation}
use enistere_foundation.Engine.Materialize.Apply.{Outcome, materialize_components}
use enistere_foundation.Engine.Materialize.Planning.{
  LoadedAdapter, PlanResult, Planned, waiver_expired, plan_compiled, plan_materialization,
  run_components, refuse, run_compiled, materialize_unless, materialize,
}
use enistere_foundation.Engine.Materialize.Workspace.{
  HasFile, directory_of, component_ids, subjects, materialize_components-subjects,
  materialize_components-HasFile,
}

sort_diagnostics-some : (d : Diagnostic) (ds : List Diagnostic) → sort_diagnostics (d ∷ ds) ≢ []
sort_diagnostics-some d ds e =
    let (_, _, same) = sort_diagnostics_lem (d ∷ ds) in
    not-mem-nil
      (subst (λ (xs : List Diagnostic). Mem (key d) (keys xs)) e ((same (key d)).1 mem-cons_self))

-- A waiver that the plan relies on has expired.
abbrev pub IsExpired : (String → Option ℕ) → String → PolicyEvaluation → Type 0
IsExpired date_parse at e = (is_waived e.outcome && expires_before date_parse at e.waiver) ≡ true

none-IsExpired :
    (date_parse : String → Option ℕ) (at : String) (es : List PolicyEvaluation)
    → expired_waivers date_parse es at ≡ []
    → All (λ e. ¬ IsExpired date_parse at e) es
unfolding expired_waivers
none-IsExpired date_parse at [] h = tt
none-IsExpired date_parse at (e ∷ es) h =
    elim (Bool-cases (is_waived e.outcome && expires_before date_parse at e.waiver)) [
      | inl y ↦ absurd (cc (rw y at h))
      | inr n ↦ ((λ y. cc (y, n)), none-IsExpired date_parse at es (rw n at h))
    ]

some-IsExpired :
    (date_parse : String → Option ℕ) (at : String) (es : List PolicyEvaluation)
    → expired_waivers date_parse es at ≢ []
    → Any (IsExpired date_parse at) es
unfolding expired_waivers
some-IsExpired date_parse at [] h = absurd (h refl)
some-IsExpired date_parse at (e ∷ es) h =
    elim (Bool-cases (is_waived e.outcome && expires_before date_parse at e.waiver)) [
      | inl y ↦ inl y
      | inr n ↦ inr (some-IsExpired date_parse at es (λ empty. h (rw n empty)))
    ]

module _ (sha256 : String → String) (host : List (String × LoadedAdapter))
    (date_parse : String → Option ℕ) (root : List String) (executed_at : String) where
  abbrev run : PlanResult → List (String × Directory) → Result Outcome
  run result workspace = materialize sha256 host date_parse root executed_at result workspace

  run_components-of :
      (compiled : Compilation) (p : Planned) (workspace : List (String × Directory)) (o : Outcome)
      → run_components sha256 host date_parse root executed_at compiled p workspace ≡ returned o
      → (before : Outcome) × (materialize_components sha256 compiled root executed_at p.components
            (record { workspace = workspace; records = []; diagnostics = p.diagnostics })
          ≡ returned before)
        × (o.workspace ≡ before.workspace)
        × (o.records ≡ before.records)
  unfolding run_components
  run_components-of compiled p workspace o h =
      let (before, loop, e) =
        bind-eq-returned
          (materialize_components sha256 compiled root executed_at p.components
            (record { workspace = workspace; records = []; diagnostics = p.diagnostics }))
          _ h in
      let same = returned-injective e in
      (
        before,
        loop,
        ap (λ (x : Outcome). x.workspace) (sym same),
        ap (λ (x : Outcome). x.records) (sym same),
      )

  -- What a run that the gate let through, or refused, gives.
  abbrev pub IsGated : PlanResult → List (String × Directory) → Outcome → Type 0
  IsGated result workspace o =
      (All (λ e. ¬ IsExpired date_parse executed_at e) result.policy
        × ((p : Planned) × (plan_materialization sha256 host result ≡ returned p)
            × (subjects o.records ≡ component_ids p.components)))
      ⊎ (Any (IsExpired date_parse executed_at) result.policy
          × (o.workspace ≡ workspace)
          × (o.records ≡ [])
          × (o.diagnostics ≢ []))

  refused_gated :
      (e : PolicyEvaluation) (expired : List PolicyEvaluation) (result : PlanResult)
      (workspace : List (String × Directory)) (o : Outcome)
      → returned
          (refuse sha256 host date_parse root executed_at (e ∷ expired) result.definition workspace)
        ≡ returned o
      → (o.workspace ≡ workspace) × (o.records ≡ []) × (o.diagnostics ≢ [])
  unfolding refuse
  refused_gated e expired result workspace o h =
      let same = sym (returned-injective h) in
      (
        ap (λ (x : Outcome). x.workspace) same,
        ap (λ (x : Outcome). x.records) same,
        λ empty.
            sort_diagnostics-some (waiver_expired result.definition e) _
              (sym (ap (λ (x : Outcome). x.diagnostics) same) ∙ empty),
      )

  compiled_subjects :
      (compiled : Option Compilation) (p : Planned) (workspace : List (String × Directory))
      (o : Outcome)
      → (compiled ≡ none → p.components ≡ [])
      → run_compiled sha256 host date_parse root executed_at compiled p workspace ≡ returned o
      → subjects o.records ≡ component_ids p.components
  unfolding run_compiled
  compiled_subjects none p workspace o none_planned h =
      ap (λ (x : Outcome). subjects x.records) (sym (returned-injective h))
      ∙ sym (ap component_ids (none_planned refl))
  compiled_subjects (some c) p workspace o none_planned h =
      let (before, loop, _, records) = run_components-of c p workspace o h in
      ap subjects records
      ∙ materialize_components-subjects sha256 c root executed_at p.components
          (record { workspace = workspace; records = []; diagnostics = p.diagnostics }) before loop

  nothing_planned :
      (compiled : Option Compilation) (result : PlanResult) (p : Planned)
      → plan_compiled sha256 host compiled result.components result.steps ≡ returned p
      → compiled ≡ none
      → p.components ≡ []
  unfolding plan_compiled
  nothing_planned none result p h e =
      ap (λ (q : Planned). q.components) (sym (returned-injective h))
  nothing_planned (some c) result p h e = cc

  unless-IsGated :
      (expired : List PolicyEvaluation) (result : PlanResult)
      (workspace : List (String × Directory)) (o : Outcome)
      → expired_waivers date_parse result.policy executed_at ≡ expired
      → materialize_unless sha256 host date_parse root executed_at expired result workspace
        ≡ returned o
      → IsGated result workspace o
  unfolding materialize_unless plan_materialization
  unless-IsGated [] result workspace o e h =
      let (p, plans, run) = bind-eq-returned (plan_materialization sha256 host result) _ h in
      inl (
        none-IsExpired date_parse executed_at result.policy e,
        (
          p,
          plans,
          compiled_subjects result.compiled p workspace o
              (nothing_planned result.compiled result p plans) run,
        ),
      )
  unless-IsGated (w ∷ expired) result workspace o e h =
      let (same, no_records, some_found) = refused_gated w expired result workspace o h in
      inr (
        some-IsExpired date_parse executed_at result.policy (λ empty. cc (e, empty)),
        same,
        no_records,
        some_found,
      )

  -- A run of `materialize` that returns is one of two. Either no waiver that an evaluation
  -- relies on has expired at the given instant, and the records are one for each planned
  -- component, in their order. Or some such waiver has expired, the workspace is as before,
  -- there is no record, and a diagnostic is reported.
  pub materialize-IsGated :
      (result : PlanResult) (workspace : List (String × Directory)) (o : Outcome)
      → materialize sha256 host date_parse root executed_at result workspace ≡ returned o
      → IsGated result workspace o
  unfolding materialize
  materialize-IsGated result workspace o h =
      unless-IsGated (expired_waivers date_parse result.policy executed_at) result workspace o refl
        h

  compiled_HasFile :
      (compiled : Option Compilation) (p : Planned) (workspace : List (String × Directory))
      (o : Outcome) (id path : String)
      → run_compiled sha256 host date_parse root executed_at compiled p workspace ≡ returned o
      → HasFile (directory_of workspace id).files path
      → HasFile (directory_of o.workspace id).files path
  unfolding run_compiled
  compiled_HasFile none p workspace o id path h there =
      subst (λ (x : Outcome). HasFile (directory_of x.workspace id).files path)
        (returned-injective h) there
  compiled_HasFile (some c) p workspace o id path h there =
      let (before, loop, same, _) = run_components-of c p workspace o h in
      subst (λ ws. HasFile (directory_of ws id).files path) (sym same)
        (materialize_components-HasFile sha256 c root executed_at p.components
          (record { workspace = workspace; records = []; diagnostics = p.diagnostics }) before id
          path loop there)

  unless-HasFile :
      (expired : List PolicyEvaluation) (result : PlanResult)
      (workspace : List (String × Directory)) (o : Outcome) (id path : String)
      → materialize_unless sha256 host date_parse root executed_at expired result workspace
        ≡ returned o
      → HasFile (directory_of workspace id).files path
      → HasFile (directory_of o.workspace id).files path
  unfolding materialize_unless
  unless-HasFile [] result workspace o id path h there =
      let (p, _, run) = bind-eq-returned (plan_materialization sha256 host result) _ h in
      compiled_HasFile result.compiled p workspace o id path run there
  unless-HasFile (e ∷ expired) result workspace o id path h there =
      let (same, _, _) = refused_gated e expired result workspace o h in
      subst (λ ws. HasFile (directory_of ws id).files path) (sym same) there

  -- A file that a component's directory holds before `materialize` is held by it when
  -- `materialize` returns: no run deletes a file, whichever components are planned.
  pub materialize-HasFile :
      (result : PlanResult) (workspace : List (String × Directory)) (o : Outcome) (id path : String)
      → materialize sha256 host date_parse root executed_at result workspace ≡ returned o
      → HasFile (directory_of workspace id).files path
      → HasFile (directory_of o.workspace id).files path
  unfolding materialize
  materialize-HasFile result workspace o id path h there =
      unless-HasFile (expired_waivers date_parse result.policy executed_at) result workspace o id
        path h there
