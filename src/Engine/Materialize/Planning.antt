-- ===== src/Engine/Materialize/Planning.antt =====
-- engine/materializer/src/materialize.ts: `planMaterialization`, and the whole of `materialize`.
-- An adapter of the host is its manifest's version and its three functions; the context that they are
-- given is fixed for the run. A `PlanResult` without plan, IR or definition has no `compiled` part.
use enistere_foundation.Base.{
  String, ℕ, ◌==◌, List, [], ◌∷◌, ◌++◌, Option, none, some, find, map, is_empty, ◌<>◌,
  if◌then◌else◌,
}
use enistere_foundation.Base.Dict.{get}
use enistere_foundation.Contracts.Diagnostics.{
  Diagnostic, diagnostic, engine_materializer, sort_diagnostics,
}
use enistere_foundation.Contracts.Diagnostics.Codes.{
  DiagnosticCode, materialize_adapter_missing, adapter_intent_rejected, adapter_contract_violation,
  materialize_waiver_expired,
}
use enistere_foundation.Contracts.Digest.{Result, returned, thrown, ◌>>=◌}
use enistere_foundation.Contracts.Types.Evidence.{AdapterId}
use enistere_foundation.Compiler.Ir.{IrComponent}
use enistere_foundation.Compiler.Plan.{
  PlanStep, materialize_step, connect_external_step, bind_capability_step,
}
use enistere_foundation.Compiler.Policy.{PolicyEvaluation, EvaluationWaiver, expired_waivers}
use enistere_foundation.Extensions.Adapter.{Artifact, PlannedContents, plan_artifacts}
use enistere_foundation.Engine.Materialize.{Directory, PlannedComponent, Compilation}
use enistere_foundation.Engine.Materialize.Apply.{Outcome, materialize_components}

pub record LoadedAdapter : Type 0 where
  pub id : String
  pub version : String
  pub describe : AdapterId
  pub validate_intent : IrComponent → Result (List String)
  pub plan : IrComponent → Result (List Artifact)

pub record PlanResult : Type 0 where
  pub compiled : Option Compilation
  pub definition : Option String
  pub components : List IrComponent
  pub steps : List PlanStep
  pub policy : List PolicyEvaluation

-- What one step of the plan gives.
pub data Turn : Type 0 where
  skipped : Turn
  reported : List Diagnostic → Turn
  planned : PlannedComponent → Turn

pub record Planned : Type 0 where
  pub components : List PlannedComponent
  pub diagnostics : List Diagnostic

abbrev report : DiagnosticCode → Option String → String → Diagnostic
report code definition message =
    diagnostic code message
      (record { ref = definition; path = none; layer = some engine_materializer })

-- The `catch` of the contract violation.
abbrev pub guarded : String → LoadedAdapter → IrComponent → Result PlannedContents → Turn
guarded definition loaded component (returned r) =
    planned (record { component = component; plan = r.plan; contents = r.contents })
guarded definition loaded component (thrown message) = reported (
    report adapter_contract_violation (some definition) (
      "adapter '" <> loaded.id <> "' produced an invalid plan for '" <> component.id <> "': "
      <> message)
    ∷ [])

abbrev rejections : String → LoadedAdapter → IrComponent → List String → List Diagnostic
rejections definition loaded component reasons =
    map
      (λ reason.
        report adapter_intent_rejected (some definition)
          ("adapter '" <> loaded.id <> "' rejects '" <> component.id <> "': " <> reason))
      reasons

-- `expired.length > 0`
abbrev waiver_id : Option EvaluationWaiver → String
waiver_id none = "undefined"
waiver_id (some w) = w.id

abbrev waiver_expiry : Option EvaluationWaiver → String
waiver_expiry none = "undefined"
waiver_expiry (some w) = w.expires_at

abbrev pub waiver_expired : Option String → PolicyEvaluation → Diagnostic
waiver_expired definition e = report materialize_waiver_expired definition (
    "waiver '"
    <> waiver_id e.waiver
    <> "' of rule '"
    <> e.rule
    <> "' expired at "
    <> waiver_expiry e.waiver)

module _ (sha256 : String → String) (host : List (String × LoadedAdapter)) where
  abbrev pub intended : String → LoadedAdapter → IrComponent → List String → Turn
  intended definition loaded component reasons =
      let rejected = reported (rejections definition loaded component reasons) in
      let accepted =
        guarded definition loaded component
          (loaded.plan component >>= plan_artifacts sha256 loaded.describe component) in
      if is_empty reasons then accepted else rejected

  -- What `validateIntent` throws is not caught.
  unfoldable pub plan_component : String → LoadedAdapter → IrComponent → Result Turn
  unfolding plan_artifacts diagnostic
  plan_component definition loaded component = do
    reasons ← loaded.validate_intent component
    returned (intended definition loaded component reasons)

  unfoldable pub plan_found : String → LoadedAdapter → Option IrComponent → Result Turn
  unfolding plan_component
  plan_found definition loaded none = returned skipped
  plan_found definition loaded (some component) = plan_component definition loaded component

  abbrev missing : String → AdapterId → Turn
  missing definition adapter = reported (
      report materialize_adapter_missing (some definition)
        ("adapter '" <> adapter.id <> "@" <> adapter.version <> "' is not loaded")
      ∷ [])

  unfoldable pub plan_with :
      String → List IrComponent → String → AdapterId → Option LoadedAdapter → Result Turn
  unfolding plan_found diagnostic
  plan_with definition components component adapter none = returned (missing definition adapter)
  plan_with definition components component adapter (some loaded) =
      let turn =
        plan_found definition loaded (find (λ (c : IrComponent). c.id == component) components) in
      if loaded.version == adapter.version then turn else returned (missing definition adapter)

  unfoldable pub plan_step : String → List IrComponent → PlanStep → Result Turn
  unfolding plan_with get
  plan_step definition components (materialize_step s) =
      plan_with definition components s.component s.adapter (get host s.adapter.id)
  plan_step definition components (connect_external_step s) = returned skipped
  plan_step definition components (bind_capability_step component capability provider) =
      returned skipped

  abbrev pub add_turn : Turn → Planned → Planned
  add_turn skipped p = p
  add_turn (reported ds) p = record p { diagnostics = ds ++ p.diagnostics }
  add_turn (planned c) p = record p { components = c ∷ p.components }

  unfoldable pub plan_steps : String → List IrComponent → List PlanStep → Result Planned
  unfolding plan_step
  plan_steps definition components [] = returned (record { components = []; diagnostics = [] })
  plan_steps definition components (s ∷ steps) = do
    turn ← plan_step definition components s
    rest ← plan_steps definition components steps
    returned (add_turn turn rest)

  unfoldable pub plan_compiled :
      Option Compilation → List IrComponent → List PlanStep → Result Planned
  unfolding plan_steps sort_diagnostics
  plan_compiled none components steps = returned (record { components = []; diagnostics = [] })
  plan_compiled (some c) components steps = do
    p ← plan_steps c.definition components steps
    returned (record p { diagnostics = sort_diagnostics p.diagnostics })

  unfoldable pub plan_materialization : PlanResult → Result Planned
  unfolding plan_compiled
  plan_materialization result = plan_compiled result.compiled result.components result.steps

  module _ (date_parse : String → Option ℕ) (root : List String) (executed_at : String) where
    unfoldable pub run_components :
        Compilation → Planned → List (String × Directory) → Result Outcome
    unfolding materialize_components sort_diagnostics
    run_components compiled p workspace = do
      o ←
          materialize_components sha256 compiled root executed_at p.components
            (record { workspace = workspace; records = []; diagnostics = p.diagnostics })
      returned (record o { diagnostics = sort_diagnostics o.diagnostics })

    -- Nothing is written: the plan relies on a waiver that no longer holds.
    unfoldable pub refuse :
        List PolicyEvaluation → Option String → List (String × Directory) → Outcome
    unfolding sort_diagnostics diagnostic
    refuse expired definition workspace = record {
      workspace = workspace;
      records = [];
      diagnostics = sort_diagnostics (map (waiver_expired definition) expired);
    }

    unfoldable pub run_compiled :
        Option Compilation → Planned → List (String × Directory) → Result Outcome
    unfolding run_components
    run_compiled none p workspace =
        returned (record { workspace = workspace; records = []; diagnostics = [] })
    run_compiled (some c) p workspace = run_components c p workspace

    unfoldable pub materialize_unless :
        List PolicyEvaluation → PlanResult → List (String × Directory) → Result Outcome
    unfolding plan_materialization run_compiled refuse
    materialize_unless [] result workspace = do
      p ← plan_materialization result
      run_compiled result.compiled p workspace
    materialize_unless (e ∷ expired) result workspace =
        returned (refuse (e ∷ expired) result.definition workspace)

    unfoldable pub materialize : PlanResult → List (String × Directory) → Result Outcome
    unfolding expired_waivers materialize_unless
    materialize result workspace =
        materialize_unless (expired_waivers date_parse result.policy executed_at) result workspace
