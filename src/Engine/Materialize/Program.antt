-- ===== src/Engine/Materialize/Program.antt =====
-- What `materialize` guarantees of a whole workspace.
use enistere_foundation.Base.{
  String, ◌==◌, List, [], ◌∷◌, Option, none, some, find, ◌≡◌, refl, subst, All, Bool-cases, inl,
  inr,
}
use enistere_foundation.Base.Dict.{get}
use enistere_foundation.Contracts.Digest.{Result, returned, thrown, ◌>>=◌}
use enistere_foundation.Contracts.Types.Evidence.{AdapterId}
use enistere_foundation.Compiler.Ir.{IrComponent}
use enistere_foundation.Compiler.Plan.{
  PlanStep, materialize_step, connect_external_step, bind_capability_step,
}
use enistere_foundation.Extensions.Adapter.{Artifact, PlannedContents, plan_artifacts}
use enistere_foundation.Contracts.Digest.Returns.{bind-eq-returned, returned-injective}
use enistere_foundation.Extensions.Adapter.Laws.{IsPlan, plan_artifacts-IsPlan}
use enistere_foundation.Engine.Materialize.{PlannedComponent, Compilation}
use enistere_foundation.Engine.Materialize.Planning.{
  LoadedAdapter, PlanResult, Turn, skipped, reported, planned, Planned, guarded, intended,
  plan_component, plan_found, plan_with, plan_step, add_turn, plan_steps, plan_compiled,
  plan_materialization,
}

module _ (sha256 : String → String) where
  -- The component's plan is one that the kernel made of artifacts that the adapter gave.
  pub record IsAccepted (c : PlannedComponent) : Type 0 where
    pub artifacts : List Artifact
    pub accepted :
        IsPlan sha256 c.component artifacts (record { plan = c.plan; contents = c.contents })

  abbrev IsAcceptedTurn : Turn → Type 0
  IsAcceptedTurn skipped = Unit
  IsAcceptedTurn (reported ds) = Unit
  IsAcceptedTurn (planned c) = IsAccepted c

  guarded-IsAccepted :
      (definition : String) (loaded : LoadedAdapter) (component : IrComponent)
      (given : Result (List Artifact)) (r : Result PlannedContents)
      → (given >>= plan_artifacts sha256 loaded.describe component) ≡ r
      → IsAcceptedTurn (guarded definition loaded component r)
  guarded-IsAccepted definition loaded component given (thrown message) e = tt
  guarded-IsAccepted definition loaded component given (returned r) e =
      let (artifacts, _, plans) =
        bind-eq-returned given (plan_artifacts sha256 loaded.describe component) e in
      record {
        artifacts = artifacts;
        accepted = plan_artifacts-IsPlan sha256 loaded.describe component artifacts r plans;
      }

  module _ (host : List (String × LoadedAdapter)) where
    intended-IsAccepted :
        (definition : String) (loaded : LoadedAdapter) (component : IrComponent)
        (reasons : List String)
        → IsAcceptedTurn (intended sha256 host definition loaded component reasons)
    intended-IsAccepted definition loaded component [] =
        guarded-IsAccepted definition loaded component (loaded.plan component) _ refl
    intended-IsAccepted definition loaded component (reason ∷ reasons) = tt

    plan_component-IsAccepted :
        (definition : String) (loaded : LoadedAdapter) (component : IrComponent) (t : Turn)
        → plan_component sha256 host definition loaded component ≡ returned t
        → IsAcceptedTurn t
    unfolding plan_component
    plan_component-IsAccepted definition loaded component t h =
        let (reasons, _, e) = bind-eq-returned (loaded.validate_intent component) _ h in
        subst IsAcceptedTurn (returned-injective e)
          (intended-IsAccepted definition loaded component reasons)

    plan_found-IsAccepted :
        (definition : String) (loaded : LoadedAdapter) (component : Option IrComponent) (t : Turn)
        → plan_found sha256 host definition loaded component ≡ returned t
        → IsAcceptedTurn t
    unfolding plan_found
    plan_found-IsAccepted definition loaded none t h =
        subst IsAcceptedTurn (returned-injective h) tt
    plan_found-IsAccepted definition loaded (some component) t h =
        plan_component-IsAccepted definition loaded component t h

    plan_with-IsAccepted :
        (definition : String) (components : List IrComponent) (component : String)
        (adapter : AdapterId) (loaded : Option LoadedAdapter) (t : Turn)
        → plan_with sha256 host definition components component adapter loaded ≡ returned t
        → IsAcceptedTurn t
    unfolding plan_with
    plan_with-IsAccepted definition components component adapter none t h =
        subst IsAcceptedTurn (returned-injective h) tt
    plan_with-IsAccepted definition components component adapter (some loaded) t h =
        elim (Bool-cases (loaded.version == adapter.version)) [
          | inl e ↦
              plan_found-IsAccepted definition loaded
                (find (λ (c : IrComponent). c.id == component) components) t (rw e at h)
          | inr e ↦ subst IsAcceptedTurn (returned-injective (rw e at h)) tt
        ]

    plan_step-IsAccepted :
        (definition : String) (components : List IrComponent) (s : PlanStep) (t : Turn)
        → plan_step sha256 host definition components s ≡ returned t
        → IsAcceptedTurn t
    unfolding plan_step
    plan_step-IsAccepted definition components (materialize_step s) t h =
        plan_with-IsAccepted definition components s.component s.adapter (get host s.adapter.id) t h
    plan_step-IsAccepted definition components (connect_external_step s) t h =
        subst IsAcceptedTurn (returned-injective h) tt
    plan_step-IsAccepted definition components (bind_capability_step component capability provider)
          t h =
        subst IsAcceptedTurn (returned-injective h) tt

    add_turn-IsAccepted :
        (t : Turn) (p : Planned)
        → IsAcceptedTurn t
        → All IsAccepted p.components
        → All IsAccepted (add_turn sha256 host t p).components
    add_turn-IsAccepted skipped p h hs = hs
    add_turn-IsAccepted (reported ds) p h hs = hs
    add_turn-IsAccepted (planned c) p h hs = (h, hs)

    abbrev AreAccepted : Planned → Type 0
    AreAccepted p = All IsAccepted p.components

    plan_steps-IsAccepted :
        (definition : String) (components : List IrComponent) (steps : List PlanStep) (p : Planned)
        → plan_steps sha256 host definition components steps ≡ returned p
        → AreAccepted p
    unfolding plan_steps
    plan_steps-IsAccepted definition components [] p h = subst AreAccepted (returned-injective h) tt
    plan_steps-IsAccepted definition components (s ∷ steps) p h =
        let (turn, first, h') =
          bind-eq-returned (plan_step sha256 host definition components s) _ h in
        let (rest, later, e) =
          bind-eq-returned (plan_steps sha256 host definition components steps) _ h' in
        subst AreAccepted (returned-injective e) (
          add_turn-IsAccepted turn rest (plan_step-IsAccepted definition components s turn first)
            (plan_steps-IsAccepted definition components steps rest later))

    plan_compiled-IsAccepted :
        (compiled : Option Compilation) (components : List IrComponent) (steps : List PlanStep)
        (p : Planned)
        → plan_compiled sha256 host compiled components steps ≡ returned p
        → AreAccepted p
    unfolding plan_compiled
    plan_compiled-IsAccepted none components steps p h = subst AreAccepted (returned-injective h) tt
    plan_compiled-IsAccepted (some c) components steps p h =
        let (before, steps_planned, e) =
          bind-eq-returned (plan_steps sha256 host c.definition components steps) _ h in
        subst AreAccepted (returned-injective e)
          (plan_steps-IsAccepted c.definition components steps before steps_planned)

    -- Every component that `plan_materialization` plans, when it returns, has a plan that
    -- `plan_artifacts` accepts: whatever the adapters of the host do, its artifacts are sorted,
    -- distinct, safe and at hand.
    pub plan_materialization-IsAccepted :
        (result : PlanResult) (p : Planned)
        → plan_materialization sha256 host result ≡ returned p
        → All IsAccepted p.components
    unfolding plan_materialization
    plan_materialization-IsAccepted result p h =
        plan_compiled-IsAccepted result.compiled result.components result.steps p h
