-- ===== src/Compiler/Plan.antt =====
-- kernel/compiler/src/plan.ts: what a materialization would do. Without the digest of the plan.
pub mod Build
pub mod Complete
use enistere_foundation.Base.{String, List, Option}
use enistere_foundation.Compiler.Ir.{UnsupportedIntent}
use enistere_foundation.Compiler.Policy.{PolicyReport}
use enistere_foundation.Compiler.Resolve.{UnsupportedItem}
use enistere_foundation.Contracts.Refs.{Digest}
use enistere_foundation.Contracts.Types.Domain.{Enforcement}
use enistere_foundation.Contracts.Types.Evidence.{AdapterId}
use enistere_foundation.Contracts.Types.System.{OwnershipClass}

pub record ComponentStep : Type 0 where
  pub component : String
  pub adapter : AdapterId
  pub runtime : String
  pub ownership : OwnershipClass
  pub environments : List String
  pub contracts : List String

pub data PlanStep : Type 0 where
  materialize_step : ComponentStep → PlanStep
  connect_external_step : ComponentStep → PlanStep
  bind_capability_step : String → String → AdapterId → PlanStep

pub data OwnerWork : Type 0 where
  own_component : String → OwnershipClass → String → OwnerWork
  implement_operation : String → String → String → String → OwnerWork
  enforce_invariant : String → String → String → Enforcement → OwnerWork

pub record SharedContract : Type 0 where
  pub id : String
  pub domain : String
  pub provider : String
  pub consumers : List String
  pub digest : Digest

pub record PlannedDesign : Type 0 where
  pub component : String
  pub design_system : String
  pub context : String
  pub digest : Digest

pub record ProofObligation : Type 0 where
  pub component : String
  pub requirement : String

pub record PlanInputs : Type 0 where
  pub closure : Digest
  pub ir : Digest
  pub resolved : Digest

pub record ExecutionPlan : Type 0 where
  pub system : String
  pub inputs : PlanInputs
  pub steps : List PlanStep
  pub unsupported : List UnsupportedItem
  pub unsupported_intent : List UnsupportedIntent
  pub shared_contracts : List SharedContract
  pub design_bindings : List PlannedDesign
  pub policy : Option PolicyReport
  pub owner_work : List OwnerWork
  pub proof_obligations : List ProofObligation
