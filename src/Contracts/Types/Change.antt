-- ===== src/Contracts/Types/Change.antt =====
-- kernel/contracts/src/types.ts: A6 Change Request.
use enistere_foundation.Base.{String, List, Option, Bool}
use enistere_foundation.Contracts.Refs.{ContractRef}
use enistere_foundation.Contracts.Json.{Json}

pub data ChangeClassification : Type 0 where
  safe_automatic review_required migration_required manual_only unsupported : ChangeClassification

pub data ChangeOp : Type 0 where
  add replace remove : ChangeOp

pub record Change : Type 0 where
  pub op : ChangeOp
  pub path : String
  pub value : Option Json
  pub rationale : String

pub record OwnerWorkItem : Type 0 where
  pub id : String
  pub description : String
  pub component : Option String

pub record Migration : Type 0 where
  pub strategy : String
  pub reversible : Bool
  pub rollback : Option String

pub record ChangeImpact : Type 0 where
  pub components : List String
  pub evidence_to_invalidate : List ContractRef
  pub owner_work : List OwnerWorkItem
  pub migration : Option Migration

pub record ChangeRequestSpec : Type 0 where
  pub system : String
  pub base : ContractRef
  pub proposed : Option ContractRef
  pub trigger : String
  pub summary : String
  pub justified_by : List ContractRef
  pub changes : List Change
  pub classification : ChangeClassification
  pub impact : ChangeImpact
