-- ===== src/Contracts/Types/Context.antt =====
-- kernel/contracts/src/types.ts: A3 Effective Organization Context.
use enistere_foundation.Base.{String, ℕ, List, Option, Bool}
use enistere_foundation.Contracts.Json.{Json}
use enistere_foundation.Contracts.Types.Common.{Actor, ExternalRef}

pub data ContextCategory : Type 0 where
  architecture runtime security data_category design quality deployment approval ai evidence :
      ContextCategory

pub data Scope : Type 0 where
  organization business_unit client product_line system : Scope

pub record ContextRule : Type 0 where
  pub id : String
  pub category : ContextCategory
  pub value : Json
  pub locked : Option Bool
  pub rationale : Option String

pub record ContextLayer : Type 0 where
  pub id : String
  pub scope : Scope
  pub precedence : ℕ
  pub source : ExternalRef
  pub rules : List ContextRule

pub record ContextWaiver : Type 0 where
  pub id : String
  pub rule : String
  pub value : Json
  pub reason : String
  pub approved_by : Actor
  pub expires_at : String

pub data SourceType : Type 0 where
  layer waiver : SourceType

pub data TraceOutcome : Type 0 where
  applied overridden refused_locked waived : TraceOutcome

pub record TraceEntry : Type 0 where
  pub from : SourceType
  pub id : String
  pub value : Json
  pub outcome : TraceOutcome
  pub reason : Option String

pub record RuleSource : Type 0 where
  pub type : SourceType
  pub id : String

pub record EffectiveRule : Type 0 where
  pub rule : String
  pub category : ContextCategory
  pub value : Json
  pub locked : Bool
  pub source : RuleSource
  pub trace : List TraceEntry

-- `derivation` is a constant of the type.
pub record EffectiveOrganizationContextSpec : Type 0 where
  pub system : String
  pub layers : List ContextLayer
  pub waivers : List ContextWaiver
  pub effective : List EffectiveRule
