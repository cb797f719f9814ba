-- ===== src/Contracts/Types/Decisions.antt =====
-- kernel/contracts/src/types.ts: A2 Decision Set.
use enistere_foundation.Base.{String, List, Option}
use enistere_foundation.Contracts.Refs.{ContractRef}

pub data DecisionStatus : Type 0 where
  proposed accepted rejected superseded : DecisionStatus

pub data Complexity : Type 0 where
  low medium high : Complexity

pub record DecisionOption : Type 0 where
  pub id : String
  pub summary : String
  pub satisfies : Option (List String)
  pub tradeoffs : Option (List String)
  pub risks : Option (List String)
  pub operational_complexity : Option Complexity

pub record Decision : Type 0 where
  pub id : String
  pub title : String
  pub category : String
  pub status : DecisionStatus
  pub context : String
  pub drivers : List String
  pub options : List DecisionOption
  pub chosen_option : Option String
  pub rationale : Option String
  pub consequences : Option (List String)
  pub supersedes : Option String

pub record DecisionSetSpec : Type 0 where
  pub system : String
  pub requirement_baseline : ContractRef
  pub decisions : List Decision
