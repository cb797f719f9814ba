-- ===== src/Contracts/Types/Baseline.antt =====
-- kernel/contracts/src/types.ts: A1 Requirement Baseline.
use enistere_foundation.Base.{String, List, Option}
use enistere_foundation.Contracts.Types.Common.{SourceArtifact}

pub data RequirementType : Type 0 where
  functional non_functional data_requirement integration ux_accessibility security constraint :
      RequirementType

pub data Priority : Type 0 where
  must should could wont : Priority

pub data RequirementStatus : Type 0 where
  inferred proposed accepted rejected deferred : RequirementStatus

pub record SourceRef : Type 0 where
  pub source : String
  pub locator : Option String

-- `{ id, statement }`: a goal or an acceptance criterion.
pub record Statement : Type 0 where
  pub id : String
  pub statement : String

pub record Requirement : Type 0 where
  pub id : String
  pub type : RequirementType
  pub statement : String
  pub priority : Priority
  pub status : RequirementStatus
  pub goals : Option (List String)
  pub actors : Option (List String)
  pub source_refs : Option (List SourceRef)
  pub acceptance_criteria : Option (List Statement)
  pub depends_on : Option (List String)
  pub conflicts_with : Option (List String)
  pub owner : Option String
  pub confidence : Option String

pub record BaselineActor : Type 0 where
  pub id : String
  pub name : String
  pub description : Option String

pub data Impact : Type 0 where
  blocking high deferrable : Impact

pub data AmbiguityStatus : Type 0 where
  opened resolved deferred : AmbiguityStatus

pub record Ambiguity : Type 0 where
  pub id : String
  pub question : String
  pub impact : Impact
  pub status : AmbiguityStatus
  pub related_requirements : Option (List String)
  pub resolution : Option String

pub record RequirementBaselineSpec : Type 0 where
  pub system : String
  pub sources : List SourceArtifact
  pub goals : List Statement
  pub actors : List BaselineActor
  pub requirements : List Requirement
  pub ambiguities : List Ambiguity
