-- ===== src/Contracts/Types/Common.antt =====
-- kernel/contracts/src/types.ts: what every contract document holds.
use enistere_foundation.Base.{String, ℕ, List, Option}
use enistere_foundation.Contracts.Refs.{ContractRef, Digest}

pub data ActorType : Type 0 where
  human ai_agent compiler checker observer system : ActorType

pub data ProvenanceOrigin : Type 0 where
  human import ai_proposal compiler checker observer migration : ProvenanceOrigin

pub record Actor : Type 0 where
  pub type : ActorType
  pub id : String
  pub role : Option String

pub record SourceArtifact : Type 0 where
  pub id : String
  pub type : String
  pub uri : String
  pub digest : Option Digest
  pub title : Option String

pub record Tool : Type 0 where
  pub name : String
  pub version : String

-- `confidence` is kept as the text of its number.
pub record Provenance : Type 0 where
  pub origin : ProvenanceOrigin
  pub actor : Actor
  pub tool : Option Tool
  pub sources : Option (List SourceArtifact)
  pub derived_from : Option (List ContractRef)
  pub confidence : Option String

pub record ExternalRef : Type 0 where
  pub type : String
  pub id : String
  pub version : String
  pub digest : Option Digest

pub data AcceptanceDecision : Type 0 where
  accepted rejected : AcceptanceDecision

pub record Acceptance : Type 0 where
  pub decision : AcceptanceDecision
  pub actor : Actor
  pub at : String
  pub rationale : Option String
  pub approval_policy : Option ExternalRef

pub data Status : Type 0 where
  draft proposed accepted rejected superseded : Status
  current stale : Status
  applied withdrawn : Status
  valid expired invalidated : Status

pub record Owner : Type 0 where
  pub team : String
  pub contact : Option String

pub record Metadata : Type 0 where
  pub id : String
  pub revision : ℕ
  pub title : String
  pub description : Option String
  pub status : Status
  pub owner : Option Owner
  pub provenance : Provenance
  pub acceptance : Option Acceptance
  pub supersedes : Option ContractRef
  pub labels : Option (List (String × String))
