-- ===== src/Contracts/Types/Evidence.antt =====
-- kernel/contracts/src/types.ts: A7 EvidenceRecord and A8 MaterializationRecord.
use enistere_foundation.Base.{String, List, Option}
use enistere_foundation.Contracts.Refs.{ContractRef, Digest}
use enistere_foundation.Contracts.Types.Common.{Actor}

pub data EvidenceResult : Type 0 where
  pass fail inconclusive not_applicable unsupported error : EvidenceResult

pub data CheckerMode : Type 0 where
  automated human_review : CheckerMode

pub record EvidenceSubject : Type 0 where
  pub contract : ContractRef
  pub component : Option String

pub record Obligation : Type 0 where
  pub id : String
  pub statement : String
  pub source : ContractRef

pub record Checker : Type 0 where
  pub id : String
  pub version : String
  pub mode : CheckerMode

pub record EvidenceEnvironment : Type 0 where
  pub id : String
  pub kind : String
  pub attributes : Option (List (String × String))

pub record EvidenceArtifact : Type 0 where
  pub uri : String
  pub media_type : String
  pub digest : Option Digest

pub record WaiverRef : Type 0 where
  pub context : ContractRef
  pub waiver : String

pub record Invalidation : Type 0 where
  pub reason : String
  pub by : ContractRef

pub record EvidenceRecordSpec : Type 0 where
  pub system : String
  pub subject : EvidenceSubject
  pub obligation : Obligation
  pub checker : Checker
  pub produced_by : Actor
  pub environment : EvidenceEnvironment
  pub result : EvidenceResult
  pub summary : Option String
  pub observed_at : String
  pub expires_at : Option String
  pub inputs : List ContractRef
  pub artifacts : List EvidenceArtifact
  pub waiver : Option WaiverRef
  pub invalidation : Option Invalidation

pub data WriteDecision : Type 0 where
  create update unchanged keep_owner conflict : WriteDecision

pub data MaterializationOutcome : Type 0 where
  applied conflict : MaterializationOutcome

pub data ArtifactOwnership : Type 0 where
  compiler_owned owner_seeded : ArtifactOwnership

pub record AdapterId : Type 0 where
  pub id : String
  pub version : String

pub record MaterializationSubject : Type 0 where
  pub contract : ContractRef
  pub component : String

pub record RecordedFile : Type 0 where
  pub path : String
  pub ownership : ArtifactOwnership
  pub digest : Digest
  pub decision : WriteDecision

pub record MaterializationRecordSpec : Type 0 where
  pub system : String
  pub subject : MaterializationSubject
  pub closure : Digest
  pub plan : Digest
  pub adapter : AdapterId
  pub produced_by : Actor
  pub outcome : MaterializationOutcome
  pub executed_at : String
  pub files : List RecordedFile
