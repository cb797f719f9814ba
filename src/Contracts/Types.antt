-- ===== src/Contracts/Types.antt =====
-- kernel/contracts/src/types.ts: the documents of the nine contract kinds. The kind of a document
-- is the constructor of its specification, and a status is one of the union of all kinds' statuses.
pub mod Common
pub mod Baseline
pub mod Decisions
pub mod Context
pub mod System
pub mod Domain
pub mod Change
pub mod Evidence
pub mod Design
use enistere_foundation.Base.{String, ℕ}
use enistere_foundation.Contracts.Refs.{
  ContractKind, requirement_baseline, decision_set, effective_organization_context,
  system_definition, domain_contract, change_request, evidence_record, materialization_record,
  design_system, ref_key,
}
use Common.{Metadata}
use Baseline.{RequirementBaselineSpec}
use Decisions.{DecisionSetSpec}
use Context.{EffectiveOrganizationContextSpec}
use System.{SystemDefinitionSpec}
use Domain.{DomainContractSpec}
use Change.{ChangeRequestSpec}
use Evidence.{EvidenceRecordSpec, MaterializationRecordSpec}
use Design.{DesignSystemSpec}

pub data Spec : Type 0 where
  baseline : RequirementBaselineSpec → Spec
  decisions : DecisionSetSpec → Spec
  context : EffectiveOrganizationContextSpec → Spec
  system : SystemDefinitionSpec → Spec
  domain : DomainContractSpec → Spec
  change : ChangeRequestSpec → Spec
  evidence : EvidenceRecordSpec → Spec
  materialization : MaterializationRecordSpec → Spec
  design : DesignSystemSpec → Spec

-- `AnyContract`
pub record ContractDocument : Type 0 where
  pub api_version : String
  pub metadata : Metadata
  pub spec : Spec

-- `document.kind`
unfoldable pub spec_kind : Spec → ContractKind
spec_kind (baseline s) = requirement_baseline
spec_kind (decisions s) = decision_set
spec_kind (context s) = effective_organization_context
spec_kind (system s) = system_definition
spec_kind (domain s) = domain_contract
spec_kind (change s) = change_request
spec_kind (evidence s) = evidence_record
spec_kind (materialization s) = materialization_record
spec_kind (design s) = design_system

-- kernel/contracts/src/identity.ts: the key of a document, which is also its plain reference.
unfoldable pub document_key : ContractDocument → String
unfolding spec_kind ref_key
document_key d = ref_key (spec_kind d.spec) d.metadata.id d.metadata.revision
