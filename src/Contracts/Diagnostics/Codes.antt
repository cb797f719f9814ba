-- ===== src/Contracts/Diagnostics/Codes.antt =====
-- kernel/contracts/src/primitives/diagnostics.ts: failure classes, severities and codes.
use Prim.Native.String.{String}

pub data FailureClass : Type 0 where
  invalid_input policy_denied unsupported resolution_conflict migration_required verification_failed
        evidence_inconclusive extension_failure materialization_conflict worker_env_failure :
      FailureClass

pub data Severity : Type 0 where
  error warning : Severity

pub record CodeSpec : Type 0 where
  pub failure_class : FailureClass
  pub severity : Severity
  pub remediation : String

pub data DiagnosticCode : Type 0 where
  contract_not_an_object contract_unknown_kind contract_unsupported_api_version
        contract_schema_violation contract_not_canonical_json contract_invalid_timestamp
        contract_duplicate_item_id contract_invalid_supersession contract_migration_failed
        authority_acceptance_missing authority_acceptance_inconsistent authority_ai_cannot_decide
        authority_actor_cannot_decide authority_system_decision_without_policy
        authority_ai_cannot_verify authority_actor_cannot_verify authority_ai_cannot_apply
        authority_actor_cannot_apply authority_derived_not_compiled ref_unresolved
        ref_digest_mismatch ref_item_unresolved ref_kind_mismatch ref_duplicate_contract
        ref_not_accepted ref_system_mismatch requirement_unknown_source
        requirement_unknown_reference requirement_without_provenance requirement_not_decided
        requirement_blocking_ambiguity_open requirement_dependency_cycle
        requirement_accepted_without_criteria decision_unknown_option decision_chosen_option_missing
        decision_no_alternative decision_unknown_requirement decision_unknown_superseded
        decision_not_decided context_duplicate_precedence context_rule_category_conflict
        context_unknown_rule context_not_reproducible system_unknown_component
        system_self_dependency system_data_owner_conflict system_data_store_without_owner
        system_unknown_requirement system_unknown_decision system_unknown_domain_item
        system_operation_without_provider system_event_without_producer system_unknown_environment
        system_unknown_integration system_unknown_design_context design_token_invalid_value
        design_token_unresolved_alias design_token_type_mismatch design_token_alias_cycle
        design_context_unknown_token policy_violation policy_not_evaluated
        materialize_waiver_expired system_requirement_uncovered domain_unknown_type
        domain_unknown_event domain_unknown_invariant domain_unknown_operation
        domain_unknown_requirement domain_invalid_type_shape change_base_stale
        change_target_mismatch change_unsupported_cannot_proceed change_migration_missing
        change_owner_work_missing change_unknown_component change_inconsistent
        evidence_expiry_before_observation evidence_invalidation_missing evidence_secret_in_uri
        evidence_waiver_without_failure evidence_stale materialization_unsafe_path
        materialization_duplicate_path materialization_outcome_inconsistent catalog_invalid
        catalog_duplicate_id catalog_overlapping_coverage resolve_no_runtime_preference
        resolve_no_adapter resolve_preference_fallback resolve_no_capability_provider
        manifest_invalid manifest_duplicate_id adapter_unsupported_execution_mode
        adapter_load_failed adapter_contract_violation adapter_intent_rejected
        materialize_adapter_missing materialize_conflict verify_inventory_mismatch
        verify_toolchain_unavailable ir_operation_unimplemented ir_event_unpublished
        ir_facet_not_interpreted proof_malformed proof_digest_mismatch proof_replay_mismatch
        proof_record_mismatch proof_evidence_unlinked facade_no_system_definition
        facade_ambiguous_system_definition :
      DiagnosticCode
