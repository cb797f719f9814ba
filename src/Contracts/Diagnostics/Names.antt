-- ===== src/Contracts/Diagnostics/Names.antt =====
-- kernel/contracts/src/primitives/diagnostics.ts: the text of each code, and that it names the code.
use Prim.Native.String.{String}
use mathlib.Core.Path.{◌≡◌, refl, ap}
use mathlib.Core.Option.{Option, some}
use mathlib.Core.List.{List, [], ◌∷◌}
use text.Mathlib.Text.{◌==◌}
use enistere_foundation.Base.{find}
use enistere_foundation.Contracts.Diagnostics.Codes.{
  DiagnosticCode, contract_not_an_object, contract_unknown_kind, contract_unsupported_api_version,
  contract_schema_violation, contract_not_canonical_json, contract_invalid_timestamp,
  contract_duplicate_item_id, contract_invalid_supersession, contract_migration_failed,
  authority_acceptance_missing, authority_acceptance_inconsistent, authority_ai_cannot_decide,
  authority_actor_cannot_decide, authority_system_decision_without_policy,
  authority_ai_cannot_verify, authority_actor_cannot_verify, authority_ai_cannot_apply,
  authority_actor_cannot_apply, authority_derived_not_compiled, ref_unresolved, ref_digest_mismatch,
  ref_item_unresolved, ref_kind_mismatch, ref_duplicate_contract, ref_not_accepted,
  ref_system_mismatch, requirement_unknown_source, requirement_unknown_reference,
  requirement_without_provenance, requirement_not_decided, requirement_blocking_ambiguity_open,
  requirement_dependency_cycle, requirement_accepted_without_criteria, decision_unknown_option,
  decision_chosen_option_missing, decision_no_alternative, decision_unknown_requirement,
  decision_unknown_superseded, decision_not_decided, context_duplicate_precedence,
  context_rule_category_conflict, context_unknown_rule, context_not_reproducible,
  system_unknown_component, system_self_dependency, system_data_owner_conflict,
  system_data_store_without_owner, system_unknown_requirement, system_unknown_decision,
  system_unknown_domain_item, system_operation_without_provider, system_event_without_producer,
  system_unknown_environment, system_unknown_integration, system_unknown_design_context,
  design_token_invalid_value, design_token_unresolved_alias, design_token_type_mismatch,
  design_token_alias_cycle, design_context_unknown_token, policy_violation, policy_not_evaluated,
  materialize_waiver_expired, system_requirement_uncovered, domain_unknown_type,
  domain_unknown_event, domain_unknown_invariant, domain_unknown_operation,
  domain_unknown_requirement, domain_invalid_type_shape, change_base_stale, change_target_mismatch,
  change_unsupported_cannot_proceed, change_migration_missing, change_owner_work_missing,
  change_unknown_component, change_inconsistent, evidence_expiry_before_observation,
  evidence_invalidation_missing, evidence_secret_in_uri, evidence_waiver_without_failure,
  evidence_stale, materialization_unsafe_path, materialization_duplicate_path,
  materialization_outcome_inconsistent, catalog_invalid, catalog_duplicate_id,
  catalog_overlapping_coverage, resolve_no_runtime_preference, resolve_no_adapter,
  resolve_preference_fallback, resolve_no_capability_provider, manifest_invalid,
  manifest_duplicate_id, adapter_unsupported_execution_mode, adapter_load_failed,
  adapter_contract_violation, adapter_intent_rejected, materialize_adapter_missing,
  materialize_conflict, verify_inventory_mismatch, verify_toolchain_unavailable,
  ir_operation_unimplemented, ir_event_unpublished, ir_facet_not_interpreted, proof_malformed,
  proof_digest_mismatch, proof_replay_mismatch, proof_record_mismatch, proof_evidence_unlinked,
  facade_no_system_definition, facade_ambiguous_system_definition,
}

-- The text of a code, its key in the registry.
unfoldable pub code_text : DiagnosticCode → String
code_text contract_not_an_object = "CONTRACT_NOT_AN_OBJECT"
code_text contract_unknown_kind = "CONTRACT_UNKNOWN_KIND"
code_text contract_unsupported_api_version = "CONTRACT_UNSUPPORTED_API_VERSION"
code_text contract_schema_violation = "CONTRACT_SCHEMA_VIOLATION"
code_text contract_not_canonical_json = "CONTRACT_NOT_CANONICAL_JSON"
code_text contract_invalid_timestamp = "CONTRACT_INVALID_TIMESTAMP"
code_text contract_duplicate_item_id = "CONTRACT_DUPLICATE_ITEM_ID"
code_text contract_invalid_supersession = "CONTRACT_INVALID_SUPERSESSION"
code_text contract_migration_failed = "CONTRACT_MIGRATION_FAILED"
code_text authority_acceptance_missing = "AUTHORITY_ACCEPTANCE_MISSING"
code_text authority_acceptance_inconsistent = "AUTHORITY_ACCEPTANCE_INCONSISTENT"
code_text authority_ai_cannot_decide = "AUTHORITY_AI_CANNOT_DECIDE"
code_text authority_actor_cannot_decide = "AUTHORITY_ACTOR_CANNOT_DECIDE"
code_text authority_system_decision_without_policy = "AUTHORITY_SYSTEM_DECISION_WITHOUT_POLICY"
code_text authority_ai_cannot_verify = "AUTHORITY_AI_CANNOT_VERIFY"
code_text authority_actor_cannot_verify = "AUTHORITY_ACTOR_CANNOT_VERIFY"
code_text authority_ai_cannot_apply = "AUTHORITY_AI_CANNOT_APPLY"
code_text authority_actor_cannot_apply = "AUTHORITY_ACTOR_CANNOT_APPLY"
code_text authority_derived_not_compiled = "AUTHORITY_DERIVED_NOT_COMPILED"
code_text ref_unresolved = "REF_UNRESOLVED"
code_text ref_digest_mismatch = "REF_DIGEST_MISMATCH"
code_text ref_item_unresolved = "REF_ITEM_UNRESOLVED"
code_text ref_kind_mismatch = "REF_KIND_MISMATCH"
code_text ref_duplicate_contract = "REF_DUPLICATE_CONTRACT"
code_text ref_not_accepted = "REF_NOT_ACCEPTED"
code_text ref_system_mismatch = "REF_SYSTEM_MISMATCH"
code_text requirement_unknown_source = "REQUIREMENT_UNKNOWN_SOURCE"
code_text requirement_unknown_reference = "REQUIREMENT_UNKNOWN_REFERENCE"
code_text requirement_without_provenance = "REQUIREMENT_WITHOUT_PROVENANCE"
code_text requirement_not_decided = "REQUIREMENT_NOT_DECIDED"
code_text requirement_blocking_ambiguity_open = "REQUIREMENT_BLOCKING_AMBIGUITY_OPEN"
code_text requirement_dependency_cycle = "REQUIREMENT_DEPENDENCY_CYCLE"
code_text requirement_accepted_without_criteria = "REQUIREMENT_ACCEPTED_WITHOUT_CRITERIA"
code_text decision_unknown_option = "DECISION_UNKNOWN_OPTION"
code_text decision_chosen_option_missing = "DECISION_CHOSEN_OPTION_MISSING"
code_text decision_no_alternative = "DECISION_NO_ALTERNATIVE"
code_text decision_unknown_requirement = "DECISION_UNKNOWN_REQUIREMENT"
code_text decision_unknown_superseded = "DECISION_UNKNOWN_SUPERSEDED"
code_text decision_not_decided = "DECISION_NOT_DECIDED"
code_text context_duplicate_precedence = "CONTEXT_DUPLICATE_PRECEDENCE"
code_text context_rule_category_conflict = "CONTEXT_RULE_CATEGORY_CONFLICT"
code_text context_unknown_rule = "CONTEXT_UNKNOWN_RULE"
code_text context_not_reproducible = "CONTEXT_NOT_REPRODUCIBLE"
code_text system_unknown_component = "SYSTEM_UNKNOWN_COMPONENT"
code_text system_self_dependency = "SYSTEM_SELF_DEPENDENCY"
code_text system_data_owner_conflict = "SYSTEM_DATA_OWNER_CONFLICT"
code_text system_data_store_without_owner = "SYSTEM_DATA_STORE_WITHOUT_OWNER"
code_text system_unknown_requirement = "SYSTEM_UNKNOWN_REQUIREMENT"
code_text system_unknown_decision = "SYSTEM_UNKNOWN_DECISION"
code_text system_unknown_domain_item = "SYSTEM_UNKNOWN_DOMAIN_ITEM"
code_text system_operation_without_provider = "SYSTEM_OPERATION_WITHOUT_PROVIDER"
code_text system_event_without_producer = "SYSTEM_EVENT_WITHOUT_PRODUCER"
code_text system_unknown_environment = "SYSTEM_UNKNOWN_ENVIRONMENT"
code_text system_unknown_integration = "SYSTEM_UNKNOWN_INTEGRATION"
code_text system_unknown_design_context = "SYSTEM_UNKNOWN_DESIGN_CONTEXT"
code_text design_token_invalid_value = "DESIGN_TOKEN_INVALID_VALUE"
code_text design_token_unresolved_alias = "DESIGN_TOKEN_UNRESOLVED_ALIAS"
code_text design_token_type_mismatch = "DESIGN_TOKEN_TYPE_MISMATCH"
code_text design_token_alias_cycle = "DESIGN_TOKEN_ALIAS_CYCLE"
code_text design_context_unknown_token = "DESIGN_CONTEXT_UNKNOWN_TOKEN"
code_text policy_violation = "POLICY_VIOLATION"
code_text policy_not_evaluated = "POLICY_NOT_EVALUATED"
code_text materialize_waiver_expired = "MATERIALIZE_WAIVER_EXPIRED"
code_text system_requirement_uncovered = "SYSTEM_REQUIREMENT_UNCOVERED"
code_text domain_unknown_type = "DOMAIN_UNKNOWN_TYPE"
code_text domain_unknown_event = "DOMAIN_UNKNOWN_EVENT"
code_text domain_unknown_invariant = "DOMAIN_UNKNOWN_INVARIANT"
code_text domain_unknown_operation = "DOMAIN_UNKNOWN_OPERATION"
code_text domain_unknown_requirement = "DOMAIN_UNKNOWN_REQUIREMENT"
code_text domain_invalid_type_shape = "DOMAIN_INVALID_TYPE_SHAPE"
code_text change_base_stale = "CHANGE_BASE_STALE"
code_text change_target_mismatch = "CHANGE_TARGET_MISMATCH"
code_text change_unsupported_cannot_proceed = "CHANGE_UNSUPPORTED_CANNOT_PROCEED"
code_text change_migration_missing = "CHANGE_MIGRATION_MISSING"
code_text change_owner_work_missing = "CHANGE_OWNER_WORK_MISSING"
code_text change_unknown_component = "CHANGE_UNKNOWN_COMPONENT"
code_text change_inconsistent = "CHANGE_INCONSISTENT"
code_text evidence_expiry_before_observation = "EVIDENCE_EXPIRY_BEFORE_OBSERVATION"
code_text evidence_invalidation_missing = "EVIDENCE_INVALIDATION_MISSING"
code_text evidence_secret_in_uri = "EVIDENCE_SECRET_IN_URI"
code_text evidence_waiver_without_failure = "EVIDENCE_WAIVER_WITHOUT_FAILURE"
code_text evidence_stale = "EVIDENCE_STALE"
code_text materialization_unsafe_path = "MATERIALIZATION_UNSAFE_PATH"
code_text materialization_duplicate_path = "MATERIALIZATION_DUPLICATE_PATH"
code_text materialization_outcome_inconsistent = "MATERIALIZATION_OUTCOME_INCONSISTENT"
code_text catalog_invalid = "CATALOG_INVALID"
code_text catalog_duplicate_id = "CATALOG_DUPLICATE_ID"
code_text catalog_overlapping_coverage = "CATALOG_OVERLAPPING_COVERAGE"
code_text resolve_no_runtime_preference = "RESOLVE_NO_RUNTIME_PREFERENCE"
code_text resolve_no_adapter = "RESOLVE_NO_ADAPTER"
code_text resolve_preference_fallback = "RESOLVE_PREFERENCE_FALLBACK"
code_text resolve_no_capability_provider = "RESOLVE_NO_CAPABILITY_PROVIDER"
code_text manifest_invalid = "MANIFEST_INVALID"
code_text manifest_duplicate_id = "MANIFEST_DUPLICATE_ID"
code_text adapter_unsupported_execution_mode = "ADAPTER_UNSUPPORTED_EXECUTION_MODE"
code_text adapter_load_failed = "ADAPTER_LOAD_FAILED"
code_text adapter_contract_violation = "ADAPTER_CONTRACT_VIOLATION"
code_text adapter_intent_rejected = "ADAPTER_INTENT_REJECTED"
code_text materialize_adapter_missing = "MATERIALIZE_ADAPTER_MISSING"
code_text materialize_conflict = "MATERIALIZE_CONFLICT"
code_text verify_inventory_mismatch = "VERIFY_INVENTORY_MISMATCH"
code_text verify_toolchain_unavailable = "VERIFY_TOOLCHAIN_UNAVAILABLE"
code_text ir_operation_unimplemented = "IR_OPERATION_UNIMPLEMENTED"
code_text ir_event_unpublished = "IR_EVENT_UNPUBLISHED"
code_text ir_facet_not_interpreted = "IR_FACET_NOT_INTERPRETED"
code_text proof_malformed = "PROOF_MALFORMED"
code_text proof_digest_mismatch = "PROOF_DIGEST_MISMATCH"
code_text proof_replay_mismatch = "PROOF_REPLAY_MISMATCH"
code_text proof_record_mismatch = "PROOF_RECORD_MISMATCH"
code_text proof_evidence_unlinked = "PROOF_EVIDENCE_UNLINKED"
code_text facade_no_system_definition = "FACADE_NO_SYSTEM_DEFINITION"
code_text facade_ambiguous_system_definition = "FACADE_AMBIGUOUS_SYSTEM_DEFINITION"

-- The registry's keys are its codes in order.
abbrev all_codes : List DiagnosticCode
all_codes =
    contract_not_an_object ∷ contract_unknown_kind ∷ contract_unsupported_api_version
    ∷ contract_schema_violation ∷ contract_not_canonical_json ∷ contract_invalid_timestamp
    ∷ contract_duplicate_item_id ∷ contract_invalid_supersession ∷ contract_migration_failed
    ∷ authority_acceptance_missing ∷ authority_acceptance_inconsistent ∷ authority_ai_cannot_decide
    ∷ authority_actor_cannot_decide ∷ authority_system_decision_without_policy
    ∷ authority_ai_cannot_verify ∷ authority_actor_cannot_verify ∷ authority_ai_cannot_apply
    ∷ authority_actor_cannot_apply ∷ authority_derived_not_compiled ∷ ref_unresolved
    ∷ ref_digest_mismatch ∷ ref_item_unresolved ∷ ref_kind_mismatch ∷ ref_duplicate_contract
    ∷ ref_not_accepted ∷ ref_system_mismatch ∷ requirement_unknown_source
    ∷ requirement_unknown_reference ∷ requirement_without_provenance ∷ requirement_not_decided
    ∷ requirement_blocking_ambiguity_open ∷ requirement_dependency_cycle
    ∷ requirement_accepted_without_criteria ∷ decision_unknown_option
    ∷ decision_chosen_option_missing ∷ decision_no_alternative ∷ decision_unknown_requirement
    ∷ decision_unknown_superseded ∷ decision_not_decided ∷ context_duplicate_precedence
    ∷ context_rule_category_conflict ∷ context_unknown_rule ∷ context_not_reproducible
    ∷ system_unknown_component ∷ system_self_dependency ∷ system_data_owner_conflict
    ∷ system_data_store_without_owner ∷ system_unknown_requirement ∷ system_unknown_decision
    ∷ system_unknown_domain_item ∷ system_operation_without_provider ∷ system_event_without_producer
    ∷ system_unknown_environment ∷ system_unknown_integration ∷ system_unknown_design_context
    ∷ design_token_invalid_value ∷ design_token_unresolved_alias ∷ design_token_type_mismatch
    ∷ design_token_alias_cycle ∷ design_context_unknown_token ∷ policy_violation
    ∷ policy_not_evaluated ∷ materialize_waiver_expired ∷ system_requirement_uncovered
    ∷ domain_unknown_type ∷ domain_unknown_event ∷ domain_unknown_invariant
    ∷ domain_unknown_operation ∷ domain_unknown_requirement ∷ domain_invalid_type_shape
    ∷ change_base_stale ∷ change_target_mismatch ∷ change_unsupported_cannot_proceed
    ∷ change_migration_missing ∷ change_owner_work_missing ∷ change_unknown_component
    ∷ change_inconsistent ∷ evidence_expiry_before_observation ∷ evidence_invalidation_missing
    ∷ evidence_secret_in_uri ∷ evidence_waiver_without_failure ∷ evidence_stale
    ∷ materialization_unsafe_path ∷ materialization_duplicate_path
    ∷ materialization_outcome_inconsistent ∷ catalog_invalid ∷ catalog_duplicate_id
    ∷ catalog_overlapping_coverage ∷ resolve_no_runtime_preference ∷ resolve_no_adapter
    ∷ resolve_preference_fallback ∷ resolve_no_capability_provider ∷ manifest_invalid
    ∷ manifest_duplicate_id ∷ adapter_unsupported_execution_mode ∷ adapter_load_failed
    ∷ adapter_contract_violation ∷ adapter_intent_rejected ∷ materialize_adapter_missing
    ∷ materialize_conflict ∷ verify_inventory_mismatch ∷ verify_toolchain_unavailable
    ∷ ir_operation_unimplemented ∷ ir_event_unpublished ∷ ir_facet_not_interpreted ∷ proof_malformed
    ∷ proof_digest_mismatch ∷ proof_replay_mismatch ∷ proof_record_mismatch
    ∷ proof_evidence_unlinked ∷ facade_no_system_definition ∷ facade_ambiguous_system_definition
    ∷ []

code_named : String → Option DiagnosticCode
unfolding code_text
code_named t = find (λ c. code_text c == t) all_codes

code_named-code_text : (c : DiagnosticCode) → code_named (code_text c) ≡ some c
unfolding code_named
code_named-code_text contract_not_an_object = refl
code_named-code_text _ = refl

pub code_text_injective : (c d : DiagnosticCode) → code_text c ≡ code_text d → c ≡ d
code_text_injective c d h = cc (code_named-code_text c, code_named-code_text d, ap code_named h)
