-- ===== src/Contracts/Diagnostics/Registry.antt =====
-- kernel/contracts/src/primitives/diagnostics.ts: what each code means.
use Prim.Native.String.{String}
use enistere_foundation.Contracts.Diagnostics.Codes.{
  FailureClass, Severity, CodeSpec, DiagnosticCode, error, warning, invalid_input, policy_denied,
  unsupported, resolution_conflict, migration_required, verification_failed, evidence_inconclusive,
  extension_failure, materialization_conflict, worker_env_failure, contract_not_an_object,
  contract_unknown_kind, contract_unsupported_api_version, contract_schema_violation,
  contract_not_canonical_json, contract_invalid_timestamp, contract_duplicate_item_id,
  contract_invalid_supersession, contract_migration_failed, authority_acceptance_missing,
  authority_acceptance_inconsistent, authority_ai_cannot_decide, authority_actor_cannot_decide,
  authority_system_decision_without_policy, authority_ai_cannot_verify,
  authority_actor_cannot_verify, authority_ai_cannot_apply, authority_actor_cannot_apply,
  authority_derived_not_compiled, ref_unresolved, ref_digest_mismatch, ref_item_unresolved,
  ref_kind_mismatch, ref_duplicate_contract, ref_not_accepted, ref_system_mismatch,
  requirement_unknown_source, requirement_unknown_reference, requirement_without_provenance,
  requirement_not_decided, requirement_blocking_ambiguity_open, requirement_dependency_cycle,
  requirement_accepted_without_criteria, decision_unknown_option, decision_chosen_option_missing,
  decision_no_alternative, decision_unknown_requirement, decision_unknown_superseded,
  decision_not_decided, context_duplicate_precedence, context_rule_category_conflict,
  context_unknown_rule, context_not_reproducible, system_unknown_component, system_self_dependency,
  system_data_owner_conflict, system_data_store_without_owner, system_unknown_requirement,
  system_unknown_decision, system_unknown_domain_item, system_operation_without_provider,
  system_event_without_producer, system_unknown_environment, system_unknown_integration,
  system_unknown_design_context, design_token_invalid_value, design_token_unresolved_alias,
  design_token_type_mismatch, design_token_alias_cycle, design_context_unknown_token,
  policy_violation, policy_not_evaluated, materialize_waiver_expired, system_requirement_uncovered,
  domain_unknown_type, domain_unknown_event, domain_unknown_invariant, domain_unknown_operation,
  domain_unknown_requirement, domain_invalid_type_shape, change_base_stale, change_target_mismatch,
  change_unsupported_cannot_proceed, change_migration_missing, change_owner_work_missing,
  change_unknown_component, change_inconsistent, evidence_expiry_before_observation,
  evidence_invalidation_missing, evidence_secret_in_uri, evidence_waiver_without_failure,
  evidence_stale, materialization_unsafe_path, materialization_duplicate_path,
  materialization_outcome_inconsistent, catalog_invalid, catalog_duplicate_id,
  catalog_overlapping_coverage, resolve_no_runtime_preference, resolve_no_adapter,
  resolve_preference_fallback, resolve_no_capability_provider, manifest_invalid,
  manifest_duplicate_id, adapter_unsupported_execution_mode, adapter_load_failed,
  adapter_contract_violation, adapter_intent_rejected, materialize_adapter_missing,
  materialize_conflict, verify_inventory_mismatch, verify_toolchain_unavailable,
  ir_operation_unimplemented, ir_event_unpublished, ir_facet_not_interpreted, proof_malformed,
  proof_digest_mismatch, proof_replay_mismatch, proof_record_mismatch, proof_evidence_unlinked,
  facade_no_system_definition, facade_ambiguous_system_definition,
}

abbrev spec : FailureClass → Severity → String → CodeSpec
spec failure_class severity remediation = record {
  failure_class = failure_class;
  severity = severity;
  remediation = remediation;
}

-- `DIAGNOSTIC_CODES[code]`
unfoldable pub diagnostic_codes : DiagnosticCode → CodeSpec
diagnostic_codes contract_not_an_object =
    spec invalid_input error "Provide a JSON object with apiVersion, kind, metadata and spec."
diagnostic_codes contract_unknown_kind =
    spec unsupported error "Use one of the nine contract kinds (A1–A9)."
diagnostic_codes contract_unsupported_api_version =
    spec unsupported error
      "Migrate the document with a registered migration; unknown versions are never read by fallback."
diagnostic_codes contract_schema_violation =
    spec invalid_input error "Fix the document so that it satisfies the published JSON Schema."
diagnostic_codes contract_not_canonical_json =
    spec invalid_input error
      "Remove non-JSON values (undefined, non-finite numbers, class instances)."
diagnostic_codes contract_invalid_timestamp =
    spec invalid_input error "Provide a real RFC 3339 date-time."
diagnostic_codes contract_duplicate_item_id =
    spec invalid_input error "Give every item of a collection a unique identifier."
diagnostic_codes contract_invalid_supersession =
    spec invalid_input error
      "A revision may only supersede an older revision of the same kind and id."
diagnostic_codes contract_migration_failed =
    spec migration_required error "Repair the registered migration chain for this contract kind."
diagnostic_codes authority_acceptance_missing =
    spec policy_denied error
      "Record the explicit DECIDE transition (acceptance) before marking the contract ACCEPTED or REJECTED."
diagnostic_codes authority_acceptance_inconsistent =
    spec policy_denied error "Align metadata.status with acceptance.decision."
diagnostic_codes authority_ai_cannot_decide =
    spec policy_denied error "An AI agent may propose; a human (or an approval policy) must decide."
diagnostic_codes authority_actor_cannot_decide =
    spec policy_denied error
      "Only a human, or the system under an explicit approval policy, may exercise DECIDE."
diagnostic_codes authority_system_decision_without_policy =
    spec policy_denied error
      "An automatic decision must reference the approval policy that allows it."
diagnostic_codes authority_ai_cannot_verify =
    spec policy_denied error
      "Evidence must be produced by a checker or a human reviewer, never by an AI answer."
diagnostic_codes authority_actor_cannot_verify =
    spec policy_denied error "Only a checker or a human reviewer may exercise VERIFY."
diagnostic_codes authority_ai_cannot_apply =
    spec policy_denied error
      "Only the compiler exercises COMPILE_APPLY; an AI agent may propose, never apply."
diagnostic_codes authority_actor_cannot_apply =
    spec policy_denied error
      "A materialization record is produced by the compiler (origin and actor COMPILER)."
diagnostic_codes authority_derived_not_compiled =
    spec policy_denied error
      "A derived contract is produced by the deterministic compiler, not edited by hand."
diagnostic_codes ref_unresolved =
    spec invalid_input error "Add the referenced revision to the contract set or fix the reference."
diagnostic_codes ref_digest_mismatch =
    spec invalid_input error
      "The referenced revision changed after it was pinned: re-pin it through a Change Request."
diagnostic_codes ref_item_unresolved =
    spec invalid_input error "Reference an item that exists in the referenced revision."
diagnostic_codes ref_kind_mismatch =
    spec invalid_input error "Reference a contract of the expected kind."
diagnostic_codes ref_duplicate_contract =
    spec invalid_input error "A contract set holds each revision once."
diagnostic_codes ref_not_accepted =
    spec policy_denied error
      "An accepted contract may only depend on accepted (or current derived) inputs."
diagnostic_codes ref_system_mismatch =
    spec invalid_input error "All contracts of a set describe the same system."
diagnostic_codes requirement_unknown_source =
    spec invalid_input error "Declare the source artifact in spec.sources."
diagnostic_codes requirement_unknown_reference =
    spec invalid_input error "Reference goals, actors and requirements declared in the baseline."
diagnostic_codes requirement_without_provenance =
    spec invalid_input error "An inferred or proposed requirement must cite at least one source."
diagnostic_codes requirement_not_decided =
    spec policy_denied error
      "Accept, reject or defer every requirement before accepting the baseline."
diagnostic_codes requirement_blocking_ambiguity_open =
    spec policy_denied error "Resolve blocking ambiguities before accepting the baseline."
diagnostic_codes requirement_dependency_cycle =
    spec invalid_input error "Break the dependency cycle between requirements."
diagnostic_codes requirement_accepted_without_criteria =
    spec invalid_input warning
      "Give accepted functional requirements verifiable acceptance criteria."
diagnostic_codes decision_unknown_option =
    spec invalid_input error "The chosen option must be one of the evaluated options."
diagnostic_codes decision_chosen_option_missing =
    spec invalid_input error "An accepted decision names its chosen option and rationale."
diagnostic_codes decision_no_alternative =
    spec invalid_input warning
      "Record at least one evaluated alternative to keep the decision re-evaluable."
diagnostic_codes decision_unknown_requirement =
    spec invalid_input error
      "Drivers and satisfied requirements must exist in the pinned Requirement Baseline."
diagnostic_codes decision_unknown_superseded =
    spec invalid_input error "A decision may only supersede another decision of the set."
diagnostic_codes decision_not_decided =
    spec policy_denied error "Accept, reject or supersede every decision before accepting the set."
diagnostic_codes context_duplicate_precedence =
    spec resolution_conflict error "Give every layer a distinct precedence."
diagnostic_codes context_rule_category_conflict =
    spec resolution_conflict error "A rule keeps the same category across layers."
diagnostic_codes context_unknown_rule =
    spec invalid_input error "A waiver can only except a rule defined by a layer."
diagnostic_codes context_not_reproducible =
    spec verification_failed error
      "Recompute the effective context with the kernel derivation; it is never edited by hand."
diagnostic_codes system_unknown_component =
    spec invalid_input error "Reference a component declared in spec.components."
diagnostic_codes system_self_dependency =
    spec invalid_input error "A component cannot consume itself."
diagnostic_codes system_data_owner_conflict =
    spec resolution_conflict error "A data store has exactly one owning component."
diagnostic_codes system_data_store_without_owner =
    spec invalid_input warning "Declare which component owns the data store."
diagnostic_codes system_unknown_requirement =
    spec invalid_input error "Reference requirements of the pinned Requirement Baseline."
diagnostic_codes system_unknown_decision =
    spec invalid_input error "Reference decisions of the pinned Decision Set."
diagnostic_codes system_unknown_domain_item =
    spec invalid_input error "Reference operations and events of a pinned Domain Contract."
diagnostic_codes system_operation_without_provider =
    spec invalid_input error "Every consumed operation is implemented by the consumed component."
diagnostic_codes system_event_without_producer =
    spec invalid_input error "A subscribed event must be published by a component of the system."
diagnostic_codes system_unknown_environment =
    spec invalid_input error "Reference an environment declared in spec.environments."
diagnostic_codes system_unknown_integration =
    spec invalid_input error "Reference an integration declared in spec.integrations."
diagnostic_codes system_unknown_design_context =
    spec invalid_input error
      "Bind the surface to a design context declared by the pinned Design System."
diagnostic_codes design_token_invalid_value =
    spec invalid_input error
      "Give the token a value of its $type (color #RRGGBB, dimension px/rem, duration ms/s, numbers…) or an alias."
diagnostic_codes design_token_unresolved_alias =
    spec invalid_input error "An alias {group.token} must name a token of the design system."
diagnostic_codes design_token_type_mismatch =
    spec invalid_input error "An alias must name a token of the same $type."
diagnostic_codes design_token_alias_cycle =
    spec invalid_input error "Break the alias cycle: every alias must end on a literal value."
diagnostic_codes design_context_unknown_token =
    spec invalid_input error "A design context can only override tokens the design system declares."
diagnostic_codes policy_violation =
    spec policy_denied error
      "Change the System Definition to comply, or obtain a human-approved waiver in a new revision of the organization context."
diagnostic_codes policy_not_evaluated =
    spec unsupported warning
      "The compiler does not interpret this rule: prove it by another check or review it."
diagnostic_codes materialize_waiver_expired =
    spec policy_denied error
      "The plan relies on an expired waiver: renew it in a new revision of the organization context, or comply."
diagnostic_codes system_requirement_uncovered =
    spec invalid_input warning
      "Allocate each accepted functional requirement to at least one component."
diagnostic_codes domain_unknown_type =
    spec invalid_input error "Use a primitive or a type declared in spec.types."
diagnostic_codes domain_unknown_event =
    spec invalid_input error "Emit events declared in spec.events."
diagnostic_codes domain_unknown_invariant =
    spec invalid_input error "Reference invariants declared in spec.invariants."
diagnostic_codes domain_unknown_operation =
    spec invalid_input error "Reference operations declared in spec.operations."
diagnostic_codes domain_unknown_requirement =
    spec invalid_input error
      "Acceptance scenarios cite requirements of the pinned Requirement Baseline."
diagnostic_codes domain_invalid_type_shape =
    spec invalid_input error
      "ENUM types declare values only; ENTITY and VALUE types declare fields only."
diagnostic_codes change_base_stale =
    spec resolution_conflict error
      "Rebase the Change Request on the current revision of its target."
diagnostic_codes change_target_mismatch =
    spec invalid_input error "The proposed revision must be a newer revision of the same contract."
diagnostic_codes change_unsupported_cannot_proceed =
    spec unsupported error "An UNSUPPORTED change is never accepted or applied by fallback."
diagnostic_codes change_migration_missing =
    spec migration_required error "Describe the migration strategy of a MIGRATION_REQUIRED change."
diagnostic_codes change_owner_work_missing =
    spec policy_denied error "A MANUAL_ONLY change lists the owner work it requires."
diagnostic_codes change_unknown_component =
    spec invalid_input error "Impacted components must exist in the base System Definition."
diagnostic_codes change_inconsistent =
    spec verification_failed error
      "The declared changes must transform the base spec into exactly the proposed spec."
diagnostic_codes evidence_expiry_before_observation =
    spec invalid_input error "expiresAt must be later than observedAt."
diagnostic_codes evidence_invalidation_missing =
    spec invalid_input error "An INVALIDATED record states why and by which change."
diagnostic_codes evidence_secret_in_uri =
    spec policy_denied error
      "Artifacts are referenced without credentials; secrets never enter Evidence."
diagnostic_codes evidence_waiver_without_failure =
    spec invalid_input warning "A waiver only makes sense for a FAIL or INCONCLUSIVE result."
diagnostic_codes evidence_stale =
    spec evidence_inconclusive warning
      "Re-run the checker against the current revision; the proof no longer describes it."
diagnostic_codes materialization_unsafe_path =
    spec invalid_input error
      "Record only paths relative to the component directory, outside the reserved .foundation/ directory."
diagnostic_codes materialization_duplicate_path = spec invalid_input error "Record each file once."
diagnostic_codes materialization_outcome_inconsistent =
    spec invalid_input error
      "Align the outcome with the decisions: a conflict writes nothing, an applied materialization has no conflict, a seeded file is never updated."
diagnostic_codes catalog_invalid =
    spec invalid_input error
      "Provide a catalog object with runtimeAdapters and capabilityProviders arrays of well-formed descriptors."
diagnostic_codes catalog_duplicate_id =
    spec invalid_input error "Give every catalog descriptor a unique id."
diagnostic_codes catalog_overlapping_coverage =
    spec resolution_conflict error
      "Keep a single descriptor per component kind and runtime (or per capability and runtime): resolution never picks one arbitrarily."
diagnostic_codes resolve_no_runtime_preference =
    spec unsupported warning "Declare at least one runtime preference for the component."
diagnostic_codes resolve_no_adapter =
    spec unsupported warning
      "Add a runtime adapter for this component kind and one of its preferred runtimes, or change the preferences; the component is not planned."
diagnostic_codes resolve_preference_fallback =
    spec unsupported warning
      "A preferred runtime has no adapter: a later preference was selected. Review the choice or add the missing adapter."
diagnostic_codes resolve_no_capability_provider =
    spec unsupported warning
      "Add a provider of this platform capability for the selected runtime; the capability is not bound."
diagnostic_codes manifest_invalid =
    spec invalid_input error
      "Fix the adapter manifest so that it satisfies the published adapter-manifest schema."
diagnostic_codes manifest_duplicate_id =
    spec invalid_input error "Give every extension a unique id."
diagnostic_codes adapter_unsupported_execution_mode =
    spec unsupported warning
      "Only trusted in-process adapters run in v0; isolated, container and remote modes come with the Workers."
diagnostic_codes adapter_load_failed =
    spec extension_failure error
      "The adapter module could not be loaded or does not implement the protocol: fix the extension."
diagnostic_codes adapter_contract_violation =
    spec extension_failure error
      "The adapter broke the protocol (identity, artifact path or content): fix the extension."
diagnostic_codes adapter_intent_rejected =
    spec unsupported warning
      "The adapter cannot realize this component as declared; the component is not materialized."
diagnostic_codes materialize_adapter_missing =
    spec unsupported warning
      "The plan names an adapter that is not loaded; the component is not materialized."
diagnostic_codes materialize_conflict =
    spec materialization_conflict error
      "A compiler-owned file was changed outside the compiler: restore it or move the change into an owner-managed file; nothing was overwritten."
diagnostic_codes verify_inventory_mismatch =
    spec verification_failed error
      "The workspace no longer matches its latest MaterializationRecord: re-materialize or review the change."
diagnostic_codes verify_toolchain_unavailable =
    spec worker_env_failure error
      "Install the tools the adapter manifest requires, then verify again."
diagnostic_codes ir_operation_unimplemented =
    spec unsupported warning
      "Allocate the operation to a component (implements) or remove it from the Domain Contract."
diagnostic_codes ir_event_unpublished =
    spec unsupported warning
      "Let a component publish the event, directly or by implementing an operation that emits it."
diagnostic_codes ir_facet_not_interpreted =
    spec unsupported warning
      "Domain facets are carried but not interpreted by the compiler, and never realized as a platform capability; review what they require."
diagnostic_codes proof_malformed =
    spec invalid_input error "Provide a proof-chain bundle produced by the Foundation export."
diagnostic_codes proof_digest_mismatch =
    spec verification_failed error
      "The bundle was altered after export: export it again from the trusted sources."
diagnostic_codes proof_replay_mismatch =
    spec verification_failed error
      "Replaying the compilation gives other digests: the recorded compilation cannot be reproduced from the bundled contracts and catalog."
diagnostic_codes proof_record_mismatch =
    spec verification_failed error
      "A current materialization record describes another compilation: re-materialize or export the matching bundle."
diagnostic_codes proof_evidence_unlinked =
    spec verification_failed error
      "Evidence about a component must cite the materialization record it verified."
diagnostic_codes facade_no_system_definition =
    spec invalid_input error
      "Provide an accepted System Definition in the contract set (or name an existing one)."
diagnostic_codes facade_ambiguous_system_definition =
    spec invalid_input error "Name the System Definition to compile: several are in force."
