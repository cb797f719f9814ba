-- ===== src/Contracts/Tests.antt =====
-- kernel/contracts on small documents, diagnostics, paths and JSON values.
pub mod Changes
pub mod Baselines
pub mod References
pub mod Systems
pub mod Derivation
pub mod Checked
pub mod Orders
pub mod Rules
use mathlib.Core.List.{Mem, Nodup}
use enistere_foundation.Base.{
  String, true, List, [], ◌∷◌, none, some, keep, All, ◌≡◌, ◌≢◌, ◌↔◌, refl,
}
use enistere_foundation.Base.Paths.{below, resolve, split_slash}
use enistere_foundation.Base.Sorting.Order.{IsSorted}
use enistere_foundation.Contracts.Authority.{authoritative, authority_diagnostics}
use enistere_foundation.Contracts.Authority.Laws.{IsAuthorised, authority_diagnostics_iff}
use enistere_foundation.Contracts.Diagnostics.{
  Diagnostic, diagnostic, located, compare_diagnostics, sort_diagnostics, has_errors,
}
use enistere_foundation.Contracts.Diagnostics.Codes.{
  materialization_unsafe_path, contract_invalid_timestamp,
}
use enistere_foundation.Contracts.Diagnostics.Order.{keys, sort_diagnostics_lem}
use enistere_foundation.Contracts.Diagnostics.Errors.{
  IsRegistered, has_errors-sort_diagnostics, diagnostic-IsRegistered, no_nul,
}
use enistere_foundation.Contracts.Json.{
  Json, text, number, infinity, unsupported, undefined, finite_number, object, object_of, done,
  refused, canonicalize,
}
use enistere_foundation.Contracts.Json.Plain.{IsPlain, IsDone, canonicalize_iff}
use enistere_foundation.Contracts.Paths.{is_safe_artifact_path}
use enistere_foundation.Contracts.Paths.Laws.{named, below-resolve}
use enistere_foundation.Contracts.Types.{ContractDocument, Spec}
use enistere_foundation.Contracts.Types.Common.{
  AcceptanceDecision, Actor, ActorType, ProvenanceOrigin, Status,
}
use enistere_foundation.Contracts.Types.Evidence.{MaterializationOutcome, MaterializationRecordSpec}
use enistere_foundation.Contracts.Refs.{plain_ref, system_definition}

abbrev ana : Actor
ana = record { type = ActorType.human; id = "ana"; role = none }

abbrev materialized : MaterializationRecordSpec
materialized = record {
  system = "shop";
  subject = record { contract = plain_ref system_definition "shop" 1; component = "api" };
  closure = "sha256:c";
  plan = "sha256:p";
  adapter = record { id = "nestjs"; version = "1.0.0" };
  produced_by = ana;
  outcome = MaterializationOutcome.applied;
  executed_at = "2026-01-01T00:00:00Z";
  files = [];
}

-- Accepted by an agent, which may not decide.
abbrev accepted_by_agent : ContractDocument
accepted_by_agent = record {
  api_version = "foundation.enistere.com/v1alpha1";
  metadata = record {
    id = "shop";
    revision = 1;
    title = "Shop";
    description = none;
    status = Status.accepted;
    owner = none;
    provenance = record {
      origin = ProvenanceOrigin.human;
      actor = ana;
      tool = none;
      sources = none;
      derived_from = none;
      confidence = none;
    };
    acceptance = some (record {
      decision = AcceptanceDecision.accepted;
      actor = record { type = ActorType.ai_agent; id = "bot"; role = none };
      at = "2026-01-01T00:00:00Z";
      rationale = none;
      approval_policy = none;
    });
    supersedes = none;
    labels = none;
  };
  spec = Spec.materialization materialized;
}

authority_diagnostics_iff_example :
    (authority_diagnostics authoritative accepted_by_agent "SystemDefinition/shop@1" ≡ some [])
    ↔ IsAuthorised authoritative accepted_by_agent
authority_diagnostics_iff_example =
    authority_diagnostics_iff authoritative accepted_by_agent "SystemDefinition/shop@1"

main_safe : is_safe_artifact_path "src/./main.ts" ≡ true
unfolding is_safe_artifact_path
main_safe = refl

main_named : keep named (split_slash "src/./main.ts") ≢ []
unfolding split_slash
main_named e = cc

below-resolve_example :
    below ("work" ∷ "api" ∷ []) (resolve ("work" ∷ "api" ∷ []) "src/./main.ts")
    ≡ some (keep named (split_slash "src/./main.ts"))
below-resolve_example = below-resolve ("work" ∷ "api" ∷ []) "src/./main.ts" main_safe main_named

-- Two diagnostics out of order, and one of them twice.
abbrev reported : List Diagnostic
reported =
    diagnostic materialization_unsafe_path "b" (located "r" "/b")
    ∷ diagnostic contract_invalid_timestamp "a" (located "r" "/a")
    ∷ diagnostic materialization_unsafe_path "b" (located "r" "/b")
    ∷ []

sort_diagnostics_run :
    sort_diagnostics reported
    ≡ diagnostic contract_invalid_timestamp "a" (located "r" "/a")
      ∷ diagnostic materialization_unsafe_path "b" (located "r" "/b")
      ∷ []
unfolding sort_diagnostics diagnostic
sort_diagnostics_run = refl

sort_diagnostics_lem_example :
    IsSorted compare_diagnostics (sort_diagnostics reported)
    × Nodup (keys (sort_diagnostics reported))
    × ((k : String) → Mem k (keys (sort_diagnostics reported)) ↔ Mem k (keys reported))
sort_diagnostics_lem_example = sort_diagnostics_lem reported

reported-IsRegistered : All IsRegistered reported
unfolding no_nul
reported-IsRegistered = (
  diagnostic-IsRegistered _ _ _ refl refl,
  (diagnostic-IsRegistered _ _ _ refl refl, (diagnostic-IsRegistered _ _ _ refl refl, tt)),
)

has_errors-sort_diagnostics_example : has_errors (sort_diagnostics reported) ≡ has_errors reported
has_errors-sort_diagnostics_example = has_errors-sort_diagnostics reported reported-IsRegistered

abbrev member_values : Json
member_values = object (object_of (("b", finite_number "1") ∷ ("a", text "x") ∷ []))

canonicalize_iff_example : IsDone (canonicalize member_values) ↔ IsPlain member_values
canonicalize_iff_example = canonicalize_iff member_values

member_text : canonicalize member_values ≡ done "{\"a\":\"x\",\"b\":1}"
unfolding canonicalize
member_text = refl

-- The first member in the sorted order is the one that is refused.
infinite_member :
    canonicalize (object (object_of (("b", unsupported undefined) ∷ ("a", number infinity) ∷ [])))
    ≡ refused "non-finite number" "/a"
unfolding canonicalize
infinite_member = refl
