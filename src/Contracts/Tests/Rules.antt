-- ===== src/Contracts/Tests/Rules.antt =====
-- The migration of a document and the rules of A2 and A6 on small examples.
use enistere_foundation.Base.{
  String, List, [], ◌∷◌, Option, none, some, map, length, ◌≡◌, ◌↔◌, refl,
}
use enistere_foundation.Contracts.Change.{validate_change_request}
use enistere_foundation.Contracts.Change.Laws.{IsSoundChange, validate_change_request_iff}
use enistere_foundation.Contracts.Decisions.{validate_decision_set}
use enistere_foundation.Contracts.Diagnostics.{Diagnostic}
use enistere_foundation.Contracts.Digest.{returned}
use enistere_foundation.Contracts.Json.{Members}
use enistere_foundation.Contracts.Refs.{plain_ref, decision_set, requirement_baseline}
use enistere_foundation.Contracts.Types.Change.{ChangeClassification, ChangeRequestSpec}
use enistere_foundation.Contracts.Types.Common.{
  Actor, ActorType, Metadata, ProvenanceOrigin, Status,
}
use enistere_foundation.Contracts.Types.Decisions.{DecisionOption, DecisionSetSpec, DecisionStatus}
use enistere_foundation.Contracts.Versioning.{
  Document, ContractMigration, MigrationRegistry, MigrationOutcome, written,
  create_migration_registry, migrate_to_current, current_api_version,
}
use enistere_foundation.Contracts.Versioning.Progress.{IsSettled, migrate_to_current-IsSettled}

abbrev renamed : String → Document → Document
renamed version d = record { api_version = written version; members = d.members }

-- Two generations before the current one.
abbrev steps : List ContractMigration
steps =
    record { kind = decision_set; from = "v0"; to = "v1"; migrate = renamed "v1" }
    ∷ record {
      kind = decision_set;
      from = "v1";
      to = current_api_version;
      migrate = renamed current_api_version;
    }
    ∷ []

abbrev registry : MigrationRegistry
registry = record { current = current_api_version; migrations = steps }

registry_created : create_migration_registry steps current_api_version ≡ returned registry
unfolding create_migration_registry
registry_created = refl

abbrev oldest : Document
oldest = record { api_version = written "v0"; members = Members.end }

migrated_twice :
    migrate_to_current decision_set registry none oldest
    ≡ some (record {
      document = some (renamed current_api_version oldest);
      applied = ("v0", "v1") ∷ ("v1", current_api_version) ∷ [];
      diagnostics = [];
    })
unfolding migrate_to_current
migrated_twice = refl

migrate_to_current-IsSettled_example :
    (o : MigrationOutcome) × (migrate_to_current decision_set registry none oldest ≡ some o)
    × IsSettled decision_set registry none o
migrate_to_current-IsSettled_example =
    migrate_to_current-IsSettled decision_set registry none oldest

abbrev ana : Actor
ana = record { type = ActorType.human; id = "ana"; role = none }

abbrev metadata : Metadata
metadata = record {
  id = "decisions";
  revision = 1;
  title = "Decisions";
  description = none;
  status = Status.accepted;
  owner = none;
  provenance = record {
    origin = ProvenanceOrigin.human;
    actor = ana;
    tool = none;
    sources = none;
    derived_from = none;
    confidence = none;
  };
  acceptance = none;
  supersedes = none;
  labels = none;
}

abbrev option : String → DecisionOption
option id = record {
  id = id;
  summary = id;
  satisfies = none;
  tradeoffs = none;
  risks = none;
  operational_complexity = none;
}

-- The decision chooses among the options it is given.
abbrev storage : List DecisionOption → DecisionSetSpec
storage options = record {
  system = "shop";
  requirement_baseline = plain_ref requirement_baseline "shop" 1;
  decisions =
      record {
        id = "storage";
        title = "Storage";
        category = "data";
        status = DecisionStatus.accepted;
        context = "orders";
        drivers = [];
        options = options;
        chosen_option = some "sql";
        rationale = some "joins";
        consequences = none;
        supersedes = none;
      }
      ∷ [];
}

storage_accepted :
    validate_decision_set metadata (storage (option "sql" ∷ option "files" ∷ [])) "d" ≡ []
unfolding validate_decision_set
storage_accepted = refl

abbrev reported_paths : List Diagnostic → List (Option String)
reported_paths = map (λ (d : Diagnostic). d.path)

-- No option but one that was not chosen.
storage_refused :
    reported_paths (validate_decision_set metadata (storage (option "files" ∷ [])) "d")
    ≡ some "/spec/decisions/0/chosenOption" ∷ some "/spec/decisions/0/options" ∷ []
unfolding validate_decision_set
storage_refused = refl

-- A change that is accepted, whose revision is to be made by its owners.
abbrev owners_work : ChangeRequestSpec
owners_work = record {
  system = "shop";
  base = plain_ref decision_set "decisions" 1;
  proposed = some (plain_ref decision_set "decisions" 2);
  trigger = "review";
  summary = "another option";
  justified_by = [];
  changes = [];
  classification = ChangeClassification.manual_only;
  impact = record {
    components = [];
    evidence_to_invalidate = [];
    owner_work = record { id = "W1"; description = "choose"; component = none } ∷ [];
    migration = none;
  };
}

owners_work_accepted : validate_change_request metadata owners_work "r" ≡ []
unfolding validate_change_request
owners_work_accepted = refl

-- The same revision is no newer one.
same_revision :
    length (
      validate_change_request metadata
        (record owners_work { proposed = some (plain_ref decision_set "decisions" 1) })
        "r")
    ≡ 1
unfolding validate_change_request
same_revision = refl

validate_change_request_iff_example :
    (validate_change_request metadata owners_work "r" ≡ []) ↔ IsSoundChange metadata owners_work
validate_change_request_iff_example = validate_change_request_iff metadata owners_work "r"
