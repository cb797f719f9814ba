-- ===== src/Engine/Tests.antt =====
-- Runs of engine/materializer on one component, with the identity for the hash.
pub mod Command
use Prim.Native.Nat.{◌<◌}
use mathlib.Core.List.{Nodup, Nodup-nil, Nodup-cons}
use enistere_foundation.Base.{
  String, List, [], ◌∷◌, Option, some, none, join, map, get_or, All, ◌≡◌, ◌≢◌, ◌⊎◌, refl, sym, ap,
  Any, ◌+◌,
}
use enistere_foundation.Base.Text.Sets.{all_distinct, all_distinct-Nodup}
use enistere_foundation.Base.Dict.{get}
use enistere_foundation.Base.Paths.{resolve, below, split_slash}
use enistere_foundation.Contracts.Paths.{is_safe_artifact_path}
use enistere_foundation.Contracts.Refs.{plain_ref, system_definition}
use enistere_foundation.Contracts.Digest.{Result, returned, thrown, file_digest}
use enistere_foundation.Contracts.Digest.Returns.{IsReturned, IsReturned-value}
use enistere_foundation.Contracts.Identity.{MaterializationRecord}
use enistere_foundation.Contracts.Types.Common.{
  Metadata, Status, ProvenanceOrigin, ActorType, Provenance, Actor,
}
use enistere_foundation.Contracts.Types.Evidence.{
  compiler_owned, owner_seeded, AdapterId, applied, conflict, unchanged, keep_owner,
}
use enistere_foundation.Contracts.Types.System.{Ownership, OwnershipClass}
use enistere_foundation.Compiler.Ir.{IrComponent, IrRuntime}
use enistere_foundation.Extensions.Ownership.{PlannedArtifact}
use enistere_foundation.Extensions.Adapter.{ArtifactPlan}
use enistere_foundation.Extensions.Adapter.Laws.{paths, IsBacked}
use enistere_foundation.Engine.Materialize.{
  Directory, empty_directory, PlannedComponent, Compilation, DecidedFile, latest_record,
  previous_revision,
}
use enistere_foundation.Engine.Materialize.Apply.{Materialized, materialize_component}
use enistere_foundation.Engine.Materialize.Runs.{component_path, written_before}
use enistere_foundation.Engine.Materialize.Atomicity.{
  IsChangedOutside, materialize_component-atomic,
}
use enistere_foundation.Engine.Materialize.History.{values, materialize_component-latest}
use enistere_foundation.Engine.Materialize.Replay.{materialize_component-replay}
use enistere_foundation.Engine.Materialize.Safety.{IsOverwrittenBy, materialize_component-keeps}
use enistere_foundation.Engine.Materialize.InPlace.{
  target_of, IsInPlace, materialize_component-IsInPlace,
}

abbrev toy_hash : String → String
toy_hash s = s

abbrev compilation : Compilation
compilation = record {
  system = "shop";
  definition = "SystemDefinition/shop@1";
  definition_ref = plain_ref system_definition "shop" 1;
  closure = "sha256:c";
  plan = "sha256:p";
}

abbrev api : IrComponent
api = record {
  id = "api";
  name = "API";
  kind = "service";
  audience = none;
  runtime = record { preferences = []; constraints = [] };
  platform_capabilities = [];
  interactions = [];
  publishes = [];
  subscribes = [];
  implements = [];
  data_access = [];
  integrations = [];
  environments = [];
  ownership = record { class = OwnershipClass.compiler_owned; team = "core" };
  requirements = [];
  decisions = [];
}

abbrev main_file : PlannedArtifact
main_file = record { path = "src/main.ts"; ownership = compiler_owned; digest = "sha256:main 2" }

abbrev notes : PlannedArtifact
notes = record { path = "NOTES.md"; ownership = owner_seeded; digest = "sha256:notes" }

abbrev planned_api : PlannedComponent
planned_api = record {
  component = api;
  plan = record {
    component = "api";
    adapter = record { id = "nestjs"; version = "1.0.0" };
    ownership = OwnershipClass.compiler_owned;
    artifacts = notes ∷ main_file ∷ [];
    digest = "sha256:plan";
  };
  contents = ("src/main.ts", "main 2") ∷ ("NOTES.md", "notes") ∷ [];
}

abbrev next_main : PlannedArtifact
next_main = record { path = "src/main.ts"; ownership = compiler_owned; digest = "sha256:main 3" }

abbrev replanned_api : PlannedComponent
replanned_api = record planned_api {
  plan = record planned_api.plan { artifacts = notes ∷ next_main ∷ [] };
  contents = ("src/main.ts", "main 3") ∷ ("NOTES.md", "notes") ∷ [];
}

-- A checkout whose generated file was edited by hand.
abbrev edited : Directory
edited = record { files = ("src/main.ts", "edited") ∷ []; records = [] }

abbrev root : List String
root = "work" ∷ []

abbrev today : String
today = "2026-01-01T00:00:00Z"

abbrev tomorrow : String
tomorrow = "2026-01-02T00:00:00Z"

run : String → PlannedComponent → Directory → Result Materialized
unfolding materialize_component
run at planned d = materialize_component toy_hash compilation root at planned d

abbrev value {ℓ} : {A : Type ℓ} → A → Result A → A
value default (returned a) = a
value default (thrown message) = default

-- What a run gives, where it returns.
abbrev blank_record : MaterializationRecord
blank_record = record {
  api_version = "";
  metadata = record {
    id = "";
    revision = 0;
    title = "";
    description = none;
    status = Status.valid;
    owner = none;
    provenance = record {
      origin = ProvenanceOrigin.compiler;
      actor = record { type = ActorType.compiler; id = ""; role = none };
      tool = none;
      sources = none;
      derived_from = none;
      confidence = none;
    };
    acceptance = none;
    supersedes = none;
    labels = none;
  };
  spec = record {
    system = "";
    subject = record { contract = plain_ref system_definition "" 0; component = "" };
    closure = "";
    plan = "";
    adapter = record { id = ""; version = "" };
    produced_by = record { type = ActorType.compiler; id = ""; role = none };
    outcome = conflict;
    executed_at = "";
    files = [];
  };
}

abbrev blank : Materialized
blank = record { directory = empty_directory; decided = []; new = blank_record; found = [] }

first : Materialized
unfolding run
first = value blank (run today planned_api empty_directory)

first_returned :
    materialize_component toy_hash compilation root today planned_api empty_directory
    ≡ returned first
unfolding first
first_returned = refl

first_applied : first.new.spec.outcome ≡ applied
unfolding first
first_applied = refl

backed : All (IsBacked toy_hash planned_api.contents) planned_api.plan.artifacts
unfolding is_safe_artifact_path get file_digest
backed = (
  record { safe = refl; content = "notes"; found = refl; hashed = refl },
  (record { safe = refl; content = "main 2"; found = refl; hashed = refl }, tt),
)

distinct : Nodup (paths planned_api.plan.artifacts)
distinct = all_distinct-Nodup _ refl

apart : Nodup (map (target_of (component_path root planned_api)) planned_api.plan.artifacts)
unfolding below resolve join
apart = all_distinct-Nodup _ refl

second : Materialized
unfolding run first
second = value blank (run tomorrow planned_api first.directory)

second_returned :
    materialize_component toy_hash compilation root tomorrow planned_api first.directory
    ≡ returned second
unfolding second
second_returned = refl

third : Materialized
unfolding run first
third = value blank (run tomorrow replanned_api first.directory)

third_returned :
    materialize_component toy_hash compilation root tomorrow replanned_api first.directory
    ≡ returned third
unfolding third
third_returned = refl

refused_run : Materialized
unfolding run
refused_run = value blank (run today planned_api edited)

refused_returned :
    materialize_component toy_hash compilation root today planned_api edited ≡ returned refused_run
unfolding refused_run
refused_returned = refl

main_before : get first.directory.files "src/main.ts" ≡ some "main 2"
unfolding first get
main_before = refl

materialize_component-keeps_example :
    (get third.directory.files "src/main.ts" ≡ some "main 2")
    ⊎ Any
        (IsOverwrittenBy toy_hash
          (component_path root replanned_api)
          (written_before first.directory)
          replanned_api.contents
          third.directory.files
          "src/main.ts"
          "main 2")
        replanned_api.plan.artifacts
materialize_component-keeps_example =
    materialize_component-keeps toy_hash compilation root tomorrow replanned_api first.directory
      third "src/main.ts" "main 2" third_returned main_before

materialize_component-atomic_example :
    ((refused_run.new.spec.outcome ≡ conflict)
      × Any
          (IsChangedOutside toy_hash
            (component_path root planned_api)
            edited.files
            (written_before edited))
          planned_api.plan.artifacts
      × (refused_run.found ≢ [])
      × (refused_run.directory ≡ edited))
    ⊎ ((refused_run.new.spec.outcome ≡ applied)
        × All
            (λ a.
              ¬ IsChangedOutside toy_hash
                (component_path root planned_api)
                edited.files
                (written_before edited)
                a)
            planned_api.plan.artifacts
        × (refused_run.found ≡ []))
materialize_component-atomic_example =
    materialize_component-atomic toy_hash compilation root today planned_api edited refused_run
      distinct refused_returned

materialize_component-IsInPlace_example :
    All
      (IsInPlace toy_hash
        (component_path root planned_api)
        planned_api.contents
        empty_directory.files
        first.directory.files)
      planned_api.plan.artifacts
materialize_component-IsInPlace_example =
    materialize_component-IsInPlace toy_hash compilation root today planned_api empty_directory
      first distinct apart backed first_returned first_applied

materialize_component-replay_example :
    (second.new.spec.outcome ≡ applied)
    × (second.directory.files ≡ first.directory.files)
    × All (λ (f : DecidedFile). (f.decision ≡ unchanged) ⊎ (f.decision ≡ keep_owner)) second.decided
materialize_component-replay_example =
    materialize_component-replay toy_hash root compilation compilation today tomorrow planned_api
      empty_directory first second distinct apart backed first_returned first_applied
      second_returned

materialize_component-latest_example :
    (latest_record first.directory ≡ some first.new)
    × (first.new.metadata.revision ≡ previous_revision (latest_record empty_directory) + 1)
    × All
        (λ (r : MaterializationRecord). r.metadata.revision < first.new.metadata.revision)
        (values empty_directory.records)
materialize_component-latest_example =
    materialize_component-latest toy_hash compilation root today planned_api empty_directory first
      first_returned first_applied
