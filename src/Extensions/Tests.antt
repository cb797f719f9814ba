-- ===== src/Extensions/Tests.antt =====
-- kernel/extensions: an adapter that plans two files, with the identity for the hash.
use mathlib.Core.List.{Nodup}
use enistere_foundation.Base.{String, List, [], ◌∷◌, true, none, map, All, ◌≡◌, refl}
use enistere_foundation.Base.Text.Sets.{all_distinct-Nodup}
use enistere_foundation.Contracts.Paths.{is_safe_artifact_path}
use enistere_foundation.Contracts.Digest.{Result, returned, thrown}
use enistere_foundation.Contracts.Digest.Returns.{IsReturned, IsReturned-value}
use enistere_foundation.Contracts.Types.Evidence.{compiler_owned, owner_seeded, AdapterId}
use enistere_foundation.Contracts.Types.System.{OwnershipClass}
use enistere_foundation.Compiler.Ir.{IrComponent}
use enistere_foundation.Extensions.Adapter.{Artifact, PlannedContents, plan_artifacts}
use enistere_foundation.Extensions.Adapter.Laws.{paths, IsPlan, plan_artifacts-IsPlan}
use enistere_foundation.Extensions.Adapter.Returns.{plan_artifacts-IsReturned}

abbrev toy_hash : String → String
toy_hash s = s

abbrev nestjs : AdapterId
nestjs = record { id = "nestjs"; version = "1.0.0" }

abbrev api : IrComponent
api = record {
  id = "api";
  name = "API";
  kind = "service";
  audience = none;
  runtime = record { preferences = []; constraints = [] };
  platform_capabilities = [];
  interactions = [];
  publishes = [];
  subscribes = [];
  implements = [];
  data_access = [];
  integrations = [];
  environments = [];
  ownership = record { class = OwnershipClass.compiler_owned; team = "core" };
  requirements = [];
  decisions = [];
}

abbrev two_files : List Artifact
two_files =
    record { path = "src/main.ts"; content = "main"; ownership = compiler_owned }
    ∷ record { path = "NOTES.md"; content = "notes"; ownership = owner_seeded }
    ∷ []

safe_files : All (λ (a : Artifact). is_safe_artifact_path a.path ≡ true) two_files
unfolding is_safe_artifact_path
safe_files = (refl, (refl, tt))

distinct_files : Nodup (map (λ (a : Artifact). a.path) two_files)
distinct_files = all_distinct-Nodup _ refl

plan_artifacts-IsReturned_example : IsReturned (plan_artifacts toy_hash nestjs api two_files)
plan_artifacts-IsReturned_example =
    plan_artifacts-IsReturned toy_hash nestjs api two_files safe_files distinct_files

plan : (r : PlannedContents) × (plan_artifacts toy_hash nestjs api two_files ≡ returned r)
plan =
    IsReturned-value _
      (plan_artifacts-IsReturned toy_hash nestjs api two_files safe_files distinct_files)

plan_artifacts-IsPlan_example : IsPlan toy_hash api two_files plan.0
plan_artifacts-IsPlan_example = plan_artifacts-IsPlan toy_hash nestjs api two_files plan.0 plan.1

abbrev planned_paths : Result PlannedContents → List String
planned_paths (returned r) = paths r.plan.artifacts
planned_paths (thrown message) = message ∷ []

-- The files are planned in the order of their paths.
plan_artifacts_run :
    planned_paths (plan_artifacts toy_hash nestjs api two_files) ≡ "NOTES.md" ∷ "src/main.ts" ∷ []
unfolding plan_artifacts
plan_artifacts_run = refl
