-- ===== src/Engine/Tests/Command.antt =====
-- Runs of engine/materializer on a workspace: a plan that is applied, and one whose waiver expired.
use enistere_foundation.Base.{
  String, ℕ, true, ◌&&◌, List, [], ◌∷◌, ◌++◌, ◌==◌, Option, some, none, any, All, ◌≡◌, refl,
  if◌then◌else◌, length,
}
use enistere_foundation.Base.Dict.{get}
use enistere_foundation.Contracts.Checks.{timestamp}
use enistere_foundation.Contracts.Diagnostics.{has_errors}
use enistere_foundation.Contracts.Digest.{Result, returned, thrown}
use enistere_foundation.Contracts.Json.{null}
use enistere_foundation.Contracts.Materialization.{inconsistent, validate_materialization_record}
use enistere_foundation.Contracts.Types.Evidence.{compiler_owned, owner_seeded}
use enistere_foundation.Compiler.Plan.{materialize_step}
use enistere_foundation.Contracts.Types.System.{OwnershipClass}
use enistere_foundation.Compiler.Policy.{PolicyEvaluation, PolicyOutcome}
use enistere_foundation.Extensions.Ownership.{writes}
use enistere_foundation.Engine.Materialize.{Directory, empty_directory, DecidedFile}
use enistere_foundation.Engine.Materialize.Apply.{Outcome, in_conflict}
use enistere_foundation.Engine.Materialize.Command.{
  IsGated, materialize-IsGated, materialize-HasFile,
}
use enistere_foundation.Engine.Materialize.Planning.{
  LoadedAdapter, PlanResult, Planned, plan_materialization, materialize,
}
use enistere_foundation.Engine.Materialize.Program.{IsAccepted, plan_materialization-IsAccepted}
use enistere_foundation.Engine.Materialize.Recorded.{validate-materialize_component}
use enistere_foundation.Engine.Materialize.Workspace.{HasFile, directory_of}
use enistere_foundation.Engine.Tests.{
  toy_hash, compilation, api, planned_api, root, today, tomorrow, value, edited, refused_run,
  refused_returned, distinct, backed,
}

-- The instants of two days.
abbrev toy_date : String → Option ℕ
toy_date s = if s == today then some 1 else if s == tomorrow then some 2 else none

abbrev nestjs : LoadedAdapter
nestjs = record {
  id = "nestjs";
  version = "1.0.0";
  describe = record { id = "nestjs"; version = "1.0.0" };
  validate_intent = λ c. returned [];
  plan = λ c. returned (
      record { path = "src/main.ts"; content = "main"; ownership = compiler_owned }
      ∷ record { path = "NOTES.md"; content = "notes"; ownership = owner_seeded }
      ∷ []);
}

abbrev host : List (String × LoadedAdapter)
host = ("nestjs", nestjs) ∷ []

abbrev waived_until_today : PolicyEvaluation
waived_until_today = record {
  rule = "data.residency";
  category = "DATA";
  subject = some "production";
  outcome = PolicyOutcome.waived;
  expected = null;
  actual = null;
  waiver = some (record { id = "w"; expires_at = today });
  reason = none;
}

abbrev plan_result : PlanResult
plan_result = record {
  compiled = some compilation;
  definition = some "SystemDefinition/shop@1";
  components = api ∷ [];
  steps =
      materialize_step (record {
        component = "api";
        adapter = record { id = "nestjs"; version = "1.0.0" };
        runtime = "node";
        ownership = OwnershipClass.compiler_owned;
        environments = [];
        contracts = [];
      })
      ∷ [];
  policy = waived_until_today ∷ [];
}

-- The workspace has a file of the component's own.
abbrev workspace : List (String × Directory)
workspace =
    ("api", record { files = ("owned.ts", "mine") ∷ []; records = [] })
    ∷ ("web", empty_directory)
    ∷ []

run_at : String → Result Outcome
unfolding materialize
run_at at = materialize toy_hash host toy_date root at plan_result workspace

abbrev blank_outcome : Outcome
blank_outcome = record { workspace = []; records = []; diagnostics = [] }

applied_outcome : Outcome
unfolding run_at
applied_outcome = value blank_outcome (run_at today)

applied_returned :
    materialize toy_hash host toy_date root today plan_result workspace ≡ returned applied_outcome
unfolding applied_outcome
applied_returned = refl

expired_outcome : Outcome
unfolding run_at
expired_outcome = value blank_outcome (run_at tomorrow)

expired_returned :
    materialize toy_hash host toy_date root tomorrow plan_result workspace
    ≡ returned expired_outcome
unfolding expired_outcome
expired_returned = refl

-- The day after the waiver expired nothing is recorded.
expired_run : length expired_outcome.records ≡ 0
unfolding expired_outcome
expired_run = refl

applied_run : length applied_outcome.records ≡ 1
unfolding applied_outcome
applied_run = refl

owned_there : HasFile (directory_of workspace "api").files "owned.ts"
unfolding get
owned_there = refl

materialize-IsGated_example :
    IsGated toy_hash host toy_date root tomorrow plan_result workspace expired_outcome
materialize-IsGated_example =
    materialize-IsGated toy_hash host toy_date root tomorrow plan_result workspace expired_outcome
      expired_returned

materialize-HasFile_example :
    HasFile (directory_of applied_outcome.workspace "api").files "owned.ts"
materialize-HasFile_example =
    materialize-HasFile toy_hash host toy_date root today plan_result workspace applied_outcome
      "api" "owned.ts" applied_returned owned_there

planned_run : Planned
unfolding plan_materialization
planned_run =
    value (record { components = []; diagnostics = [] })
      (plan_materialization toy_hash host plan_result)

planned_returned : plan_materialization toy_hash host plan_result ≡ returned planned_run
unfolding planned_run
planned_returned = refl

plan_materialization-IsAccepted_example : All (IsAccepted toy_hash) planned_run.components
plan_materialization-IsAccepted_example =
    plan_materialization-IsAccepted toy_hash host plan_result planned_run planned_returned

-- The component is planned.
planned_one : length planned_run.components ≡ 1
unfolding planned_run
planned_one = refl

-- A check of the intent that throws is not caught.
rejected_run :
    plan_materialization toy_hash
      (("nestjs", record nestjs { validate_intent = λ c. thrown "no" }) ∷ [])
      plan_result
    ≡ thrown "no"
unfolding plan_materialization
rejected_run = refl

validate-materialize_component_example :
    validate_materialization_record toy_date refused_run.new "MaterializationRecord/r@1"
    ≡ timestamp toy_date
        (some refused_run.new.spec.executed_at)
        "/spec/executedAt"
        "MaterializationRecord/r@1"
      ++ (if any in_conflict refused_run.decided
            && any (λ (f : DecidedFile). writes f.decision) refused_run.decided
          then inconsistent "a CONFLICT outcome records at least one conflict and no write"
              "MaterializationRecord/r@1" "/spec/outcome"
            ∷ []
          else [])
validate-materialize_component_example =
    validate-materialize_component toy_hash compilation root today toy_date planned_api edited
      refused_run "MaterializationRecord/r@1" distinct backed refused_returned

-- The edited file is in conflict and the other one is recorded as created: the record breaks the rule.
refused_record_run :
    has_errors
      (validate_materialization_record toy_date refused_run.new "MaterializationRecord/r@1")
    ≡ true
unfolding refused_run validate_materialization_record
refused_record_run = refl
