-- ===== src/Contracts/Tests/Baselines.antt =====
-- kernel/contracts/src/contracts/requirement-baseline.ts on requirements that depend on each other.
use enistere_foundation.Base.{String, List, [], ◌∷◌, ◌++◌, none, some, map, ◌>>=◌, ◌≡◌, refl}
use enistere_foundation.Contracts.Baseline.{check_baseline, validate_requirement_baseline}
use enistere_foundation.Contracts.Baseline.Cycles.{dependency_cycles}
use enistere_foundation.Contracts.Baseline.Returns.{validate_requirement_baseline-IsReturned}
use enistere_foundation.Contracts.Diagnostics.{Diagnostic}
use enistere_foundation.Contracts.Types.Baseline.{
  Requirement, RequirementType, Priority, RequirementStatus, RequirementBaselineSpec,
}
use enistere_foundation.Contracts.Types.Common.{Metadata, Status, ProvenanceOrigin, ActorType}

abbrev requirement : String → List String → Requirement
requirement id depends_on = record {
  id = id;
  type = RequirementType.security;
  statement = id;
  priority = Priority.must;
  status = RequirementStatus.accepted;
  goals = none;
  actors = none;
  source_refs = none;
  acceptance_criteria = none;
  depends_on = some depends_on;
  conflicts_with = none;
  owner = none;
  confidence = none;
}

abbrev circular : List Requirement
circular =
    requirement "R1" ("R3" ∷ "R2" ∷ [])
    ∷ requirement "R2" ("R3" ∷ [])
    ∷ requirement "R3" ("R1" ∷ "R4" ∷ [])
    ∷ []

abbrev messages : List Diagnostic → List String
messages = map (λ (d : Diagnostic). d.message)

cycle_found :
    (dependency_cycles circular "r" >>= (λ found. some (messages found)))
    ≡ some ("dependency cycle R1 → R2 → R3 → R1" ∷ [])
unfolding dependency_cycles
cycle_found = refl

abbrev baseline : RequirementBaselineSpec
baseline = record {
  system = "shop";
  sources = [];
  goals = [];
  actors = [];
  requirements = circular;
  ambiguities = [];
}

abbrev metadata : Metadata
metadata = record {
  id = "needs";
  revision = 1;
  title = "Needs";
  description = none;
  status = Status.accepted;
  owner = none;
  provenance = record {
    origin = ProvenanceOrigin.human;
    actor = record { type = ActorType.human; id = "ann"; role = none };
    tool = none;
    sources = none;
    derived_from = none;
    confidence = none;
  };
  acceptance = none;
  supersedes = none;
  labels = none;
}

-- The dependency that is not there is reported, and the cycle.
baseline_checked :
    (validate_requirement_baseline metadata baseline "r" >>= (λ found. some (messages found)))
    ≡ some ("unknown requirement 'R4'" ∷ "dependency cycle R1 → R2 → R3 → R1" ∷ [])
unfolding validate_requirement_baseline
baseline_checked = refl

validate_requirement_baseline-IsReturned_example :
    (cycles : List Diagnostic) × (dependency_cycles circular "r" ≡ some cycles)
    × (validate_requirement_baseline metadata baseline "r"
        ≡ some (check_baseline metadata baseline "r" ++ cycles))
validate_requirement_baseline-IsReturned_example =
    validate_requirement_baseline-IsReturned metadata baseline "r"
