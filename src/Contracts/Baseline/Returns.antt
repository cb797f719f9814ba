-- ===== src/Contracts/Baseline/Returns.antt =====
-- kernel/contracts/src/contracts/requirement-baseline.ts: the validation of a baseline ends.
use enistere_foundation.Base.{String, List, ◌++◌, some, ◌≡◌, refl}
use enistere_foundation.Contracts.Baseline.{check_baseline, validate_requirement_baseline}
use enistere_foundation.Contracts.Baseline.Cycles.{dependency_cycles}
use enistere_foundation.Contracts.Baseline.Cycles.Enough.{dependency_cycles-IsReturned}
use enistere_foundation.Contracts.Diagnostics.{Diagnostic}
use enistere_foundation.Contracts.Types.Baseline.{RequirementBaselineSpec}
use enistere_foundation.Contracts.Types.Common.{Metadata}

-- The validation of a requirement baseline ends whatever its dependencies are: the search for
-- cycles never runs out of its fuel, and the result is what the other rules report, followed by
-- the cycles that it finds.
pub validate_requirement_baseline-IsReturned :
    (metadata : Metadata) (spec : RequirementBaselineSpec) (ref : String)
    → (cycles : List Diagnostic) × (dependency_cycles spec.requirements ref ≡ some cycles)
      × (validate_requirement_baseline metadata spec ref
          ≡ some (check_baseline metadata spec ref ++ cycles))
unfolding validate_requirement_baseline
validate_requirement_baseline-IsReturned metadata spec ref =
    let (cycles, e) = dependency_cycles-IsReturned spec.requirements ref in (cycles, e, rw e refl)
