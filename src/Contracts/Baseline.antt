-- ===== src/Contracts/Baseline.antt =====
-- kernel/contracts/src/contracts/requirement-baseline.ts: the rules of A1.
pub mod Cycles
pub mod Returns
use enistere_foundation.Base.{
  String, ℕ, Bool, true, false, not, ◌&&◌, ◌||◌, List, [], ◌∷◌, ◌++◌, Option, none, some, ◌>>=◌,
  map, is_empty, get_or, includes, flat_map, flat_map_from, decimal, ◌<>◌, ◌==◌, if◌then◌else◌,
}
use enistere_foundation.Contracts.Baseline.Cycles.{dependency_cycles}
use enistere_foundation.Contracts.Checks.{unique_ids, known_ids}
use enistere_foundation.Contracts.Diagnostics.{Diagnostic, diagnostic, located}
use enistere_foundation.Contracts.Diagnostics.Codes.{
  requirement_unknown_source, requirement_unknown_reference, requirement_without_provenance,
  requirement_not_decided, requirement_blocking_ambiguity_open,
  requirement_accepted_without_criteria,
}
use enistere_foundation.Contracts.Types.Baseline.{
  Requirement, RequirementType, RequirementStatus, SourceRef, Statement, BaselineActor, Ambiguity,
  Impact, AmbiguityStatus, RequirementBaselineSpec,
}
use enistere_foundation.Contracts.Types.Common.{Metadata, Status, SourceArtifact}

abbrev source_ids : List SourceArtifact → List String
source_ids = map (λ (s : SourceArtifact). s.id)

abbrev statement_ids : List Statement → List String
statement_ids = map (λ (g : Statement). g.id)

abbrev actor_ids : List BaselineActor → List String
actor_ids = map (λ (a : BaselineActor). a.id)

abbrev requirement_ids : List Requirement → List String
requirement_ids = map (λ (r : Requirement). r.id)

abbrev ambiguity_ids : List Ambiguity → List String
ambiguity_ids = map (λ (a : Ambiguity). a.id)

abbrev requirement_items : Requirement → List String
requirement_items r = r.id ∷ statement_ids (get_or r.acceptance_criteria [])

-- Addressable items.
abbrev requirement_baseline_items : RequirementBaselineSpec → List String
requirement_baseline_items spec =
    statement_ids spec.goals
    ++ actor_ids spec.actors
    ++ flat_map requirement_items spec.requirements
    ++ ambiguity_ids spec.ambiguities

-- `UNDECIDED_REQUIREMENT`
abbrev is_undecided : RequirementStatus → Bool
is_undecided RequirementStatus.inferred = true
is_undecided RequirementStatus.proposed = true
is_undecided _ = false

abbrev status_text : RequirementStatus → String
status_text RequirementStatus.inferred = "INFERRED"
status_text RequirementStatus.proposed = "PROPOSED"
status_text RequirementStatus.accepted = "ACCEPTED"
status_text RequirementStatus.rejected = "REJECTED"
status_text RequirementStatus.deferred = "DEFERRED"

abbrev is_accepted : RequirementStatus → Bool
is_accepted RequirementStatus.accepted = true
is_accepted _ = false

abbrev is_functional : RequirementType → Bool
is_functional RequirementType.functional = true
is_functional _ = false

abbrev is_accepted_baseline : Status → Bool
is_accepted_baseline Status.accepted = true
is_accepted_baseline _ = false

abbrev check_source : List String → String → String → ℕ → SourceRef → List Diagnostic
check_source sources path ref index s =
    if includes sources s.source
    then []
    else diagnostic requirement_unknown_source ("unknown source '" <> s.source <> "'")
        (located ref (path <> "/sourceRefs/" <> decimal index <> "/source"))
      ∷ []

abbrev check_provenance : Requirement → String → String → List Diagnostic
check_provenance r path ref =
    if is_undecided r.status && is_empty (get_or r.source_refs [])
    then diagnostic requirement_without_provenance
        (status_text r.status <> " requirement '" <> r.id <> "' cites no source") (located ref path)
      ∷ []
    else []

abbrev check_decided : Status → Requirement → String → String → List Diagnostic
check_decided status r path ref =
    if is_accepted_baseline status && is_undecided r.status
    then diagnostic requirement_not_decided
        ("requirement '" <> r.id <> "' is still " <> status_text r.status)
        (located ref (path <> "/status"))
      ∷ []
    else []

abbrev check_criteria : Requirement → String → String → List Diagnostic
check_criteria r path ref =
    if is_accepted r.status && is_functional r.type && is_empty (get_or r.acceptance_criteria [])
    then diagnostic requirement_accepted_without_criteria
        ("accepted requirement '" <> r.id <> "' has no acceptance criteria") (located ref path)
      ∷ []
    else []

abbrev unknown_references :
    Option (List String) → List String → String → String → String → List Diagnostic
unknown_references values known path ref label =
    known_ids (get_or values []) known path ref requirement_unknown_reference label

unfoldable pub check_requirement :
    Status → RequirementBaselineSpec → String → ℕ → Requirement → List Diagnostic
unfolding unique_ids known_ids diagnostic decimal
check_requirement status spec ref index r =
    let path = "/spec/requirements/" <> decimal index in
    unique_ids (statement_ids (get_or r.acceptance_criteria [])) (path <> "/acceptanceCriteria") ref
    ++ unknown_references r.goals (statement_ids spec.goals) (path <> "/goals") ref "goal"
    ++ unknown_references r.actors (actor_ids spec.actors) (path <> "/actors") ref "actor"
    ++ unknown_references r.depends_on (requirement_ids spec.requirements) (path <> "/dependsOn")
        ref "requirement"
    ++ unknown_references r.conflicts_with (requirement_ids spec.requirements)
        (path <> "/conflictsWith") ref "requirement"
    ++ flat_map_from 0 (check_source (source_ids spec.sources) path ref) (get_or r.source_refs [])
    ++ check_provenance r path ref
    ++ check_decided status r path ref
    ++ check_criteria r path ref

abbrev is_blocking : Impact → Bool
is_blocking Impact.blocking = true
is_blocking _ = false

abbrev is_opened : AmbiguityStatus → Bool
is_opened AmbiguityStatus.opened = true
is_opened _ = false

unfoldable pub check_ambiguity :
    Status → RequirementBaselineSpec → String → ℕ → Ambiguity → List Diagnostic
unfolding known_ids diagnostic decimal
check_ambiguity status spec ref index a =
    let path = "/spec/ambiguities/" <> decimal index in
    unknown_references a.related_requirements (requirement_ids spec.requirements)
      (path <> "/relatedRequirements") ref "requirement"
    ++ (if is_accepted_baseline status && is_blocking a.impact && is_opened a.status
        then diagnostic requirement_blocking_ambiguity_open
            ("blocking ambiguity '" <> a.id <> "' is still open") (located ref path)
          ∷ []
        else [])

unfoldable pub check_baseline : Metadata → RequirementBaselineSpec → String → List Diagnostic
unfolding unique_ids check_requirement check_ambiguity
check_baseline metadata spec ref =
    unique_ids (source_ids spec.sources) "/spec/sources" ref
    ++ unique_ids (statement_ids spec.goals) "/spec/goals" ref
    ++ unique_ids (actor_ids spec.actors) "/spec/actors" ref
    ++ unique_ids (requirement_ids spec.requirements) "/spec/requirements" ref
    ++ unique_ids (ambiguity_ids spec.ambiguities) "/spec/ambiguities" ref
    ++ flat_map_from 0 (check_requirement metadata.status spec ref) spec.requirements
    ++ flat_map_from 0 (check_ambiguity metadata.status spec ref) spec.ambiguities

-- None only if the search for cycles had too little fuel, which it never has.
unfoldable pub validate_requirement_baseline :
    Metadata → RequirementBaselineSpec → String → Option (List Diagnostic)
unfolding check_baseline dependency_cycles
validate_requirement_baseline metadata spec ref =
    dependency_cycles spec.requirements ref
    >>= (λ cycles. some (check_baseline metadata spec ref ++ cycles))
