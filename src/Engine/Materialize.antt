-- ===== src/Engine/Materialize.antt =====
-- engine/materializer/src/materialize.ts: MATERIALIZE, one component at a time.
-- A component directory is a map from paths below it, their segments joined by slashes, to contents,
-- and the files of `.foundation/records` that `readRecords` keeps. A call that throws gives the
-- message alone.
pub mod Apply
pub mod Command
pub mod Decisions
pub mod Atomicity
pub mod Effects
pub mod History
pub mod InPlace
pub mod Planning
pub mod Program
pub mod Replay
pub mod Workspace
pub mod Recorded
pub mod Runs
pub mod Safety
use Prim.Native.Nat.{Ordering, compare}
use mathlib.Core.Option
use enistere_foundation.Base.{
  String, ℕ, ◌+◌, Bool, List, [], ◌∷◌, ◌++◌, Option, none, some, map, any, keep, last?, join,
  get_or, ◌<>◌, decimal, if◌then◌else◌,
}
use enistere_foundation.Base.Dict.{get, put, from_entries}
use enistere_foundation.Base.Paths.{resolve, below}
use enistere_foundation.Base.Sorting.{sort}
use enistere_foundation.Base.Sorting.Order.{by}
use enistere_foundation.Contracts.Diagnostics.{
  Diagnostic, diagnostic, engine_materializer, sort_diagnostics,
}
use enistere_foundation.Contracts.Diagnostics.Codes.{materialize_conflict}
use enistere_foundation.Contracts.Digest.{Result, returned, thrown, ◌>>=◌, file_digest}
use enistere_foundation.Contracts.Identity.{MaterializationRecord, pinned_ref}
use enistere_foundation.Contracts.Refs.{ContractRef, Digest}
use enistere_foundation.Contracts.Types.Common.{
  Actor, ActorType, Metadata, Provenance, ProvenanceOrigin, Status, Tool,
}
use enistere_foundation.Contracts.Types.Evidence.{
  AdapterId, WriteDecision, create, MaterializationOutcome, MaterializationRecordSpec, RecordedFile,
}
use enistere_foundation.Compiler.Ir.{IrComponent}
use enistere_foundation.Extensions.Ownership.{PlannedArtifact, decide_write, writes, is_conflict}
use enistere_foundation.Extensions.Adapter.{ArtifactPlan}

pub record Directory : Type 0 where
  pub files : List (String × String)
  pub records : List (String × MaterializationRecord)

abbrev pub empty_directory : Directory
empty_directory = record { files = []; records = [] }

pub record PlannedComponent : Type 0 where
  pub component : IrComponent
  pub plan : ArtifactPlan
  pub contents : List (String × String)

-- What MATERIALIZE reads of a `PlanResult`: the system, the definition (its text and its parsed
-- reference with the digest), the digests of the closure and of the plan.
pub record Compilation : Type 0 where
  pub system : String
  pub definition : String
  pub definition_ref : ContractRef
  pub closure : Digest
  pub plan : Digest

abbrev pub materializer_id : String
materializer_id = "foundation-engine-materializer"

abbrev compiler_actor : Actor
compiler_actor = record { type = ActorType.compiler; id = materializer_id; role = none }

abbrev compiler_tool : Tool
compiler_tool = record { name = "@enistere/foundation-engine-materializer"; version = "0.2.0" }

unfoldable pub record_file : MaterializationRecord → String
record_file r =
    "materialization-record--" <> r.metadata.id <> "--r" <> decimal r.metadata.revision <> ".json"

abbrev pub by_revision : MaterializationRecord → MaterializationRecord → Ordering
by_revision = by compare (λ (r : MaterializationRecord). r.metadata.revision)

-- Every stored record, oldest first; the latest is the ownership inventory.
unfoldable pub read_records : Directory → List MaterializationRecord
unfolding sort
read_records d = sort by_revision (map (λ (e : String × MaterializationRecord). e.1) d.records)

unfoldable pub latest_record : Directory → Option MaterializationRecord
unfolding read_records
latest_record d = last? (read_records d)

pub record DecidedFile : Type 0 where
  pub artifact : PlannedArtifact
  pub target : String
  pub decision : WriteDecision

abbrev pub recorded : List (String × WriteDecision) → PlannedArtifact → RecordedFile
recorded decisions a = record {
  path = a.path;
  ownership = a.ownership;
  digest = a.digest;
  decision = get_or (get decisions a.path) create;
}

abbrev pub outcome_of : List (String × WriteDecision) → MaterializationOutcome
outcome_of decisions =
    if any (λ (e : String × WriteDecision). is_conflict e.1) decisions
    then MaterializationOutcome.conflict
    else MaterializationOutcome.applied

abbrev pub previous_revision : Option MaterializationRecord → ℕ
previous_revision none = 0
previous_revision (some r) = r.metadata.revision

abbrev pub last_written : Option MaterializationRecord → List (String × Digest)
last_written none = []
last_written (some r) =
    from_entries [] (map (λ (f : RecordedFile). (f.path, f.digest)) r.spec.files)

-- `writeFileSync(file.target, contents.get(file.path) as string)`
abbrev pub write_content :
    Option String → String → List (String × String) → Result (List (String × String))
write_content none target files = thrown "The \"data\" argument must be of type string"
write_content (some content) target files = returned (put files target content)

-- The writes of an applied materialization, in order.
unfoldable pub write_files :
    List (String × String)
    → List DecidedFile
    → List (String × String)
    → Result (List (String × String))
unfolding put
write_files contents [] files = returned files
write_files contents (f ∷ fs) files =
    let kept = write_files contents fs files in
    let written =
      (write_content (get contents f.artifact.path) f.target files >>= write_files contents fs) in
    if writes f.decision then written else kept

module _ (sha256 : String → String) where
  -- `if (previous) record.metadata.supersedes = pinnedRef(previous)`
  superseded_ref : Option MaterializationRecord → Result (Option ContractRef)
  superseded_ref none = returned none
  superseded_ref (some previous) = do ref ← pinned_ref sha256 previous; returned (some ref)

  unfoldable pub materialization_record :
      Compilation
      → PlannedComponent
      → List (String × WriteDecision)
      → String
      → Option MaterializationRecord
      → Result MaterializationRecord
  unfolding superseded_ref pinned_ref
  materialization_record result planned decisions executed_at previous = do
    supersedes ← superseded_ref previous
    returned (record {
      api_version = "foundation.enistere.com/v1alpha1";
      metadata = record {
        id = result.system <> "-" <> planned.component.id <> "-materialization";
        revision = previous_revision previous + 1;
        title =
            planned.component.id <> " — materialization by " <> planned.plan.adapter.id <> "@"
            <> planned.plan.adapter.version;
        description = none;
        status = Status.valid;
        owner = none;
        provenance = record {
          origin = ProvenanceOrigin.compiler;
          actor = compiler_actor;
          tool = some compiler_tool;
          sources = none;
          derived_from = none;
          confidence = none;
        };
        acceptance = none;
        supersedes = supersedes;
        labels = none;
      };
      spec = record {
        system = result.system;
        subject = record { contract = result.definition_ref; component = planned.component.id };
        closure = result.closure;
        plan = result.plan;
        adapter = planned.plan.adapter;
        produced_by = compiler_actor;
        outcome = outcome_of decisions;
        executed_at = executed_at;
        files = map (recorded decisions) planned.plan.artifacts;
      };
    })

  -- The target of an artifact, its state on disk, and the decision.
  unfoldable pub decide_at :
      Option (List String)
      → List (String × String)
      → List (String × Digest)
      → PlannedArtifact
      → Result DecidedFile
  unfolding decide_write file_digest
  decide_at none files written a =
      thrown ("artifact path escapes the component directory: " <> a.path)
  decide_at (some segments) files written a = returned (record {
    artifact = a;
    target = join "/" segments;
    decision =
        decide_write a (Option.map (file_digest sha256) (get files (join "/" segments)))
          (get written a.path);
  })

  unfoldable pub decide_files :
      List String
      → List (String × String)
      → List (String × Digest)
      → List PlannedArtifact
      → Result (List DecidedFile)
  unfolding decide_at below resolve
  decide_files directory files written [] = returned []
  decide_files directory files written (a ∷ artifacts) = do
    file ← decide_at (below directory (resolve directory a.path)) files written a
    rest ← decide_files directory files written artifacts
    returned (file ∷ rest)
