-- ===== src/Contracts/Identity.antt =====
-- kernel/contracts/src/identity.ts: the content digest and the pinned reference of a document.
-- The functions named `…_json` give the JSON value that a typed document is in the program; a member
-- that is undefined is left out.
pub mod Plain
use enistere_foundation.Base.{
  String, ℕ, Bool, List, [], ◌∷◌, map, Option, none, some, decimal, if◌then◌else◌,
}
use mathlib.Core.Option
use enistere_foundation.Contracts.Json.{
  Json, bool, finite_number, text, array, object, array_of, object_of,
}
use enistere_foundation.Contracts.Digest.{Result, returned, ◌>>=◌, digest_of}
use enistere_foundation.Contracts.Refs.{
  ContractRef, ContractKind, Digest, kind_text, materialization_record, plain_ref,
}
use enistere_foundation.Contracts.Types.Common.{
  Actor, SourceArtifact, Tool, Provenance, ExternalRef, Acceptance, Owner, Metadata,
}
use enistere_foundation.Contracts.Types.Evidence.{
  MaterializationRecordSpec, RecordedFile, WriteDecision, create, update, unchanged, keep_owner,
  conflict, MaterializationOutcome, ArtifactOwnership, compiler_owned, owner_seeded,
}
use enistere_foundation.Contracts.Authority.{actor_text, origin_text, decision_text}

-- `MaterializationRecord`
pub record MaterializationRecord : Type 0 where
  pub api_version : String
  pub metadata : Metadata
  pub spec : MaterializationRecordSpec

-- The members that are defined.
abbrev defined : List (String × Option Json) → List (String × Json)
defined [] = []
defined ((k, none) ∷ ms) = defined ms
defined ((k, some v) ∷ ms) = (k, v) ∷ defined ms

fields : List (String × Option Json) → Json
fields ms = object (object_of (defined ms))

abbrev texts : String → Option Json
texts t = some (text t)

abbrev text_if : Option String → Option Json
text_if = Option.map text

abbrev list_json {ℓ} : {A : Type ℓ} → (A → Json) → List A → Json
list_json f xs = array (array_of (map f xs))

ref_json : ContractRef → Json
ref_json r = fields (
    ("kind", texts (kind_text r.kind))
    ∷ ("id", texts r.id)
    ∷ ("revision", some (finite_number (decimal r.revision)))
    ∷ ("digest", text_if r.digest)
    ∷ ("item", text_if r.item)
    ∷ [])

actor_json : Actor → Json
actor_json a =
    fields
      (("type", texts (actor_text a.type)) ∷ ("id", texts a.id) ∷ ("role", text_if a.role) ∷ [])

source_json : SourceArtifact → Json
source_json s = fields (
    ("id", texts s.id)
    ∷ ("type", texts s.type)
    ∷ ("uri", texts s.uri)
    ∷ ("digest", text_if s.digest)
    ∷ ("title", text_if s.title)
    ∷ [])

tool_json : Tool → Json
tool_json t = fields (("name", texts t.name) ∷ ("version", texts t.version) ∷ [])

provenance_json : Provenance → Json
provenance_json p = fields (
    ("origin", texts (origin_text p.origin))
    ∷ ("actor", some (actor_json p.actor))
    ∷ ("tool", Option.map tool_json p.tool)
    ∷ ("sources", Option.map (list_json source_json) p.sources)
    ∷ ("derivedFrom", Option.map (list_json ref_json) p.derived_from)
    ∷ ("confidence", Option.map finite_number p.confidence)
    ∷ [])

external_json : ExternalRef → Json
external_json e = fields (
    ("type", texts e.type)
    ∷ ("id", texts e.id)
    ∷ ("version", texts e.version)
    ∷ ("digest", text_if e.digest)
    ∷ [])

acceptance_json : Acceptance → Json
acceptance_json a = fields (
    ("decision", texts (decision_text a.decision))
    ∷ ("authority", texts "DECIDE")
    ∷ ("actor", some (actor_json a.actor))
    ∷ ("at", texts a.at)
    ∷ ("rationale", text_if a.rationale)
    ∷ ("approvalPolicy", Option.map external_json a.approval_policy)
    ∷ [])

owner_json : Owner → Json
owner_json o = fields (("team", texts o.team) ∷ ("contact", text_if o.contact) ∷ [])

labels_json : List (String × String) → Json
labels_json ls = object (object_of (map (λ (l : String × String). (l.0, text l.1)) ls))

-- `const { status: _status, ...metadata } = document.metadata`
metadata_json : Metadata → Json
metadata_json m = fields (
    ("id", texts m.id)
    ∷ ("revision", some (finite_number (decimal m.revision)))
    ∷ ("title", texts m.title)
    ∷ ("description", text_if m.description)
    ∷ ("owner", Option.map owner_json m.owner)
    ∷ ("provenance", some (provenance_json m.provenance))
    ∷ ("acceptance", Option.map acceptance_json m.acceptance)
    ∷ ("supersedes", Option.map ref_json m.supersedes)
    ∷ ("labels", Option.map labels_json m.labels)
    ∷ [])

write_text : WriteDecision → String
write_text create = "CREATE"
write_text update = "UPDATE"
write_text unchanged = "UNCHANGED"
write_text keep_owner = "KEEP_OWNER"
write_text conflict = "CONFLICT"

outcome_text : MaterializationOutcome → String
outcome_text MaterializationOutcome.applied = "APPLIED"
outcome_text MaterializationOutcome.conflict = "CONFLICT"

ownership_text : ArtifactOwnership → String
ownership_text compiler_owned = "COMPILER_OWNED"
ownership_text owner_seeded = "OWNER_SEEDED"

file_json : RecordedFile → Json
file_json f = fields (
    ("path", texts f.path)
    ∷ ("ownership", texts (ownership_text f.ownership))
    ∷ ("digest", texts f.digest)
    ∷ ("decision", texts (write_text f.decision))
    ∷ [])

spec_json : MaterializationRecordSpec → Json
spec_json s = fields (
    ("system", texts s.system)
    ∷ (
      "subject",
      some (
          fields (
            ("contract", some (ref_json s.subject.contract))
            ∷ ("component", texts s.subject.component)
            ∷ [])),
    )
    ∷ ("closure", texts s.closure)
    ∷ ("plan", texts s.plan)
    ∷ (
      "adapter",
      some (fields (("id", texts s.adapter.id) ∷ ("version", texts s.adapter.version) ∷ [])),
    )
    ∷ ("producedBy", some (actor_json s.produced_by))
    ∷ ("outcome", texts (outcome_text s.outcome))
    ∷ ("executedAt", texts s.executed_at)
    ∷ ("files", some (list_json file_json s.files))
    ∷ [])

unfoldable pub content_of : MaterializationRecord → Json
unfolding fields metadata_json spec_json ref_json actor_json source_json tool_json provenance_json
    external_json acceptance_json owner_json labels_json file_json write_text outcome_text
    ownership_text decision_text origin_text
content_of d = fields (
    ("apiVersion", texts d.api_version)
    ∷ ("kind", texts (kind_text materialization_record))
    ∷ ("metadata", some (metadata_json d.metadata))
    ∷ ("spec", some (spec_json d.spec))
    ∷ [])

module _ (sha256 : String → String) where
  unfoldable pub contract_digest : MaterializationRecord → Result Digest
  unfolding content_of digest_of
  contract_digest d = digest_of sha256 (content_of d)

  -- `pinnedRef(document)`
  unfoldable pub pinned_ref : MaterializationRecord → Result ContractRef
  unfolding contract_digest
  pinned_ref d = do
    digest ← contract_digest d
    returned (record (plain_ref materialization_record d.metadata.id d.metadata.revision) {
      digest = some digest;
    })
