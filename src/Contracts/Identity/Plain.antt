-- ===== src/Contracts/Identity/Plain.antt =====
-- A record always has a digest: the value that it is holds plain JSON only.
use mathlib.Core.Option
use enistere_foundation.Base.{String, List, [], ◌∷◌, Option, some, none, map, ◌≡◌, refl, All, ◌<>◌}
use enistere_foundation.Contracts.Json.{Json, text}
use enistere_foundation.Contracts.Json.Plain.{
  IsPlain, IsDone, is_done, canonicalize-IsDone, array-IsPlain, object-IsPlain, text-IsPlain,
  number-IsPlain,
}
use enistere_foundation.Contracts.Digest.{returned, digest_of, hashed}
use enistere_foundation.Contracts.Refs.{
  ContractRef, Digest, kind_text, plain_ref, materialization_record,
}
use enistere_foundation.Contracts.Types.Common.{
  Actor, SourceArtifact, Tool, Provenance, ExternalRef, Acceptance, Owner, Metadata,
}
use enistere_foundation.Contracts.Types.Evidence.{MaterializationRecordSpec, RecordedFile}
use enistere_foundation.Contracts.Identity.{
  MaterializationRecord, defined, fields, texts, text_if, list_json, ref_json, actor_json,
  source_json, tool_json, provenance_json, external_json, acceptance_json, owner_json, labels_json,
  metadata_json, file_json, spec_json, content_of, contract_digest, pinned_ref,
}

abbrev IsPlainIf : Option Json → Type 0
IsPlainIf none = Unit
IsPlainIf (some v) = IsPlain v

defined-IsPlain :
    (ms : List (String × Option Json))
    → All (λ (m : String × Option Json). IsPlainIf m.1) ms
    → All (λ (m : String × Json). IsPlain m.1) (defined ms)
defined-IsPlain [] h = tt
defined-IsPlain ((k, none) ∷ ms) (h, hs) = defined-IsPlain ms hs
defined-IsPlain ((k, some v) ∷ ms) (h, hs) = (h, defined-IsPlain ms hs)

fields-IsPlain :
    (ms : List (String × Option Json))
    → All (λ (m : String × Option Json). IsPlainIf m.1) ms
    → IsPlain (fields ms)
unfolding fields
fields-IsPlain ms h = object-IsPlain (defined ms) (defined-IsPlain ms h)

if-IsPlain {ℓ} :
    {A : Type ℓ} (f : A → Json)
    → ((a : A) → IsPlain (f a))
    → (o : Option A) → IsPlainIf (Option.map f o)
if-IsPlain f h none = tt
if-IsPlain f h (some a) = h a

map-IsPlain {ℓ} :
    {A : Type ℓ} (f : A → Json) → ((a : A) → IsPlain (f a)) → (xs : List A) → All IsPlain (map f xs)
map-IsPlain f h [] = tt
map-IsPlain f h (x ∷ xs) = (h x, map-IsPlain f h xs)

list-IsPlain {ℓ} :
    {A : Type ℓ} (f : A → Json)
    → ((a : A) → IsPlain (f a))
    → (xs : List A) → IsPlain (list_json f xs)
list-IsPlain f h xs = array-IsPlain (map f xs) (map-IsPlain f h xs)

abbrev text_ifs : (o : Option String) → IsPlainIf (text_if o)
text_ifs o = if-IsPlain text text-IsPlain o

ref-IsPlain : (r : ContractRef) → IsPlain (ref_json r)
unfolding ref_json
ref-IsPlain r = fields-IsPlain _ (
  text-IsPlain _,
  (text-IsPlain _, (number-IsPlain _, (text_ifs r.digest, (text_ifs r.item, tt)))),
)

actor-IsPlain : (a : Actor) → IsPlain (actor_json a)
unfolding actor_json
actor-IsPlain a = fields-IsPlain _ (text-IsPlain _, (text-IsPlain _, (text_ifs a.role, tt)))

source-IsPlain : (s : SourceArtifact) → IsPlain (source_json s)
unfolding source_json
source-IsPlain s = fields-IsPlain _ (
  text-IsPlain _,
  (text-IsPlain _, (text-IsPlain _, (text_ifs s.digest, (text_ifs s.title, tt)))),
)

tool-IsPlain : (t : Tool) → IsPlain (tool_json t)
unfolding tool_json
tool-IsPlain t = fields-IsPlain _ (text-IsPlain _, (text-IsPlain _, tt))

provenance-IsPlain : (p : Provenance) → IsPlain (provenance_json p)
unfolding provenance_json
provenance-IsPlain p = fields-IsPlain _ (
  text-IsPlain _,
  (
    actor-IsPlain p.actor,
    (
      if-IsPlain _ tool-IsPlain p.tool,
      (
        if-IsPlain _ (list-IsPlain _ source-IsPlain) p.sources,
        (
          if-IsPlain _ (list-IsPlain _ ref-IsPlain) p.derived_from,
          (if-IsPlain _ number-IsPlain p.confidence, tt),
        ),
      ),
    ),
  ),
)

external-IsPlain : (e : ExternalRef) → IsPlain (external_json e)
unfolding external_json
external-IsPlain e =
    fields-IsPlain _ (text-IsPlain _, (text-IsPlain _, (text-IsPlain _, (text_ifs e.digest, tt))))

acceptance-IsPlain : (a : Acceptance) → IsPlain (acceptance_json a)
unfolding acceptance_json
acceptance-IsPlain a = fields-IsPlain _ (
  text-IsPlain _,
  (
    text-IsPlain _,
    (
      actor-IsPlain a.actor,
      (
        text-IsPlain _,
        (text_ifs a.rationale, (if-IsPlain _ external-IsPlain a.approval_policy, tt)),
      ),
    ),
  ),
)

owner-IsPlain : (o : Owner) → IsPlain (owner_json o)
unfolding owner_json
owner-IsPlain o = fields-IsPlain _ (text-IsPlain _, (text_ifs o.contact, tt))

labels-IsPlain : (ls : List (String × String)) → IsPlain (labels_json ls)
unfolding labels_json
labels-IsPlain ls = object-IsPlain _ (all ls)
  where
    all :
        (ls : List (String × String))
        → All
            (λ (m : String × Json). IsPlain m.1)
            (map (λ (l : String × String). (l.0, text l.1)) ls)
    all [] = tt
    all (l ∷ ls) = (text-IsPlain l.1, all ls)

metadata-IsPlain : (m : Metadata) → IsPlain (metadata_json m)
unfolding metadata_json
metadata-IsPlain m = fields-IsPlain _ (
  text-IsPlain _,
  (
    number-IsPlain _,
    (
      text-IsPlain _,
      (
        text_ifs m.description,
        (
          if-IsPlain _ owner-IsPlain m.owner,
          (
            provenance-IsPlain m.provenance,
            (
              if-IsPlain _ acceptance-IsPlain m.acceptance,
              (if-IsPlain _ ref-IsPlain m.supersedes, (if-IsPlain _ labels-IsPlain m.labels, tt)),
            ),
          ),
        ),
      ),
    ),
  ),
)

file-IsPlain : (f : RecordedFile) → IsPlain (file_json f)
unfolding file_json
file-IsPlain f =
    fields-IsPlain _ (text-IsPlain _, (text-IsPlain _, (text-IsPlain _, (text-IsPlain _, tt))))

spec-IsPlain : (s : MaterializationRecordSpec) → IsPlain (spec_json s)
unfolding spec_json
spec-IsPlain s = fields-IsPlain _ (
  text-IsPlain _,
  (
    fields-IsPlain _ (ref-IsPlain s.subject.contract, (text-IsPlain _, tt)),
    (
      text-IsPlain _,
      (
        text-IsPlain _,
        (
          fields-IsPlain _ (text-IsPlain _, (text-IsPlain _, tt)),
          (
            actor-IsPlain s.produced_by,
            (text-IsPlain _, (text-IsPlain _, (list-IsPlain _ file-IsPlain s.files, tt))),
          ),
        ),
      ),
    ),
  ),
)

pub content_of-IsPlain : (d : MaterializationRecord) → IsPlain (content_of d)
unfolding content_of
content_of-IsPlain d =
    fields-IsPlain
      (("apiVersion", texts d.api_version)
        ∷ ("kind", texts (kind_text materialization_record))
        ∷ ("metadata", some (metadata_json d.metadata))
        ∷ ("spec", some (spec_json d.spec))
        ∷ [])
      (text-IsPlain _, (text-IsPlain _, (metadata-IsPlain d.metadata, (spec-IsPlain d.spec, tt))))

module _ (sha256 : String → String) where
  pub digest_of-plain :
      (v : Json) → IsPlain v → (digest : Digest) × (digest_of sha256 v ≡ returned digest)
  unfolding digest_of
  digest_of-plain v h = of (canonicalize-IsDone v h)
    where
      of : {c : _} → IsDone c → (digest : Digest) × (hashed sha256 c ≡ returned digest)
      of (is_done t) = ("sha256:" <> sha256 t, refl)

  pub pinned_ref-returned :
      (d : MaterializationRecord) → (ref : ContractRef) × (pinned_ref sha256 d ≡ returned ref)
  unfolding pinned_ref contract_digest
  pinned_ref-returned d =
      let (digest, e) = digest_of-plain (content_of d) (content_of-IsPlain d) in
      (
        record (plain_ref materialization_record d.metadata.id d.metadata.revision) {
          digest = some digest;
        },
        rw e refl,
      )
