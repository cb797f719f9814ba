-- ===== src/Extensions/Adapter.antt =====
-- kernel/extensions/src/adapter.ts: how an adapter's output enters a plan.
pub mod Laws
pub mod Returns
use Prim.Native.Nat.{Ordering}
use enistere_foundation.Base.{
  String, Bool, List, [], ◌∷◌, ◌++◌, map, ◌<>◌, compare_text, if◌then◌else◌,
}
use enistere_foundation.Base.Dict.{get, has, put}
use enistere_foundation.Base.Sorting.{sort}
use enistere_foundation.Base.Sorting.Order.{by}
use enistere_foundation.Contracts.Paths.{is_safe_artifact_path}
use enistere_foundation.Contracts.Json.{Json, text, array, object, array_of, object_of}
use enistere_foundation.Contracts.Digest.{Result, returned, thrown, ◌>>=◌, digest_of, file_digest}
use enistere_foundation.Contracts.Refs.{Digest}
use enistere_foundation.Contracts.Types.Evidence.{
  ArtifactOwnership, AdapterId, compiler_owned, owner_seeded,
}
use enistere_foundation.Contracts.Types.System.{
  OwnershipClass, owner_managed, shared_controlled, external,
}
use enistere_foundation.Compiler.Ir.{IrComponent}
use enistere_foundation.Extensions.Ownership.{PlannedArtifact}

-- The ownership of an artifact is typed, so the guard on an unknown one has no counterpart.
pub record Artifact : Type 0 where
  pub path : String
  pub content : String
  pub ownership : ArtifactOwnership

pub record ArtifactPlan : Type 0 where
  pub component : String
  pub adapter : AdapterId
  pub ownership : OwnershipClass
  pub artifacts : List PlannedArtifact
  pub digest : Digest

pub record PlannedContents : Type 0 where
  pub plan : ArtifactPlan
  pub contents : List (String × String)

-- An OWNER_MANAGED component is only ever seeded.
abbrev pub artifact_ownership : OwnershipClass → ArtifactOwnership → ArtifactOwnership
artifact_ownership owner_managed ownership = owner_seeded
artifact_ownership _ ownership = ownership

ownership_text : ArtifactOwnership → String
ownership_text compiler_owned = "COMPILER_OWNED"
ownership_text owner_seeded = "OWNER_SEEDED"

class_text : OwnershipClass → String
class_text OwnershipClass.compiler_owned = "COMPILER_OWNED"
class_text owner_managed = "OWNER_MANAGED"
class_text shared_controlled = "SHARED_CONTROLLED"
class_text external = "EXTERNAL"

artifact_json : PlannedArtifact → Json
artifact_json a = object (
    object_of (
      ("path", text a.path)
      ∷ ("ownership", text (ownership_text a.ownership))
      ∷ ("digest", text a.digest)
      ∷ []))

plan_json : IrComponent → AdapterId → List PlannedArtifact → Json
plan_json component adapter artifacts = object (
    object_of (
      ("component", text component.id)
      ∷ (
        "adapter",
        object (object_of (("id", text adapter.id) ∷ ("version", text adapter.version) ∷ [])),
      )
      ∷ ("ownership", text (class_text component.ownership.class))
      ∷ ("artifacts", array (array_of (map artifact_json artifacts)))
      ∷ []))

abbrev pub by_path : PlannedArtifact → PlannedArtifact → Ordering
by_path = by compare_text (λ (a : PlannedArtifact). a.path)

module _ (sha256 : String → String) where
  abbrev pub planned_artifact : OwnershipClass → Artifact → PlannedArtifact
  planned_artifact class a = record {
    path = a.path;
    ownership = artifact_ownership class a.ownership;
    digest = file_digest sha256 a.content;
  }

  -- The loop over the artifacts, with `contents` and `planned` so far.
  plan_loop :
      OwnershipClass
      → List Artifact
      → List (String × String)
      → List PlannedArtifact
      → Result (List (String × String) × List PlannedArtifact)
  plan_loop class [] contents planned = returned (contents, planned)
  plan_loop class (a ∷ artifacts) contents planned =
      let next =
        plan_loop class artifacts (put contents a.path a.content)
          (planned ++ planned_artifact class a ∷ []) in
      if is_safe_artifact_path a.path
      then if has contents a.path
        then thrown ("duplicate artifact path '" <> a.path <> "'")
        else next
      else thrown ("unsafe artifact path '" <> a.path <> "'")

  unfoldable pub plan_artifacts : AdapterId → IrComponent → List Artifact → Result PlannedContents
  unfolding plan_loop plan_json artifact_json class_text ownership_text digest_of file_digest sort
      put get is_safe_artifact_path
  plan_artifacts adapter component artifacts = do
    (contents, planned) ← plan_loop component.ownership.class artifacts [] []
    digest ← digest_of sha256 (plan_json component adapter (sort by_path planned))
    returned (record {
      plan = record {
        component = component.id;
        adapter = adapter;
        ownership = component.ownership.class;
        artifacts = sort by_path planned;
        digest = digest;
      };
      contents = contents;
    })
