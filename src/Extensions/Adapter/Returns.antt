-- ===== src/Extensions/Adapter/Returns.antt =====
-- Artifacts with safe paths, no two of them the same, always give a plan.
use mathlib.Core.List.{Nodup, Nodup-cons}
use enistere_foundation.Base.{
  String, true, false, List, [], ◌∷◌, map, includes, ◌≡◌, refl, All, arith, eq_iff, Bool-cases, inl,
  inr,
}
use enistere_foundation.Base.Text.Sets.{includes_iff}
use enistere_foundation.Base.Dict.{get, put, has, get-put}
use enistere_foundation.Base.Sorting.{sort}
use enistere_foundation.Contracts.Paths.{is_safe_artifact_path}
use enistere_foundation.Contracts.Json.{text, object, Members, end, member}
use enistere_foundation.Contracts.Json.Plain.{
  IsPlain, array-IsPlain, end-IsPlain, member-IsPlain, text-IsPlain,
}
use enistere_foundation.Contracts.Digest.{digest_of}
use enistere_foundation.Contracts.Digest.Returns.{
  IsReturned, is_returned, IsReturned-bind, IsReturned-of,
}
use enistere_foundation.Contracts.Identity.Plain.{digest_of-plain}
use enistere_foundation.Contracts.Types.Evidence.{AdapterId}
use enistere_foundation.Contracts.Types.System.{OwnershipClass}
use enistere_foundation.Compiler.Ir.{IrComponent}
use enistere_foundation.Extensions.Ownership.{PlannedArtifact}
use enistere_foundation.Extensions.Adapter.{
  Artifact, artifact_json, plan_json, plan_loop, plan_artifacts, by_path,
}

abbrev artifact_paths : List Artifact → List String
artifact_paths = map (λ (a : Artifact). a.path)

abbrev AreNew : List (String × String) → List Artifact → Type 0
AreNew contents = All (λ (a : Artifact). has contents a.path ≡ false)

AreNew-put :
    (contents : List (String × String)) (k content : String) (artifacts : List Artifact)
    → includes (artifact_paths artifacts) k ≡ false
    → AreNew contents artifacts
    → AreNew (put contents k content) artifacts
AreNew-put contents k content [] away h = tt
AreNew-put contents k content (a ∷ artifacts) away (h, hs) = (
  rw (get-put contents k a.path content) (ground (arith, eq_iff k a.path, eq_iff a.path k)),
  AreNew-put contents k content artifacts (ground arith) hs,
)

text_member-IsPlain :
    (k t : String) (ms : Members) → IsPlain (object ms) → IsPlain (object (member k (text t) ms))
text_member-IsPlain k t ms h = member-IsPlain _ _ _ (text-IsPlain _) h

artifact_json-IsPlain : (a : PlannedArtifact) → IsPlain (artifact_json a)
unfolding artifact_json
artifact_json-IsPlain a =
    text_member-IsPlain _ _ _ (text_member-IsPlain _ _ _ (text_member-IsPlain _ _ _ end-IsPlain))

artifacts-IsPlain : (artifacts : List PlannedArtifact) → All IsPlain (map artifact_json artifacts)
artifacts-IsPlain [] = tt
artifacts-IsPlain (a ∷ artifacts) = (artifact_json-IsPlain a, artifacts-IsPlain artifacts)

plan_json-IsPlain :
    (component : IrComponent) (adapter : AdapterId) (artifacts : List PlannedArtifact)
    → IsPlain (plan_json component adapter artifacts)
unfolding plan_json
plan_json-IsPlain component adapter artifacts =
    let listed =
      member-IsPlain _ _ end
        (array-IsPlain (map artifact_json artifacts) (artifacts-IsPlain artifacts)) end-IsPlain in
    let known = text_member-IsPlain _ _ _ (text_member-IsPlain _ _ _ end-IsPlain) in
    text_member-IsPlain _ _ _ (member-IsPlain _ _ _ known (text_member-IsPlain _ _ _ listed))

module _ (sha256 : String → String) where
  plan_loop-IsReturned :
      (class : OwnershipClass) (artifacts : List Artifact) (contents : List (String × String))
      (planned : List PlannedArtifact)
      → All (λ (a : Artifact). is_safe_artifact_path a.path ≡ true) artifacts
      → Nodup (artifact_paths artifacts)
      → AreNew contents artifacts
      → IsReturned (plan_loop sha256 class artifacts contents planned)
  unfolding plan_loop
  plan_loop-IsReturned class [] contents planned s n h = is_returned _
  plan_loop-IsReturned class (a ∷ artifacts) contents planned (safe, s) n (new, h) =
      let (apart, others) = Nodup-cons.0 n in
      let away : includes (artifact_paths artifacts) a.path ≡ false =
        elim (Bool-cases (includes (artifact_paths artifacts) a.path)) [
          | inl i ↦ absurd (apart ((includes_iff _ _).0 i))
          | inr i ↦ i
        ] in
      rw (safe, new)
        (plan_loop-IsReturned class artifacts (put contents a.path a.content) _ s others
          (AreNew-put contents a.path a.content artifacts away h))

  all_new : (artifacts : List Artifact) → AreNew [] artifacts
  unfolding get
  all_new [] = tt
  all_new (a ∷ artifacts) = (refl, all_new artifacts)

  -- `plan_artifacts` returns a plan when every artifact's path is safe and no two artifacts
  -- have the same path.
  pub plan_artifacts-IsReturned :
      (adapter : AdapterId) (component : IrComponent) (artifacts : List Artifact)
      → All (λ (a : Artifact). is_safe_artifact_path a.path ≡ true) artifacts
      → Nodup (artifact_paths artifacts)
      → IsReturned (plan_artifacts sha256 adapter component artifacts)
  unfolding plan_artifacts
  plan_artifacts-IsReturned adapter component artifacts safe distinct =
      IsReturned-bind (plan_loop sha256 component.ownership.class artifacts [] []) _
        (plan_loop-IsReturned component.ownership.class artifacts [] [] safe distinct
          (all_new artifacts))
        (λ looped _.
          let (digest, e) =
            digest_of-plain sha256 (plan_json component adapter (sort by_path looped.1))
              (plan_json-IsPlain component adapter (sort by_path looped.1)) in
          IsReturned-bind (digest_of sha256 (plan_json component adapter (sort by_path looped.1))) _
            (IsReturned-of _ digest e) (λ d _. is_returned _))
