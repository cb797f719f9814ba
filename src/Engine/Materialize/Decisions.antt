-- ===== src/Engine/Materialize/Decisions.antt =====
-- What `materialize` decides of each artifact, before anything is written.
use mathlib.Core.Option
use enistere_foundation.Base.{
  String, List, [], ◌∷◌, Option, some, none, map, join, ◌≡◌, refl, ap₂, subst, All,
}
use enistere_foundation.Base.Dict.{get}
use enistere_foundation.Base.Paths.{resolve, below}
use enistere_foundation.Contracts.Refs.{Digest}
use enistere_foundation.Contracts.Digest.{returned, file_digest}
use enistere_foundation.Extensions.Ownership.{PlannedArtifact, decide_write}
use enistere_foundation.Contracts.Digest.Returns.{bind-eq-returned, returned-injective}
use enistere_foundation.Engine.Materialize.{DecidedFile, decide_at, decide_files}

module _ (sha256 : String → String) (directory : List String) (files : List (String × String))
    (written : List (String × Digest)) where
  abbrev pub disk_digest : List (String × String) → String → Option Digest
  disk_digest fs target = Option.map (file_digest sha256) (get fs target)

  -- A decided file: the artifact's target lies strictly below the directory, and the decision is that
  -- of the ownership rule on the file that was there.
  pub record IsDecided (f : DecidedFile) : Type 0 where
    pub segments : List String
    pub inside : below directory (resolve directory f.artifact.path) ≡ some segments
    pub target : f.target ≡ join "/" segments
    pub rule :
        f.decision
        ≡ decide_write f.artifact (disk_digest files f.target) (get written f.artifact.path)

  decide_at-IsDecided :
      (s : Option (List String)) (a : PlannedArtifact) (f : DecidedFile)
      → below directory (resolve directory a.path) ≡ s
      → decide_at sha256 s files written a ≡ returned f
      → IsDecided f × (f.artifact ≡ a)
  unfolding decide_at
  decide_at-IsDecided none a f e h = cc
  decide_at-IsDecided (some segments) a f e h =
      let same = returned-injective h in
      subst (λ (g : DecidedFile). IsDecided g × (g.artifact ≡ a)) same
        (record { segments = segments; inside = e; target = refl; rule = refl }, refl)

  pub decide_files-IsDecided :
      (artifacts : List PlannedArtifact) (decided : List DecidedFile)
      → decide_files sha256 directory files written artifacts ≡ returned decided
      → All IsDecided decided × (map (λ (f : DecidedFile). f.artifact) decided ≡ artifacts)
  unfolding decide_files
  decide_files-IsDecided [] decided h =
      subst
        (λ (fs : List DecidedFile).
          All IsDecided fs × (map (λ (f : DecidedFile). f.artifact) fs ≡ []))
        (returned-injective h) (tt, refl)
  decide_files-IsDecided (a ∷ artifacts) decided h =
      let (f, decides, h') =
        bind-eq-returned
          (decide_at sha256 (below directory (resolve directory a.path)) files written a) _ h in
      let (fs, rest, e) =
        bind-eq-returned (decide_files sha256 directory files written artifacts) _ h' in
      let (first, same) = decide_at-IsDecided _ a f refl decides in
      let (others, all) = decide_files-IsDecided artifacts fs rest in
      subst
        (λ (gs : List DecidedFile).
          All IsDecided gs × (map (λ (f : DecidedFile). f.artifact) gs ≡ a ∷ artifacts))
        (returned-injective e) ((first, others), ap₂ (λ x xs. x ∷ xs) same all)
