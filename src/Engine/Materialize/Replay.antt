-- ===== src/Engine/Materialize/Replay.antt =====
-- A plan that was applied has nothing left to write.
use mathlib.Core.List.{Nodup}
use mathlib.Core.Option
use enistere_foundation.Base.{
  String, false, List, [], ◌∷◌, Option, map, any, ◌≡◌, ◌⊎◌, inl, inr, refl, sym, ap, subst, ◌∙◌,
  All, arith, eq_refl, if◌then◌else◌,
}
use enistere_foundation.Base.Dict.{get}
use enistere_foundation.Contracts.Refs.{Digest}
use enistere_foundation.Contracts.Digest.{returned, file_digest}
use enistere_foundation.Contracts.Types.Evidence.{
  ArtifactOwnership, compiler_owned, owner_seeded, unchanged, keep_owner, applied, conflict,
}
use enistere_foundation.Extensions.Ownership.{decide_write, decide_existing}
use enistere_foundation.Contracts.Digest.Returns.{returned-injective}
use enistere_foundation.Extensions.Adapter.Laws.{paths, IsBacked}
use enistere_foundation.Engine.Materialize.{
  Directory, PlannedComponent, Compilation, DecidedFile, write_files,
}
use enistere_foundation.Engine.Materialize.Apply.{Materialized, materialize_component, in_conflict}
use enistere_foundation.Engine.Materialize.Decisions.{IsDecided}
use enistere_foundation.Engine.Materialize.Runs.{
  component_path, written_before, materialize_component-IsRun,
}
use enistere_foundation.Engine.Materialize.Safety.{apply-IsApplied}
use enistere_foundation.Engine.Materialize.Atomicity.{outcome-in_conflict}
use enistere_foundation.Engine.Materialize.InPlace.{
  target_of, Fits, IsInPlace, IsDecided-target, materialize_component-IsInPlace,
}

module _ (sha256 : String → String) where
  -- A file in place is left as it is: unchanged, or kept for its owner.
  settled :
      (o : ArtifactOwnership) (digest : Digest) (before planned : Option String) (content : String)
      (last : Option Digest)
      → Fits sha256 o digest before planned content
      → (decide_existing o digest (file_digest sha256 content) last ≡ unchanged)
        ⊎ (decide_existing o digest (file_digest sha256 content) last ≡ keep_owner)
  settled owner_seeded digest before planned content last h = inr refl
  settled compiler_owned digest before planned content last h =
      inl (rw h (ground (arith, eq_refl digest)))

  module _ (directory : List String) (contents before files : List (String × String))
      (written : List (String × Digest)) where
    decided-settled :
        (f : DecidedFile)
        → IsDecided sha256 directory files written f
        → IsInPlace sha256 directory contents before files f.artifact
        → (f.decision ≡ unchanged) ⊎ (f.decision ≡ keep_owner)
    unfolding decide_write
    decided-settled f decided p =
        let there =
          ap (get files) (IsDecided-target sha256 directory files written f decided) ∙ p.there in
        let rule =
          decided.rule
          ∙ ap
              (λ e.
                decide_write f.artifact (Option.map (file_digest sha256) e)
                  (get written f.artifact.path))
              there in
        elim (settled f.artifact.ownership f.artifact.digest _ _ p.content
          (get written f.artifact.path) p.fits) [ inl u ↦ inl (rule ∙ u) | inr k ↦ inr (rule ∙ k) ]

    All-settled :
        (fs : List DecidedFile)
        → All (IsDecided sha256 directory files written) fs
        → All
            (IsInPlace sha256 directory contents before files)
            (map (λ (f : DecidedFile). f.artifact) fs)
        → All (λ (f : DecidedFile). (f.decision ≡ unchanged) ⊎ (f.decision ≡ keep_owner)) fs
    All-settled [] h p = tt
    All-settled (f ∷ fs) (h, hs) (p, ps) = (decided-settled f h p, All-settled fs hs ps)

no_conflict :
    (fs : List DecidedFile)
    → All (λ (f : DecidedFile). (f.decision ≡ unchanged) ⊎ (f.decision ≡ keep_owner)) fs
    → any in_conflict fs ≡ false
no_conflict [] h = refl
no_conflict (f ∷ fs) (inl e, hs) = rw e (no_conflict fs hs)
no_conflict (f ∷ fs) (inr e, hs) = rw e (no_conflict fs hs)

no_writes :
    (contents : List (String × String)) (fs : List DecidedFile) (files out : List (String × String))
    → All (λ (f : DecidedFile). (f.decision ≡ unchanged) ⊎ (f.decision ≡ keep_owner)) fs
    → write_files contents fs files ≡ returned out
    → out ≡ files
unfolding write_files
no_writes contents [] files out h r = sym (returned-injective r)
no_writes contents (f ∷ fs) files out (inl e, hs) r = no_writes contents fs files out hs (rw e at r)
no_writes contents (f ∷ fs) files out (inr e, hs) r = no_writes contents fs files out hs (rw e at r)

module _ (sha256 : String → String) (root : List String) where
  -- Under the conditions of an applied run whose paths and targets are distinct and whose
  -- contents are at hand, materializing the same plan again in the resulting directory, for any
  -- compilation and at any time, has the outcome APPLIED, decides UNCHANGED or KEEP_OWNER for
  -- every file and leaves every file as it is, where it returns.
  pub materialize_component-replay :
      (first second : Compilation) (at_first at_second : String) (planned : PlannedComponent)
      (d : Directory) (m n : Materialized)
      → Nodup (paths planned.plan.artifacts)
      → Nodup (map (target_of (component_path root planned)) planned.plan.artifacts)
      → All (IsBacked sha256 planned.contents) planned.plan.artifacts
      → materialize_component sha256 first root at_first planned d ≡ returned m
      → m.new.spec.outcome ≡ applied
      → materialize_component sha256 second root at_second planned m.directory ≡ returned n
      → (n.new.spec.outcome ≡ applied)
        × (n.directory.files ≡ m.directory.files)
        × All (λ (f : DecidedFile). (f.decision ≡ unchanged) ⊎ (f.decision ≡ keep_owner)) n.decided
  materialize_component-replay first second at_first at_second planned d m n distinct apart backed h
        o k =
      let directory = component_path root planned in
      let placed =
        materialize_component-IsInPlace sha256 first root at_first planned d m distinct apart backed
          h o in
      let run = materialize_component-IsRun sha256 second root at_second planned m.directory n k in
      let still =
        All-settled sha256 directory planned.contents d.files m.directory.files
          (written_before m.directory) n.decided run.decides
          (subst (All (IsInPlace sha256 directory planned.contents d.files m.directory.files))
            (sym run.artifacts) placed) in
      let outcome : n.new.spec.outcome ≡ applied =
        outcome-in_conflict sha256 second root at_second planned m.directory n distinct run
        ∙ ap (λ b. if b then conflict else applied) (no_conflict n.decided still) in
      let done = apply-IsApplied _ _ _ _ m.directory n.directory (rw outcome at run.applied) in
      (
        outcome,
        no_writes planned.contents n.decided m.directory.files n.directory.files still done.writes,
        still,
      )
