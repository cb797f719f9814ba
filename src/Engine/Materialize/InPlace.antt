-- ===== src/Engine/Materialize/InPlace.antt =====
-- After an applied materialization every artifact is in place.
use mathlib.Core.List.{Nodup}
use mathlib.Core.Option
use enistere_foundation.Base.{
  String, false, List, [], ◌∷◌, Option, some, none, map, any, join, get_or, ◌==◌, ◌≡◌, ◌⊎◌, inl,
  inr, refl, sym, ap, ap₂, subst, ◌∙◌, All, arith, eq_iff, Bool-cases, if◌then◌else◌,
}
use enistere_foundation.Base.Dict.{get}
use enistere_foundation.Base.Paths.{resolve, below}
use enistere_foundation.Contracts.Refs.{Digest}
use enistere_foundation.Contracts.Digest.{returned, file_digest}
use enistere_foundation.Contracts.Types.Evidence.{
  ArtifactOwnership, compiler_owned, owner_seeded, applied,
}
use enistere_foundation.Extensions.Ownership.{
  PlannedArtifact, decide_write, decide_existing, is_last_written, is_conflict, writes,
}
use enistere_foundation.Extensions.Adapter.Laws.{paths, IsBacked}
use enistere_foundation.Engine.Materialize.{Directory, PlannedComponent, Compilation, DecidedFile}
use enistere_foundation.Engine.Materialize.Apply.{Materialized, materialize_component, in_conflict}
use enistere_foundation.Engine.Materialize.Decisions.{IsDecided}
use enistere_foundation.Engine.Materialize.Effects.{targets, content_after, write_files-each}
use enistere_foundation.Engine.Materialize.Runs.{
  IsRun, component_path, written_before, materialize_component-IsRun,
}
use enistere_foundation.Engine.Materialize.Safety.{apply-IsApplied}
use enistere_foundation.Engine.Materialize.Atomicity.{outcome-in_conflict}

-- The file of an artifact, from the component's directory.
abbrev pub target_of : List String → PlannedArtifact → String
target_of directory a = join "/" (get_or (below directory (resolve directory a.path)) [])

module _ (sha256 : String → String) where
  -- What an artifact asks of the file: compiler-owned, the planned digest; owner-seeded, the content
  -- that was there, or the planned one where there was none.
  abbrev pub Fits : ArtifactOwnership → Digest → Option String → Option String → String → Type 0
  Fits compiler_owned digest before planned content = file_digest sha256 content ≡ digest
  Fits owner_seeded digest before planned content =
      (before ≡ some content) ⊎ ((before ≡ none) × (planned ≡ some content))

  pub record IsInPlace (directory : List String) (contents before after : List (String × String))
      (a : PlannedArtifact) : Type 0 where
    pub content : String
    pub there : get after (target_of directory a) ≡ some content
    pub fits :
        Fits a.ownership a.digest (get before (target_of directory a)) (get contents a.path) content

  pub IsDecided-target :
      (directory : List String) (files : List (String × String)) (written : List (String × Digest))
      (f : DecidedFile)
      → IsDecided sha256 directory files written f
      → f.target ≡ target_of directory f.artifact
  IsDecided-target directory files written f decided =
      decided.target ∙ ap (λ s. join "/" (get_or s [])) (sym decided.inside)

  pub targets-decided :
      (directory : List String) (files : List (String × String)) (written : List (String × Digest))
      (fs : List DecidedFile)
      → All (IsDecided sha256 directory files written) fs
      → targets fs ≡ map (target_of directory) (map (λ (f : DecidedFile). f.artifact) fs)
  targets-decided directory files written [] h = refl
  targets-decided directory files written (f ∷ fs) (h, hs) =
      ap₂ (λ x xs. x ∷ xs) (IsDecided-target directory files written f h)
        (targets-decided directory files written fs hs)

  -- What one decision leaves at its target.
  record IsLeft (contents : List (String × String)) (a : PlannedArtifact)
      (before after : Option String) : Type 0 where
    content : String
    there : after ≡ some content
    fits : Fits a.ownership a.digest before (get contents a.path) content

  after_decision :
      List (String × String) → PlannedArtifact → Option String → Option Digest → Option String
  after_decision contents a before last =
      if writes (decide_write a (Option.map (file_digest sha256) before) last)
      then get contents a.path
      else before

  IsLeft-existing :
      (contents : List (String × String)) (o : ArtifactOwnership) (a : PlannedArtifact) (c : String)
      (last : Option Digest)
      → a.ownership ≡ o
      → IsBacked sha256 contents a
      → is_conflict (decide_existing o a.digest (file_digest sha256 c) last) ≡ false
      → IsLeft contents a (some c) (
          if writes (decide_existing o a.digest (file_digest sha256 c) last)
          then get contents a.path
          else some c)
  IsLeft-existing contents owner_seeded a c last e backed n = record {
    content = c;
    there = refl;
    fits = rw e (inl refl);
  }
  IsLeft-existing contents compiler_owned a c last e backed n =
      elim (Bool-cases (file_digest sha256 c == a.digest)) [
        | inl same ↦
            rw same (record { content = c; there = refl; fits = rw e ((eq_iff _ _).0 same) })
        | inr differs ↦ elim (Bool-cases (is_last_written last (file_digest sha256 c))) [
          | inl ours ↦
              rw (differs, ours)
                (record {
                  content = backed.content;
                  there = backed.found;
                  fits = rw e (sym backed.hashed);
                })
          | inr changed ↦ absurd (cc (rw (differs, changed) at n))
        ]
      ]

  IsLeft-decided :
      (contents : List (String × String)) (a : PlannedArtifact) (before : Option String)
      (last : Option Digest)
      → IsBacked sha256 contents a
      → is_conflict (decide_write a (Option.map (file_digest sha256) before) last) ≡ false
      → IsLeft contents a before (after_decision contents a before last)
  unfolding decide_write after_decision
  IsLeft-decided contents a none last backed n = record {
    content = backed.content;
    there = backed.found;
    fits = fits a.ownership;
  }
    where
      fits : (o : ArtifactOwnership) → Fits o a.digest none (get contents a.path) backed.content
      fits compiler_owned = sym backed.hashed
      fits owner_seeded = inr (refl, backed.found)
  IsLeft-decided contents a (some c) last backed n =
      IsLeft-existing contents a.ownership a c last refl backed n

  module _ (directory : List String) (contents before after : List (String × String))
      (written : List (String × Digest)) where
    IsInPlace-of :
        (f : DecidedFile)
        → IsDecided sha256 directory before written f
        → IsBacked sha256 contents f.artifact
        → in_conflict f ≡ false
        → get after f.target ≡ content_after contents before f
        → IsInPlace directory contents before after f.artifact
    unfolding after_decision
    IsInPlace-of f decided backed n now =
        let target = IsDecided-target directory before written f decided in
        let left =
          IsLeft-decided contents f.artifact (get before f.target) (get written f.artifact.path)
            backed (ap is_conflict (sym decided.rule) ∙ n) in
        let same : get after f.target
            ≡ after_decision contents f.artifact (get before f.target)
                (get written f.artifact.path) =
          now
          ∙ ap (λ w. if writes w then get contents f.artifact.path else get before f.target)
              decided.rule in
        record {
          content = left.content;
          there = ap (get after) (sym target) ∙ same ∙ left.there;
          fits =
              subst
                (λ t.
                  Fits f.artifact.ownership f.artifact.digest (get before t)
                    (get contents f.artifact.path) left.content)
                target left.fits;
        }

    All-IsInPlace :
        (fs : List DecidedFile)
        → All (IsDecided sha256 directory before written) fs
        → All (IsBacked sha256 contents) (map (λ (f : DecidedFile). f.artifact) fs)
        → any in_conflict fs ≡ false
        → All (λ f. get after f.target ≡ content_after contents before f) fs
        → All (IsInPlace directory contents before after) (map (λ (f : DecidedFile). f.artifact) fs)
    All-IsInPlace [] d b n h = tt
    All-IsInPlace (f ∷ fs) (d, ds) (b, bs) n (h, hs) =
        (IsInPlace-of f d b (ground arith) h, All-IsInPlace fs ds bs (ground arith) hs)

module _ (sha256 : String → String) (result : Compilation) (root : List String)
    (executed_at : String) where
  pub applied-in_conflict :
      (planned : PlannedComponent) (d : Directory) (m : Materialized)
      → Nodup (paths planned.plan.artifacts)
      → IsRun sha256 result root executed_at planned d m
      → m.new.spec.outcome ≡ applied
      → any in_conflict m.decided ≡ false
  applied-in_conflict planned d m distinct run o =
      let e = sym o ∙ outcome-in_conflict sha256 result root executed_at planned d m distinct run in
      elim (Bool-cases (any in_conflict m.decided)) [ inl c ↦ absurd (cc (rw c at e)) | inr c ↦ c ]

  -- Suppose that the plan's paths are distinct and so are their targets, that every artifact
  -- has its content at hand, and that `materialize_component` returns with the outcome APPLIED.
  -- Then every artifact's file exists; that of a compiler-owned artifact has the planned
  -- digest; that of an owner-seeded one holds what it held before, or the planned content where
  -- there was no file.
  pub materialize_component-IsInPlace :
      (planned : PlannedComponent) (d : Directory) (m : Materialized)
      → Nodup (paths planned.plan.artifacts)
      → Nodup (map (target_of (component_path root planned)) planned.plan.artifacts)
      → All (IsBacked sha256 planned.contents) planned.plan.artifacts
      → materialize_component sha256 result root executed_at planned d ≡ returned m
      → m.new.spec.outcome ≡ applied
      → All
          (IsInPlace sha256
            (component_path root planned)
            planned.contents
            d.files
            m.directory.files)
          planned.plan.artifacts
  materialize_component-IsInPlace planned d m distinct apart backed h o =
      let run = materialize_component-IsRun sha256 result root executed_at planned d m h in
      let done = apply-IsApplied _ _ _ _ d m.directory (rw o at run.applied) in
      let directory = component_path root planned in
      let others : Nodup (targets m.decided) =
        subst Nodup
          (ap (map (target_of directory)) (sym run.artifacts)
            ∙ sym
                (targets-decided sha256 directory d.files (written_before d) m.decided run.decides))
          apart in
      subst (All (IsInPlace sha256 directory planned.contents d.files m.directory.files))
        run.artifacts
        (All-IsInPlace sha256 directory planned.contents d.files m.directory.files
          (written_before d) m.decided run.decides
          (subst (All (IsBacked sha256 planned.contents)) (sym run.artifacts) backed)
          (applied-in_conflict planned d m distinct run o)
          (write_files-each planned.contents m.decided d.files m.directory.files others
            done.writes))
