-- ===== src/Engine/Materialize/Safety.antt =====
-- Nothing that the compiler does not own is overwritten.
use mathlib.Core.Option
use enistere_foundation.Base.{
  String, true, List, Option, some, none, join, ◌≡◌, ◌⊎◌, inl, inr, refl, sym, ap, subst, ◌∙◌, Any,
  All-Any, Any-image, arith, eq_iff,
}
use enistere_foundation.Base.Dict.{get}
use enistere_foundation.Base.Paths.{resolve, below}
use enistere_foundation.Contracts.Refs.{Digest}
use enistere_foundation.Contracts.Digest.{returned, file_digest}
use enistere_foundation.Contracts.Identity.{MaterializationRecord}
use enistere_foundation.Contracts.Types.Evidence.{
  ArtifactOwnership, compiler_owned, owner_seeded, MaterializationOutcome, applied, conflict,
}
use enistere_foundation.Extensions.Ownership.{
  PlannedArtifact, decide_write, decide_existing, writes,
}
use enistere_foundation.Contracts.Digest.Returns.{bind-eq-returned, returned-injective}
use enistere_foundation.Engine.Materialize.{
  Directory, PlannedComponent, Compilation, DecidedFile, latest_record, write_files,
}
use enistere_foundation.Engine.Materialize.Apply.{
  Materialized, materialize_component, apply, store_record,
}
use enistere_foundation.Engine.Materialize.Decisions.{IsDecided, disk_digest}
use enistere_foundation.Engine.Materialize.Effects.{IsWrittenBy, write_files_lem}
use enistere_foundation.Engine.Materialize.Runs.{
  IsRun, component_path, written_before, materialize_component-IsRun,
}

pub record IsApplied (contents : List (String × String)) (fs : List DecidedFile)
    (previous : Option MaterializationRecord) (new : MaterializationRecord) (d after : Directory)
    : Type 0 where
  pub writes : write_files contents fs d.files ≡ returned after.files
  pub stored : after.records ≡ store_record previous new d.records

pub apply-IsApplied :
    (contents : List (String × String)) (fs : List DecidedFile)
    (previous : Option MaterializationRecord) (new : MaterializationRecord) (d after : Directory)
    → apply applied contents fs previous new d ≡ returned after
    → IsApplied contents fs previous new d after
unfolding apply
apply-IsApplied contents fs previous new d after h =
    let (files, writes, e) = bind-eq-returned (write_files contents fs d.files) _ h in
    subst (IsApplied contents fs previous new d) (returned-injective e)
      (record { writes = writes; stored = refl })

pub apply-conflict :
    (contents : List (String × String)) (fs : List DecidedFile)
    (previous : Option MaterializationRecord) (new : MaterializationRecord) (d after : Directory)
    → apply conflict contents fs previous new d ≡ returned after
    → d ≡ after
unfolding apply
apply-conflict contents fs previous new d after h = returned-injective h

-- The ownership rule writes to a file that exists only when the compiler owns it and wrote it last.
writes-decide_existing :
    (o : ArtifactOwnership) (digest existing : Digest) (last : Option Digest)
    → writes (decide_existing o digest existing last) ≡ true
    → (o ≡ compiler_owned) × (last ≡ some existing)
writes-decide_existing owner_seeded digest existing last h = cc
writes-decide_existing compiler_owned digest existing none h = ground arith
writes-decide_existing compiler_owned digest existing (some l) h =
    (refl, ground (arith, eq_iff existing l))

module _ (sha256 : String → String) where
  -- `a` is compiler-owned, its target is `path`, the content that was there is the one last written
  -- for it, and the content that is there now is the planned one.
  pub record IsOverwrittenBy (directory : List String) (written : List (String × Digest))
      (contents after : List (String × String)) (path before : String) (a : PlannedArtifact)
      : Type 0 where
    pub owned : a.ownership ≡ compiler_owned
    pub segments : List String
    pub inside : below directory (resolve directory a.path) ≡ some segments
    pub target : join "/" segments ≡ path
    pub last : get written a.path ≡ some (file_digest sha256 before)
    pub now : get after path ≡ get contents a.path

  IsOverwrittenBy-of :
      (directory : List String) (written : List (String × Digest))
      (files contents after : List (String × String)) (path before : String) (f : DecidedFile)
      → get files path ≡ some before
      → IsDecided sha256 directory files written f
      → IsWrittenBy contents after path f
      → IsOverwrittenBy directory written contents after path before f.artifact
  unfolding decide_write
  IsOverwrittenBy-of directory written files contents after path before f there decided w =
      let on_disk : disk_digest sha256 directory files written files f.target
          ≡ some (file_digest sha256 before) =
        ap (Option.map (file_digest sha256)) (ap (get files) w.target ∙ there) in
      let rule =
        decided.rule ∙ ap (λ e. decide_write f.artifact e (get written f.artifact.path)) on_disk in
      let (owned, last) =
        writes-decide_existing f.artifact.ownership _ _ _ (ap writes (sym rule) ∙ w.writes) in
      record {
        owned = owned;
        segments = decided.segments;
        inside = decided.inside;
        target = sym decided.target ∙ w.target;
        last = last;
        now = w.written;
      }

  module _ (result : Compilation) (root : List String) (executed_at : String) where
    -- Suppose that `materialize_component` returns, and that a file of the component's
    -- directory had the content `before`. Then it has that content still, or some artifact of
    -- the plan is compiler-owned, has that file for its target, and was recorded by the latest
    -- record with the digest of `before`; the file then holds the planned content.
    pub materialize_component-keeps :
        (planned : PlannedComponent) (d : Directory) (m : Materialized) (path before : String)
        → materialize_component sha256 result root executed_at planned d ≡ returned m
        → get d.files path ≡ some before
        → (get m.directory.files path ≡ some before)
          ⊎ Any
              (IsOverwrittenBy
                (component_path root planned)
                (written_before d)
                planned.contents
                m.directory.files
                path
                before)
              planned.plan.artifacts
    materialize_component-keeps planned d m path before h there =
        let run = materialize_component-IsRun sha256 result root executed_at planned d m h in
        kept_or_overwritten run m.new.spec.outcome run.applied
      where
        kept_or_overwritten :
            IsRun sha256 result root executed_at planned d m
            → (o : MaterializationOutcome)
            → apply o planned.contents m.decided (latest_record d) m.new d ≡ returned m.directory
            → (get m.directory.files path ≡ some before)
              ⊎ Any
                  (IsOverwrittenBy
                    (component_path root planned)
                    (written_before d)
                    planned.contents
                    m.directory.files
                    path
                    before)
                  planned.plan.artifacts
        kept_or_overwritten run conflict applies = inl (
            ap (λ (x : Directory). get x.files path)
              (sym (apply-conflict _ _ _ _ d m.directory applies))
            ∙ there)
        kept_or_overwritten run applied applies =
            let done = apply-IsApplied _ _ _ _ d m.directory applies in
            elim (write_files_lem planned.contents m.decided d.files m.directory.files done.writes
              path) [
                | inr kept ↦ inl (kept ∙ there)
                | inl written ↦ inr (
                    subst
                      (Any (
                        IsOverwrittenBy (component_path root planned) (written_before d)
                          planned.contents m.directory.files path before))
                      run.artifacts
                      (Any-image _ _ (λ (f : DecidedFile). f.artifact) m.decided
                        (λ f (decided, w).
                          IsOverwrittenBy-of _ _ d.files planned.contents m.directory.files path
                            before f there decided w)
                        (All-Any _ _ m.decided run.decides written)))
              ]
