-- ===== src/Engine/Materialize/Atomicity.antt =====
-- A component with a conflict is not written at all, and one without is.
use mathlib.Core.List.{Nodup, map-map}
use mathlib.Core.Option
use enistere_foundation.Base.{
  String, true, false, ◌||◌, List, [], ◌∷◌, Option, some, none, map, any, join, ◌≡◌, ◌≢◌, ◌⊎◌, inl,
  inr, refl, sym, ap, subst, ◌∙◌, Any, All, arith, eq_iff, Option-cases, Bool-cases, if◌then◌else◌,
}
use enistere_foundation.Base.Dict.{get}
use enistere_foundation.Base.Dict.Entries.{from_entries-distinct}
use enistere_foundation.Base.Paths.{resolve, below}
use enistere_foundation.Contracts.Refs.{Digest}
use enistere_foundation.Contracts.Digest.{returned, file_digest}
use enistere_foundation.Contracts.Types.Evidence.{
  ArtifactOwnership, compiler_owned, owner_seeded, WriteDecision, applied, conflict,
}
use enistere_foundation.Extensions.Ownership.{
  PlannedArtifact, decide_write, decide_existing, is_conflict,
}
use enistere_foundation.Extensions.Adapter.Laws.{paths}
use enistere_foundation.Engine.Materialize.{
  Directory, PlannedComponent, Compilation, DecidedFile, outcome_of,
}
use enistere_foundation.Engine.Materialize.Apply.{
  Materialized, materialize_component, decisions_of, in_conflict, conflicts,
}
use enistere_foundation.Engine.Materialize.Decisions.{IsDecided}
use enistere_foundation.Engine.Materialize.Runs.{
  IsRun, component_path, written_before, materialize_component-IsRun,
}
use enistere_foundation.Engine.Materialize.Safety.{apply-conflict}

conflict-decide_existing :
    (o : ArtifactOwnership) (digest existing : Digest) (last : Option Digest)
    → is_conflict (decide_existing o digest existing last) ≡ true
    → (o ≡ compiler_owned) × (digest ≢ existing) × (last ≢ some existing)
conflict-decide_existing owner_seeded digest existing last h = cc
conflict-decide_existing compiler_owned digest existing none h =
    (refl, (λ e. ground (arith, eq_iff existing digest)), λ e. cc)
conflict-decide_existing compiler_owned digest existing (some l) h =
    (refl, (λ e. ground (arith, eq_iff existing digest)), λ e. ground (arith, eq_iff existing l))

decide_existing-conflict :
    (digest existing : Digest) (last : Option Digest)
    → digest ≢ existing
    → last ≢ some existing
    → is_conflict (decide_existing compiler_owned digest existing last) ≡ true
decide_existing-conflict digest existing none d l = ground (arith, eq_iff existing digest)
decide_existing-conflict digest existing (some w) d l =
    ground (arith, eq_iff existing digest, eq_iff existing w)

-- The decisions map of distinct paths lists every decision.
pub decisions_of-distinct :
    (fs : List DecidedFile)
    → Nodup (paths (map (λ (f : DecidedFile). f.artifact) fs))
    → decisions_of fs ≡ map (λ (f : DecidedFile). (f.artifact.path, f.decision)) fs
decisions_of-distinct fs n =
    from_entries-distinct _ (subst Nodup (map-map _ _ fs ∙ sym (map-map _ _ fs)) n)

any-decisions :
    (fs : List DecidedFile)
    → any
        (λ (e : String × WriteDecision). is_conflict e.1)
        (map (λ (f : DecidedFile). (f.artifact.path, f.decision)) fs)
      ≡ any in_conflict fs
any-decisions [] = refl
any-decisions (f ∷ fs) = ap (λ b. is_conflict f.decision || b) (any-decisions fs)

conflicts-some :
    (result : Compilation) (component : String) (fs : List DecidedFile)
    → any in_conflict fs ≡ true
    → conflicts result component fs ≢ []
unfolding conflicts
conflicts-some result component [] h = cc
conflicts-some result component (f ∷ fs) h = elim (Bool-cases (in_conflict f)) [
  | inl e ↦ rw e (λ empty. cc)
  | inr e ↦ rw e (conflicts-some result component fs (rw e at h))
]

conflicts-none :
    (result : Compilation) (component : String) (fs : List DecidedFile)
    → any in_conflict fs ≡ false
    → conflicts result component fs ≡ []
unfolding conflicts
conflicts-none result component [] h = refl
conflicts-none result component (f ∷ fs) h = elim (Bool-cases (in_conflict f)) [
  | inl e ↦ absurd (cc (rw e at h))
  | inr e ↦ rw e (conflicts-none result component fs (rw e at h))
]

module _ (sha256 : String → String) (directory : List String) (files : List (String × String))
    (written : List (String × Digest)) where
  -- A compiler-owned artifact whose file holds neither what is planned nor what was last written.
  pub record IsChangedOutside (a : PlannedArtifact) : Type 0 where
    pub owned : a.ownership ≡ compiler_owned
    pub segments : List String
    pub inside : below directory (resolve directory a.path) ≡ some segments
    pub content : String
    pub there : get files (join "/" segments) ≡ some content
    pub differs : a.digest ≢ file_digest sha256 content
    pub unknown : get written a.path ≢ some (file_digest sha256 content)

  in_conflict-IsChangedOutside :
      (f : DecidedFile)
      → IsDecided sha256 directory files written f
      → in_conflict f ≡ true
      → IsChangedOutside f.artifact
  unfolding decide_write
  in_conflict-IsChangedOutside f decided h = elim (Option-cases (get files f.target)) [
    | inl missing ↦ absurd (
        cc (
          decided.rule
          ∙ ap
              (λ e.
                decide_write f.artifact (Option.map (file_digest sha256) e)
                  (get written f.artifact.path))
              missing))
    | inr (content, there) ↦
        let rule =
          decided.rule
          ∙ ap
              (λ e.
                decide_write f.artifact (Option.map (file_digest sha256) e)
                  (get written f.artifact.path))
              there in
        let (owned, differs, unknown) =
          conflict-decide_existing f.artifact.ownership _ _ _ (ap is_conflict (sym rule) ∙ h) in
        record {
          owned = owned;
          segments = decided.segments;
          inside = decided.inside;
          content = content;
          there = ap (get files) (sym decided.target) ∙ there;
          differs = differs;
          unknown = unknown;
        }
  ]

  IsChangedOutside-in_conflict :
      (f : DecidedFile)
      → IsDecided sha256 directory files written f
      → IsChangedOutside f.artifact
      → in_conflict f ≡ true
  unfolding decide_write
  IsChangedOutside-in_conflict f decided c =
      let same : decided.segments ≡ c.segments = cc (decided.inside, c.inside) in
      let there : get files f.target ≡ some c.content =
        ap (get files) (decided.target ∙ ap (join "/") same) ∙ c.there in
      let rule =
        decided.rule
        ∙ ap
            (λ e.
              decide_write f.artifact (Option.map (file_digest sha256) e)
                (get written f.artifact.path))
            there in
      ap is_conflict (
        rule
        ∙ ap
            (λ o.
              decide_existing o f.artifact.digest (file_digest sha256 c.content)
                (get written f.artifact.path))
            c.owned)
      ∙ decide_existing-conflict _ _ _ c.differs c.unknown

  any-IsChangedOutside :
      (fs : List DecidedFile)
      → All (IsDecided sha256 directory files written) fs
      → any in_conflict fs ≡ true
      → Any IsChangedOutside (map (λ (f : DecidedFile). f.artifact) fs)
  any-IsChangedOutside [] h a = cc
  any-IsChangedOutside (f ∷ fs) (h, hs) a = elim (Bool-cases (in_conflict f)) [
    | inl e ↦ inl (in_conflict-IsChangedOutside f h e)
    | inr e ↦ inr (any-IsChangedOutside fs hs (rw e at a))
  ]

  none-IsChangedOutside :
      (fs : List DecidedFile)
      → All (IsDecided sha256 directory files written) fs
      → any in_conflict fs ≡ false
      → All (λ a. ¬ IsChangedOutside a) (map (λ (f : DecidedFile). f.artifact) fs)
  none-IsChangedOutside [] h a = tt
  none-IsChangedOutside (f ∷ fs) (h, hs) a = elim (Bool-cases (in_conflict f)) [
    | inl e ↦ absurd (cc (rw e at a))
    | inr e ↦ (
      (λ c. ground (arith, e, IsChangedOutside-in_conflict f h c)),
      none-IsChangedOutside fs hs (rw e at a),
    )
  ]

module _ (sha256 : String → String) (result : Compilation) (root : List String)
    (executed_at : String) where
  pub outcome-in_conflict :
      (planned : PlannedComponent) (d : Directory) (m : Materialized)
      → Nodup (paths planned.plan.artifacts)
      → IsRun sha256 result root executed_at planned d m
      → m.new.spec.outcome ≡ (if any in_conflict m.decided then conflict else applied)
  outcome-in_conflict planned d m distinct run =
      run.outcome
      ∙ ap (λ (es : List (String × WriteDecision)). outcome_of es)
          (decisions_of-distinct m.decided
            (subst (λ (xs : List PlannedArtifact). Nodup (paths xs)) (sym run.artifacts) distinct))
      ∙ ap (λ b. if b then conflict else applied) (any-decisions m.decided)

  -- For a plan whose paths are distinct, a run of `materialize_component` that returns is one
  -- of two. Either the outcome is CONFLICT, some compiler-owned artifact's file holds neither
  -- what is planned nor what was last recorded for it, a diagnostic is reported and the
  -- directory, its records included, is as before. Or the outcome is APPLIED, no artifact's
  -- file was so changed, and nothing is reported.
  pub materialize_component-atomic :
      (planned : PlannedComponent) (d : Directory) (m : Materialized)
      → Nodup (paths planned.plan.artifacts)
      → materialize_component sha256 result root executed_at planned d ≡ returned m
      → ((m.new.spec.outcome ≡ conflict)
          × Any
              (IsChangedOutside sha256 (component_path root planned) d.files (written_before d))
              planned.plan.artifacts
          × (m.found ≢ [])
          × (m.directory ≡ d))
        ⊎ ((m.new.spec.outcome ≡ applied)
            × All
                (λ a.
                  ¬ IsChangedOutside sha256
                    (component_path root planned)
                    d.files
                    (written_before d)
                    a)
                planned.plan.artifacts
            × (m.found ≡ []))
  materialize_component-atomic planned d m distinct h =
      let run = materialize_component-IsRun sha256 result root executed_at planned d m h in
      let outcome = outcome-in_conflict planned d m distinct run in
      elim (Bool-cases (any in_conflict m.decided)) [
        | inl e ↦
            let o : m.new.spec.outcome ≡ conflict = rw e at outcome in
            inl (
              o,
              subst (Any (IsChangedOutside sha256 _ d.files (written_before d))) run.artifacts (
                  any-IsChangedOutside sha256 _ d.files (written_before d) m.decided run.decides e),
              (λ empty.
                  conflicts-some result planned.component.id m.decided e (sym run.found ∙ empty)),
              sym (apply-conflict _ _ _ _ d m.directory (rw o at run.applied)),
            )
        | inr e ↦ inr (
          (rw e at outcome),
          subst (All (λ a. ¬ IsChangedOutside sha256 _ d.files (written_before d) a)) run.artifacts
              (none-IsChangedOutside sha256 _ d.files (written_before d) m.decided run.decides e),
          run.found ∙ conflicts-none result planned.component.id m.decided e,
        )
      ]
