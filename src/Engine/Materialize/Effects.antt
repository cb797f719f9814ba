-- ===== src/Engine/Materialize/Effects.antt =====
-- What the writes of an applied materialization leave on disk.
use mathlib.Core.List.{Nodup, Nodup-cons}
use enistere_foundation.Base.{
  String, true, false, ◌==◌, List, [], ◌∷◌, Option, some, none, map, includes, ◌≡◌, ◌⊎◌, inl, inr,
  sym, ap, ◌∙◌, subst, All, Any, arith, eq_iff, Bool-cases, if◌then◌else◌, eq_refl,
}
use enistere_foundation.Base.Dict.{get, put, get-put}
use enistere_foundation.Base.Text.Sets.{includes_iff}
use enistere_foundation.Contracts.Digest.{returned}
use enistere_foundation.Extensions.Ownership.{writes}
use enistere_foundation.Contracts.Digest.Returns.{bind-eq-returned, returned-injective}
use enistere_foundation.Engine.Materialize.{DecidedFile, write_content, write_files}

abbrev pub targets : List DecidedFile → List String
targets = map (λ (f : DecidedFile). f.target)

-- `f` is written to `path`, and `out` holds its content there.
pub record IsWrittenBy (contents out : List (String × String)) (path : String) (f : DecidedFile)
    : Type 0 where
  pub writes : writes f.decision ≡ true
  pub target : f.target ≡ path
  pub written : get out path ≡ get contents f.artifact.path

pub write_content_lem :
    (c : Option String) (target : String) (files next : List (String × String))
    → write_content c target files ≡ returned next
    → (path : String) → get next path ≡ (if target == path then c else get files path)
write_content_lem none target files next h path = cc
write_content_lem (some content) target files next h path =
    subst
      (λ (m : List (String × String)).
        get m path ≡ (if target == path then some content else get files path))
      (returned-injective h) (get-put files target path content)

module _ (contents : List (String × String)) where
  pub write_files_lem :
      (fs : List DecidedFile) (files out : List (String × String))
      → write_files contents fs files ≡ returned out
      → (path : String) → Any (IsWrittenBy contents out path) fs ⊎ (get out path ≡ get files path)
  unfolding write_files
  write_files_lem [] files out h path =
      inr (ap (λ (m : List (String × String)). get m path) (sym (returned-injective h)))
  write_files_lem (f ∷ fs) files out h path = elim (Bool-cases (writes f.decision)) [
    | inr skip ↦ elim (write_files_lem fs files out (rw skip at h) path) [
      | inl later ↦ inl (inr later)
      | inr kept ↦ inr kept
    ]
    | inl write ↦
        let (next, put, rest) =
          bind-eq-returned (write_content (get contents f.artifact.path) f.target files) _
            (rw write at h) in
        let at_path = write_content_lem _ f.target files next put path in
        elim (write_files_lem fs next out rest path) [
          | inl later ↦ inl (inr later)
          | inr kept ↦ elim (Bool-cases (f.target == path)) [
            | inl here ↦ inl (
                inl (record {
                  writes = write;
                  target = (eq_iff _ _).0 here;
                  written = kept ∙ (rw here at at_path);
                }))
            | inr away ↦ inr (kept ∙ (rw away at at_path))
          ]
        ]
  ]

  Any-target :
      (out : List (String × String)) (path : String) (fs : List DecidedFile)
      → Any (IsWrittenBy contents out path) fs
      → includes (targets fs) path ≡ true
  Any-target out path [] w = elim w [ ]
  Any-target out path (f ∷ fs) (inl w) = ground (arith, eq_iff f.target path, w.target)
  Any-target out path (f ∷ fs) (inr later) = ground (arith, Any-target out path fs later)

  pub write_files-untouched :
      (fs : List DecidedFile) (files out : List (String × String))
      → write_files contents fs files ≡ returned out
      → (path : String) → includes (targets fs) path ≡ false
      → get out path ≡ get files path
  write_files-untouched fs files out h path away = elim (write_files_lem fs files out h path) [
    | inl written ↦ absurd (ground (arith, Any-target out path fs written))
    | inr kept ↦ kept
  ]

  abbrev pub content_after : List (String × String) → DecidedFile → Option String
  content_after files f =
      let kept = get files f.target in
      if writes f.decision then get contents f.artifact.path else kept

  content_after-away :
      (c : Option String) (target : String) (files next : List (String × String))
      (fs : List DecidedFile)
      → write_content c target files ≡ returned next
      → includes (targets fs) target ≡ false
      → (out : List (String × String)) → All (λ f. get out f.target ≡ content_after next f) fs
      → All (λ f. get out f.target ≡ content_after files f) fs
  content_after-away c target files next [] put away out h = tt
  content_after-away c target files next (f ∷ fs) put away out (e, h) =
      let apart : (target == f.target) ≡ false =
        ground (arith, eq_iff target f.target, eq_iff f.target target) in
      let same : get next f.target ≡ get files f.target =
        rw apart at (write_content_lem c target files next put f.target) in
      (ground (arith, e, same), content_after-away c target files next fs put (ground arith) out h)

  -- When the targets differ, every file ends with its planned content if it is written, and as it was
  -- otherwise.
  pub write_files-each :
      (fs : List DecidedFile) (files out : List (String × String))
      → Nodup (targets fs)
      → write_files contents fs files ≡ returned out
      → All (λ f. get out f.target ≡ content_after files f) fs
  unfolding write_files
  write_files-each [] files out n h = tt
  write_files-each (f ∷ fs) files out n h =
      let (new, others) = Nodup-cons.0 n in
      let away : includes (targets fs) f.target ≡ false =
        elim (Bool-cases (includes (targets fs) f.target)) [
          | inl i ↦ absurd (new ((includes_iff _ _).0 i))
          | inr i ↦ i
        ] in
      elim (Bool-cases (writes f.decision)) [
        | inr skip ↦
            let rest = rw skip at h in
            (
              rw skip (write_files-untouched fs files out rest f.target away),
              write_files-each fs files out others rest,
            )
        | inl write ↦
            let (next, put, rest) =
              bind-eq-returned (write_content (get contents f.artifact.path) f.target files) _
                (rw write at h) in
            let at_target = write_content_lem _ f.target files next put f.target in
            (
              rw write (
                  write_files-untouched fs next out rest f.target away
                  ∙ (rw (eq_refl f.target) at at_target)),
              content_after-away _ f.target files next fs put away out
                  (write_files-each fs next out others rest),
            )
      ]
