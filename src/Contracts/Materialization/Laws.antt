-- ===== src/Contracts/Materialization/Laws.antt =====
-- Which records the rules of A8 accept.
use mathlib.Core.List.{Nodup, Nodup-cons, append_assoc}
use enistere_foundation.Base.{
  String, ℕ, suc, Bool, true, false, ◌&&◌, List, [], ◌∷◌, ◌++◌, Option, none, some, map, any, keep,
  length, includes, ltb, ◌≡◌, refl, All, arith, eq_iff, Bool-cases, inl, inr, if◌then◌else◌,
}
use enistere_foundation.Base.Text.Sets.{includes_iff}
use enistere_foundation.Contracts.Materialization.{
  file_conflicts, file_writes, seeded_and, inconsistent, check_files, check_outcome,
  validate_materialization_record,
}
use enistere_foundation.Contracts.Checks.{timestamp}
use enistere_foundation.Contracts.Identity.{MaterializationRecord}
use enistere_foundation.Contracts.Paths.{is_safe_artifact_path}
use enistere_foundation.Contracts.Types.Evidence.{applied, conflict, RecordedFile}

abbrev pub recorded_paths : List RecordedFile → List String
recorded_paths = map (λ (f : RecordedFile). f.path)

-- A safe path, and no decision that the owner's file excludes.
abbrev pub IsRecordable : RecordedFile → Type 0
IsRecordable f = (is_safe_artifact_path f.path ≡ true) × (seeded_and f.ownership f.decision ≡ none)

check_files-none :
    (seen : List String) (index : ℕ) (ref : String) (files : List RecordedFile)
    → All IsRecordable files
    → Nodup (recorded_paths files)
    → All (λ p. includes seen p ≡ false) (recorded_paths files)
    → check_files seen index ref files ≡ []
unfolding check_files
check_files-none seen index ref [] h n new = refl
check_files-none seen index ref (f ∷ files) ((safe, fits), h) n (new, later) =
    let (apart, others) = Nodup-cons.0 n in
    let away : includes (recorded_paths files) f.path ≡ false =
      elim (Bool-cases (includes (recorded_paths files) f.path)) [
        | inl i ↦ absurd (apart ((includes_iff _ _).0 i))
        | inr i ↦ i
      ] in
    rw (safe, new, fits)
      (check_files-none (f.path ∷ seen) (suc index) ref files h others
        (still_new (recorded_paths files) away later))
  where
    still_new :
        (ps : List String)
        → includes ps f.path ≡ false
        → All (λ p. includes seen p ≡ false) ps
        → All (λ p. includes (f.path ∷ seen) p ≡ false) ps
    still_new [] a l = tt
    still_new (p ∷ ps) a (e, l) =
        (ground (arith, eq_iff f.path p, eq_iff p f.path), still_new ps (ground arith) l)

pub check_files-distinct :
    (ref : String) (files : List RecordedFile)
    → All IsRecordable files
    → Nodup (recorded_paths files)
    → check_files [] 0 ref files ≡ []
check_files-distinct ref files h n =
    check_files-none [] 0 ref files h n (all_new (recorded_paths files))
  where
    all_new : (ps : List String) → All (λ p. includes [] p ≡ false) ps
    all_new [] = tt
    all_new (p ∷ ps) = (refl, all_new ps)

pub length-keep {ℓ} :
    {A : Type ℓ} (p : A → Bool) (xs : List A) → ltb 0 (length (keep p xs)) ≡ any p xs
length-keep p [] = refl
length-keep p (x ∷ xs) = ground (arith, length-keep p xs)

pub check_outcome_lem :
    (files : List RecordedFile) (ref : String)
    → check_outcome
        (if any file_conflicts files then conflict else applied)
        (length (keep file_conflicts files))
        (length (keep file_writes files))
        ref
      ≡ (if any file_conflicts files && any file_writes files
          then inconsistent "a CONFLICT outcome records at least one conflict and no write" ref
              "/spec/outcome"
            ∷ []
          else [])
check_outcome_lem files ref = elim (Bool-cases (any file_conflicts files)) [
  | inl some_conflict ↦
      ground (arith, length-keep file_conflicts files, length-keep file_writes files)
  | inr no_conflict ↦ ground (arith, length-keep file_conflicts files)
]

-- The three parts of the validation.
pub validate_parts :
    (date_parse : String → Option ℕ) (d : MaterializationRecord) (ref : String)
    → validate_materialization_record date_parse d ref
      ≡ timestamp date_parse (some d.spec.executed_at) "/spec/executedAt" ref
        ++ (check_files [] 0 ref d.spec.files
            ++ check_outcome d.spec.outcome
                (length (keep file_conflicts d.spec.files))
                (length (keep file_writes d.spec.files))
                ref)
unfolding validate_materialization_record
validate_parts date_parse d ref =
    append_assoc (timestamp date_parse (some d.spec.executed_at) "/spec/executedAt" ref) _ _
