-- ===== src/Contracts/Paths/Laws.antt =====
-- A safe path stays below its directory.
use Prim.Native.Char.{Char, code}
use text.Mathlib.TextLemmas.{cons≢nil}
use mathlib.Core.List.{append-nil, reverse-reverse, reverse, reverse-cons, append_assoc}
use enistere_foundation.Base.{
  String, Bool, true, false, not, ◌||◌, ◌==◌, any, List, [], ◌∷◌, ◌++◌, some, keep, ◌≡◌, ◌≢◌, refl,
  arith, eq_iff, Bool-cases, inl, inr, sym, ap, ◌∙◌, eq_refl, eqb,
}
use enistere_foundation.Base.Paths.{split_slash, enter, enter_all, resolve, below, start, extend}
use enistere_foundation.Contracts.Paths.{is_safe_artifact_path, safe_path}

abbrev pub named : String → Bool
named s = not (s == "" || s == ".")

enter_all-plain :
    (stack ss : List String)
    → any (λ s. s == "..") ss ≡ false
    → reverse (enter_all stack ss) ≡ reverse stack ++ keep named ss
unfolding enter_all enter
enter_all-plain stack [] h = sym (append-nil _)
enter_all-plain stack (s ∷ ss) h = elim (Bool-cases (s == "" || s == ".")) [
  | inl skip ↦ rw skip (enter_all-plain stack ss (ground arith))
  | inr push ↦
      let plain : (s == "..") ≡ false = ground arith in
      let ih = enter_all-plain (s ∷ stack) ss (ground arith) in
      rw (push, plain)
        (ih
          ∙ ap (λ front. front ++ keep named ss) (reverse-cons s stack)
          ∙ append_assoc (reverse stack) (s ∷ []) (keep named ss))
]

below-append :
    (ds : List String) (s : String) (ss : List String) → below ds (ds ++ s ∷ ss) ≡ some (s ∷ ss)
unfolding below
below-append [] s ss = refl
below-append (d ∷ ds) s ss = ground (arith, eq_refl d, below-append ds s ss)

cons-ne-empty : (c : Char) (s : String) → (String.◌∷◌ c s == "") ≡ false
cons-ne-empty c s = elim (Bool-cases (String.◌∷◌ c s == "")) [
  | inl e ↦ absurd (cons≢nil ((eq_iff _ _).0 e))
  | inr e ↦ e
]

start-extend :
    (directory : List String) (c : Char) (ss : List String)
    → start directory (extend c ss) ≡ reverse directory
start-extend directory c [] = refl
start-extend directory c (s ∷ []) = refl
start-extend directory c (s ∷ t ∷ ss) = rw (cons-ne-empty c s)

start-relative :
    (directory : List String) (path : String)
    → safe_path path ≡ true
    → start directory (split_slash path) ≡ reverse directory
unfolding safe_path split_slash
start-relative directory String.[] h = cc
start-relative directory (String.◌∷◌ c s) h =
    let relative : eqb (code c) b'/' ≡ false = ground arith in
    rw relative (start-extend directory c (split_slash s))

no_parent :
    (path : String) → safe_path path ≡ true → any (λ s. s == "..") (split_slash path) ≡ false
unfolding safe_path
no_parent String.[] h = cc
no_parent (String.◌∷◌ c s) h = ground arith

safe_of : (path : String) → is_safe_artifact_path path ≡ true → safe_path path ≡ true
unfolding is_safe_artifact_path
safe_of path h = ground arith

-- A safe path resolves to its own segments below the directory, the `.` segments dropped.
pub resolve-safe :
    (directory : List String) (path : String)
    → is_safe_artifact_path path ≡ true
    → resolve directory path ≡ directory ++ keep named (split_slash path)
unfolding resolve
resolve-safe directory path h = rw (start-relative directory path (safe_of path h)) (
    enter_all-plain (reverse directory) (split_slash path) (no_parent path (safe_of path h))
    ∙ ap (λ front. front ++ keep named (split_slash path)) (reverse-reverse directory))

-- A safe artifact path that has a segment other than `.` resolves strictly below whatever
-- directory it is resolved in: to its own segments, less those that are `.` or empty.
pub below-resolve :
    (directory : List String) (path : String)
    → is_safe_artifact_path path ≡ true
    → keep named (split_slash path) ≢ []
    → below directory (resolve directory path) ≡ some (keep named (split_slash path))
below-resolve directory path h n =
    rw (resolve-safe directory path h) (elim-below directory (keep named (split_slash path)) n)
  where
    elim-below : (ds ss : List String) → ss ≢ [] → below ds (ds ++ ss) ≡ some ss
    elim-below ds [] m = absurd (m refl)
    elim-below ds (s ∷ ss) m = below-append ds s ss
