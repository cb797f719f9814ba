-- ===== src/Base/Paths.antt =====
-- POSIX paths as Node's `path.resolve` reads them: segments between slashes, `.` and empty segments
-- dropped, `..` going up, a leading slash starting anew at the root.
use Prim.Native.Char.{Char, code}
use Prim.Native.String.{String}
use mathlib.Core.Bool.{Bool, true, false, ◌&&◌, ◌||◌}
use mathlib.Core.List.{List, [], ◌∷◌, reverse, tail}
use mathlib.Core.Option.{Option, none, some}
use text.Mathlib.Text.{◌==◌}
use enistere_foundation.Base.Tests.{eqb, if◌then◌else◌}

-- `c` in front of the first segment
abbrev pub extend : Char → List String → List String
extend c [] = String.◌∷◌ c String.[] ∷ []
extend c (s ∷ ss) = String.◌∷◌ c s ∷ ss

-- `path.split('/')`
unfoldable pub split_slash : String → List String
split_slash String.[] = "" ∷ []
split_slash (String.◌∷◌ c s) =
    let rest = split_slash s in if eqb (code c) b'/' then "" ∷ rest else extend c rest

-- One segment, on the reversed segments so far.
unfoldable pub enter : List String → String → List String
enter stack s = if s == "" || s == "." then stack else if s == ".." then tail stack else s ∷ stack

unfoldable pub enter_all : List String → List String → List String
unfolding enter
enter_all stack [] = stack
enter_all stack (s ∷ ss) = enter_all (enter stack s) ss

abbrev pub start : List String → List String → List String
start directory (s ∷ t ∷ ss) = if s == "" then [] else reverse directory
start directory ss = reverse directory

-- `resolve(directory, path)` for an absolute directory.
unfoldable pub resolve : List String → String → List String
unfolding split_slash enter_all
resolve directory path = reverse (enter_all (start directory (split_slash path)) (split_slash path))

-- What follows `directory` in an absolute path that is strictly below it.
unfoldable pub below : List String → List String → Option (List String)
below [] [] = none
below [] (s ∷ ss) = some (s ∷ ss)
below (d ∷ ds) [] = none
below (d ∷ ds) (s ∷ ss) = let rest = below ds ss in if d == s then rest else none

-- `text.startsWith(prefix)`
unfoldable pub has_prefix : String → String → Bool
has_prefix String.[] s = true
has_prefix (String.◌∷◌ c t) String.[] = false
has_prefix (String.◌∷◌ c t) (String.◌∷◌ d s) = eqb (code c) (code d) && has_prefix t s
