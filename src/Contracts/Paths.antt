-- ===== src/Contracts/Paths.antt =====
-- kernel/contracts/src/primitives/paths.ts: the paths of generated files.
pub mod Laws
use Prim.Native.Char.{Char, code}
use Prim.Native.String
use enistere_foundation.Base.{
  String, ℕ, Bool, true, false, not, ◌&&◌, ◌||◌, ◌==◌, any, eqb, leb, if◌then◌else◌,
}
use enistere_foundation.Base.Paths.{split_slash, has_prefix}

-- `[A-Za-z0-9_.@-]`, and the class of the later characters
abbrev is_name_char : ℕ → Bool
is_name_char c =
    leb b'A' c && leb c b'Z'
    || leb b'a' c && leb c b'z'
    || leb b'0' c && leb c b'9'
    || eqb c b'_'
    || eqb c b'.'
    || eqb c b'@'
    || eqb c b'-'

abbrev is_path_char : ℕ → Bool
is_path_char c = is_name_char c || eqb c b'/'

all_path_chars : String → Bool
all_path_chars String.[] = true
all_path_chars (String.◌∷◌ c s) = is_path_char (code c) && all_path_chars s

-- `(?!.*\/\/)`
has_double_slash : String → Bool
has_double_slash String.[] = false
has_double_slash (String.◌∷◌ c String.[]) = false
has_double_slash (String.◌∷◌ c (String.◌∷◌ d s)) =
    eqb (code c) b'/' && eqb (code d) b'/' || has_double_slash (String.◌∷◌ d s)

-- `path.endsWith('/')`
ends_with_slash : String → Bool
ends_with_slash String.[] = false
ends_with_slash (String.◌∷◌ c String.[]) = eqb (code c) b'/'
ends_with_slash (String.◌∷◌ c (String.◌∷◌ d s)) = ends_with_slash (String.◌∷◌ d s)

-- `SAFE_PATH.test(path)`; a segment `..` is what the second lookahead excludes.
safe_path : String → Bool
safe_path String.[] = false
safe_path (String.◌∷◌ c s) =
    not (eqb (code c) b'/')
    && not (any (λ segment. segment == "..") (split_slash (String.◌∷◌ c s)))
    && not (has_double_slash (String.◌∷◌ c s))
    && is_name_char (code c)
    && all_path_chars s

unfoldable pub is_safe_artifact_path : String → Bool
unfolding safe_path split_slash has_double_slash all_path_chars ends_with_slash has_prefix
is_safe_artifact_path path =
    safe_path path && not (ends_with_slash path) && not (has_prefix ".foundation/" path)
