-- ===== src/Contracts/Baseline/Cycles.antt =====
-- kernel/contracts/src/contracts/requirement-baseline.ts: the search for cycles of dependencies.
-- A visit runs on fuel and is none when it has not enough of it; one more than the number of
-- requirements is enough, since each visit below another one marks a requirement that had no mark.
pub mod Enough
use enistere_foundation.Base.{
  String, ℕ, zero, suc, Bool, true, false, List, [], ◌∷◌, ◌++◌, Option, none, some, ◌>>=◌, map,
  keep, is_some, get_or, length, join, compare_text, ◌<>◌, ◌==◌, if◌then◌else◌,
}
use enistere_foundation.Base.Dict.{get, has, keys, put, from_entries}
use enistere_foundation.Base.Sorting.{sort}
use enistere_foundation.Contracts.Diagnostics.{Diagnostic, diagnostic, located}
use enistere_foundation.Contracts.Diagnostics.Codes.{requirement_dependency_cycle}
use enistere_foundation.Contracts.Types.Baseline.{Requirement}

pub data Mark : Type 0 where
  visiting done : Mark

-- The map `state` and what was found.
pub record Search : Type 0 where
  pub state : List (String × Mark)
  pub found : List Diagnostic

abbrev pub Graph : Type 0
Graph = List (String × List String)

abbrev pub marked : String → Mark → Search → Search
marked id m s = record s { state = put s.state id m }

-- `trail.slice(trail.indexOf(id))`, for an identifier on the trail.
abbrev from_first : String → List String → List String
from_first id [] = []
from_first id (t ∷ ts) = let rest = from_first id ts in if t == id then t ∷ ts else rest

abbrev pub report : String → String → List String → Search → Search
report ref id trail s = record s {
  found =
      s.found
      ++ diagnostic requirement_dependency_cycle
          ("dependency cycle " <> join " → " (from_first id trail ++ id ∷ []))
          (located ref "/spec/requirements")
        ∷ [];
}

-- The loop over the identifiers, in the state that each leaves to the next.
abbrev pub each : (String → Search → Option Search) → List String → Search → Option Search
each step [] s = some s
each step (id ∷ ids) s = elim (step id s) [ none ↦ none | some t ↦ each step ids t ]

-- The dependencies that the search goes on with, sorted.
abbrev pub nexts : Graph → String → List String
nexts graph id = keep (has graph) (sort compare_text (get_or (get graph id) []))

abbrev pub finish : String → Option Search → Option Search
finish id none = none
finish id (some s) = some (marked id done s)

unfoldable pub visit : Graph → String → ℕ → String → List String → Search → Option Search
unfolding get put sort compare_text diagnostic join
visit graph ref zero id trail s = none
visit graph ref (suc fuel) id trail s = elim (get s.state id) [
  | some done ↦ some s
  | some visiting ↦ some (report ref id trail s)
  | none ↦ finish id (
      each (λ next. visit graph ref fuel next (trail ++ id ∷ [])) (nexts graph id)
        (marked id visiting s))
]

abbrev pub graph_of : List Requirement → Graph
graph_of requirements =
    from_entries [] (map (λ (r : Requirement). (r.id, get_or r.depends_on [])) requirements)

abbrev pub start : Search
start = record { state = []; found = [] }

-- What the search finds, if the fuel is enough.
unfoldable pub dependency_cycles : List Requirement → String → Option (List Diagnostic)
unfolding visit from_entries put sort compare_text
dependency_cycles requirements ref =
    let graph = graph_of requirements in
    each (λ id. visit graph ref (suc (length (keys graph))) id []) (sort compare_text (keys graph))
      start
    >>= (λ s. some s.found)
