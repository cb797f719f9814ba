-- ===== src/Contracts/Baseline/Cycles/Enough.antt =====
-- kernel/contracts/src/contracts/requirement-baseline.ts: the fuel of the search is enough.
use enistere_foundation.Base.{
  String, ℕ, zero, suc, ◌≤◌, ◌<◌, Bool, true, false, not, List, [], ◌∷◌, ◌++◌, Option, none, some,
  keep, get_or, includes, length, compare_text, ◌≡◌, refl, sym, ap, ◌∙◌, All, arith, Bool-cases,
  inl, inr, eq_iff, eq_refl, ◌==◌,
}
use enistere_foundation.Base.Dict.{get, has, keys, get-put, has-keys}
use enistere_foundation.Base.Sorting.{sort}
use enistere_foundation.Base.Sorting.Order.{sort-All}
use enistere_foundation.Contracts.Baseline.Cycles.{
  Mark, visiting, done, Search, Graph, marked, report, each, nexts, finish, visit, graph_of, start,
  dependency_cycles,
}
use enistere_foundation.Contracts.Diagnostics.{Diagnostic}
use enistere_foundation.Contracts.Types.Baseline.{Requirement}

abbrev is_marked : Search → String → Bool
is_marked s id = has s.state id

-- How many of the identifiers have no mark.
abbrev unmarked : Search → List String → ℕ
unmarked s ids = length (keep (λ id. not (is_marked s id)) ids)

-- No mark is lost.
abbrev Keeps : Search → Search → Type 0
Keeps s t = (id : String) → is_marked s id ≡ true → is_marked t id ≡ true

unmarked_mono : (s t : Search) (ids : List String) → Keeps s t → unmarked t ids ≤ unmarked s ids
unmarked_mono s t [] k = omega arith
unmarked_mono s t (id ∷ ids) k = ground (arith, k id, unmarked_mono s t ids k)

unmarked_less :
    (s t : Search) (id : String) (ids : List String)
    → Keeps s t
    → includes ids id ≡ true
    → is_marked s id ≡ false
    → is_marked t id ≡ true
    → unmarked t ids < unmarked s ids
unmarked_less s t id [] k i n m = cc i
unmarked_less s t id (j ∷ ids) k i n m = elim (Bool-cases (j == id)) [
  | inl here ↦
      let same : j ≡ id = (eq_iff j id).0 here in
      ground (arith, ap (is_marked s) same ∙ n, ap (is_marked t) same ∙ m, unmarked_mono s t ids k)
  | inr away ↦ ground (arith, k j, unmarked_less s t id ids k (ground (arith, i, away)) n m)
]

marked-Keeps : (s : Search) (id : String) (m : Mark) → Keeps s (marked id m s)
marked-Keeps s id m j h = ground (arith, h, get-put s.state id j m)

is_marked-marked : (s : Search) (id : String) (m : Mark) → is_marked (marked id m s) id ≡ true
is_marked-marked s id m = ground (arith, get-put s.state id id m, eq_refl id)

-- The step returns, and keeps the marks.
abbrev Returns : Option Search → Search → Type 0
Returns r s = (t : Search) × (r ≡ some t) × Keeps s t

each-Returns :
    (step : String → Search → Option Search) (bound : ℕ) (all ids : List String)
    → All (λ id. (s : Search) → unmarked s all < bound → Returns (step id s) s) ids
    → (s : Search) → unmarked s all < bound
    → Returns (each step ids s) s
each-Returns step bound all [] h s b = (s, refl, λ id m. m)
each-Returns step bound all (id ∷ ids) (h, hs) s b =
    let (t, e, k) = h s b in
    let (u, f, l) =
      each-Returns step bound all ids hs t (omega (arith, b, unmarked_mono s t all k)) in
    (u, rw (each, e) f, λ j m. l j (k j m))

keep-All :
    (p : String → Bool) (P : String → Type 0) (ids : List String)
    → ((id : String) → p id ≡ true → P id)
    → All P (keep p ids)
keep-All p P [] h = tt
keep-All p P (id ∷ ids) h = elim (Bool-cases (p id)) [
  | inl in_it ↦ rw in_it (h id in_it, keep-All p P ids h)
  | inr out ↦ rw out (keep-All p P ids h)
]

module _ (graph : Graph) (ref : String) where
  finish-Returns :
      (id : String) (r : Option Search) (s : Search)
      → Returns r (marked id visiting s)
      → Returns (finish id r) s
  finish-Returns id r s (t, e, k) = (
    marked id done t,
    ap (finish id) e,
    λ j m. marked-Keeps t id done j (k j (marked-Keeps s id visiting j m)),
  )

  visit-Returns :
      (fuel : ℕ) (id : String) (trail : List String)
      → includes (keys graph) id ≡ true
      → (s : Search) → unmarked s (keys graph) < fuel
      → Returns (visit graph ref fuel id trail s) s
  unfolding visit
  visit-Returns zero id trail i s b = absurd (omega (arith, b))
  visit-Returns (suc fuel) id trail i s b = entered (get s.state id) refl (
      each-Returns (λ next. visit graph ref fuel next (trail ++ id ∷ [])) fuel (keys graph)
        (nexts graph id)
        (keep-All (has graph)
          (λ next.
            (t : Search)
            → unmarked t (keys graph) < fuel
            → Returns (visit graph ref fuel next (trail ++ id ∷ []) t) t)
          (sort compare_text (get_or (get graph id) []))
          (λ next known t.
            visit-Returns fuel next (trail ++ id ∷ []) (sym (has-keys graph next) ∙ known) t))
        (marked id visiting s))
    where
      entered :
          (m : Option Mark)
          → get s.state id ≡ m
          → (unmarked (marked id visiting s) (keys graph) < fuel
              → Returns
                  (each
                    (λ next. visit graph ref fuel next (trail ++ id ∷ []))
                    (nexts graph id)
                    (marked id visiting s))
                  (marked id visiting s))
          → Returns (visit graph ref (suc fuel) id trail s) s
      entered (some done) e later = (s, rw (visit, e) refl, λ j m. m)
      entered (some visiting) e later = (report ref id trail s, rw (visit, e) refl, λ j m. m)
      entered none e later =
          let less =
            unmarked_less s (marked id visiting s) id (keys graph) (marked-Keeps s id visiting) i
              (rw e refl) (is_marked-marked s id visiting) in
          let (t, f, k) = finish-Returns id _ s (later (omega (arith, less, b))) in
          (t, rw (visit, e) f, k)

length-keep : (p : String → Bool) (ids : List String) → length (keep p ids) ≤ length ids
length-keep p [] = omega arith
length-keep p (id ∷ ids) = ground (arith, length-keep p ids)

includes-All :
    (P : String → Type 0) (all ids : List String)
    → ((id : String) → includes all id ≡ true → P id)
    → ((id : String) → includes ids id ≡ true → includes all id ≡ true)
    → All P ids
includes-All P all [] h k = tt
includes-All P all (id ∷ ids) h k = (
  h id (k id (ground (arith, eq_refl id))),
  includes-All P all ids h (λ j l. k j (ground (arith, l))),
)

pub dependency_cycles-IsReturned :
    (requirements : List Requirement) (ref : String)
    → (found : List Diagnostic) × (dependency_cycles requirements ref ≡ some found)
unfolding dependency_cycles
dependency_cycles-IsReturned requirements ref =
    let graph = graph_of requirements in
    let turns =
      sort-All compare_text
        (λ id.
          (s : Search)
          → unmarked s (keys graph) < suc (length (keys graph))
          → Returns (visit graph ref (suc (length (keys graph))) id [] s) s)
        (keys graph)
        (includes-All _ (keys graph) (keys graph)
          (λ id i s b. visit-Returns graph ref (suc (length (keys graph))) id [] i s b)
          (λ id i. i)) in
    let (s, e, _) =
      each-Returns (λ id. visit graph ref (suc (length (keys graph))) id [])
        (suc (length (keys graph))) (keys graph) (sort compare_text (keys graph)) turns start
        (omega (arith, length-keep (λ id. not (is_marked start id)) (keys graph))) in
    (s.found, rw e refl)
