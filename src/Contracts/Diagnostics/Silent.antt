-- ===== src/Contracts/Diagnostics/Silent.antt =====
-- Diagnostics that are all errors, sorted: there is an error unless there was nothing.
use enistere_foundation.Base.{
  String, true, false, List, [], ◌∷◌, includes, ◌≡◌, refl, All, arith, Bool-cases, inl, inr,
}
use enistere_foundation.Base.Sorting.{sort, insert}
use enistere_foundation.Base.Sorting.Order.{sort-All}
use enistere_foundation.Contracts.Diagnostics.{
  Diagnostic, is_error, has_errors, sort_diagnostics, unique_from, key, compare_diagnostics,
}

abbrev pub IsError : Diagnostic → Type 0
IsError d = is_error d ≡ true

unique_from-All :
    (seen : List String) (ds : List Diagnostic) → All IsError ds → All IsError (unique_from seen ds)
unfolding unique_from
unique_from-All seen [] h = tt
unique_from-All seen (d ∷ ds) (e, h) = elim (Bool-cases (includes seen (key d))) [
  | inl known ↦ rw known (unique_from-All seen ds h)
  | inr new ↦ rw new (e, unique_from-All (key d ∷ seen) ds h)
]

has_errors-of_All : (ds : List Diagnostic) → All IsError ds → has_errors ds ≡ false → ds ≡ []
has_errors-of_All [] h e = refl
has_errors-of_All (d ∷ ds) (p, h) e = ground (arith, p, e)

sort-nil : (ds : List Diagnostic) → sort compare_diagnostics ds ≡ [] → ds ≡ []
unfolding sort
sort-nil [] h = refl
sort-nil (d ∷ ds) h = absurd (never d (sort compare_diagnostics ds) h)
  where
    never : (d : Diagnostic) (ds : List Diagnostic) → insert compare_diagnostics d ds ≡ [] → ⊥
    never d [] h = cc
    never d (x ∷ xs) h = ground arith

-- Sorting reports no error only if there was nothing to report.
pub sort_diagnostics-nil :
    (ds : List Diagnostic) → All IsError ds → has_errors (sort_diagnostics ds) ≡ false → ds ≡ []
unfolding sort_diagnostics
sort_diagnostics-nil ds h e = unique_nil ds (
    sort-nil (unique_from [] ds)
      (has_errors-of_All _ (sort-All compare_diagnostics IsError _ (unique_from-All [] ds h)) e))
  where
    unique_nil : (ds : List Diagnostic) → unique_from [] ds ≡ [] → ds ≡ []
    unique_nil [] h = refl
    unique_nil (d ∷ ds) h = cc
