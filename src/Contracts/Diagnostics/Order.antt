-- ===== src/Contracts/Diagnostics/Order.antt =====
-- What `sort_diagnostics` keeps and drops.
use mathlib.Core.List.{Mem, Nodup, Nodup-cons, Nodup-nil}
use mathlib.Core.List.Perm
use enistere_foundation.Base.{
  String, true, false, ◌||◌, List, [], ◌∷◌, includes, map, ◌≡◌, ◌↔◌, refl, arith, eq_iff,
  Bool-cases, inl, inr,
}
use enistere_foundation.Base.{eq_refl}
use enistere_foundation.Base.Text.Sets.{includes_iff}
use enistere_foundation.Base.Sorting.Order.{
  compare_text-IsOrder, by-IsOrder, or_by-IsOrder, IsOrder, IsSorted, sort-IsSorted, sort-perm,
}
use enistere_foundation.Contracts.Diagnostics.{
  Diagnostic, key, unique_from, compare_diagnostics, sort_diagnostics,
}

compare_diagnostics-IsOrder : IsOrder compare_diagnostics
compare_diagnostics-IsOrder = or_by-IsOrder (by-IsOrder _ compare_text-IsOrder) (
    or_by-IsOrder (by-IsOrder _ compare_text-IsOrder)
      (or_by-IsOrder (by-IsOrder _ compare_text-IsOrder) (by-IsOrder _ compare_text-IsOrder)))

abbrev pub keys : List Diagnostic → List String
keys = map key

-- What the loop has seen, and what it keeps, are the keys that it was given.
includes-unique_from :
    (k : String) (seen : List String) (ds : List Diagnostic)
    → (includes seen k || includes (keys (unique_from seen ds)) k)
      ≡ (includes seen k || includes (keys ds) k)
unfolding unique_from
includes-unique_from k seen [] = refl
includes-unique_from k seen (d ∷ ds) = ground (
  arith,
  includes-unique_from k seen ds,
  includes-unique_from k (key d ∷ seen) ds,
  eq_iff (key d) k,
)

not-mem_unique_from :
    (k : String) (seen : List String) (ds : List Diagnostic)
    → includes seen k ≡ true
    → includes (keys (unique_from seen ds)) k ≡ false
unfolding unique_from
not-mem_unique_from k seen [] h = refl
not-mem_unique_from k seen (d ∷ ds) h = ground (
  arith,
  not-mem_unique_from k seen ds,
  not-mem_unique_from k (key d ∷ seen) ds,
  eq_iff (key d) k,
)

not-mem_of : (ts : List String) (t : String) → includes ts t ≡ false → ¬ Mem t ts
not-mem_of ts t h m = cc ((includes_iff ts t).1 m)

unique_from-Nodup : (seen : List String) (ds : List Diagnostic) → Nodup (keys (unique_from seen ds))
unfolding unique_from
unique_from-Nodup seen [] = Nodup-nil
unique_from-Nodup seen (d ∷ ds) = elim (Bool-cases (includes seen (key d))) [
  | inl old ↦ rw old (unique_from-Nodup seen ds)
  | inr new ↦ rw new (
      Nodup-cons.1 (
        not-mem_of _ (key d)
            (not-mem_unique_from (key d) (key d ∷ seen) ds (ground (arith, eq_refl (key d)))),
        unique_from-Nodup (key d ∷ seen) ds,
      ))
]

mem-unique_from_iff :
    (k : String) (ds : List Diagnostic) → Mem k (keys (unique_from [] ds)) ↔ Mem k (keys ds)
mem-unique_from_iff k ds =
    let e : includes (keys (unique_from [] ds)) k ≡ includes (keys ds) k =
      includes-unique_from k [] ds in
    (
      (λ m. (includes_iff _ k).0 (cc (e, (includes_iff _ k).1 m))),
      (λ m. (includes_iff _ k).0 (cc (e, (includes_iff _ k).1 m))),
    )

-- The diagnostics that `sort_diagnostics` returns are in the order of reference, path, code and
-- message; no two of them have the same key; and they have exactly the keys of the items.
pub sort_diagnostics_lem :
    (items : List Diagnostic)
    → IsSorted compare_diagnostics (sort_diagnostics items)
      × Nodup (keys (sort_diagnostics items))
      × ((k : String) → Mem k (keys (sort_diagnostics items)) ↔ Mem k (keys items))
unfolding sort_diagnostics
sort_diagnostics_lem items =
    let moved = Perm.map key (sort-perm compare_diagnostics (unique_from [] items)) in
    (
      sort-IsSorted compare_diagnostics-IsOrder (unique_from [] items),
      Perm.nodup (Perm.symm moved) (unique_from-Nodup [] items),
      λ k. (
        (λ m. (mem-unique_from_iff k items).0 ((Perm.mem_iff moved).0 m)),
        (λ m. (Perm.mem_iff moved).1 ((mem-unique_from_iff k items).1 m)),
      ),
    )
