-- ===== src/Contracts/Checks/Laws.antt =====
-- What the shared checks accept.
use enistere_foundation.Base.{
  String, ℕ, suc, true, false, List, [], ◌∷◌, includes, flat_map_from, ◌≡◌, ◌↔◌, refl, All, arith,
  Option-cases, inl, inr,
}
use enistere_foundation.Base.Dict.{get, put, has}
use enistere_foundation.Base.Dict.Fresh.{All-put, All-none}
use enistere_foundation.Base.Text.Sets.{all_distinct}
use enistere_foundation.Contracts.Authority.Laws.{both_iff}
use enistere_foundation.Contracts.Checks.{unique_loop, unique_ids, known_ids, unknown_id}
use enistere_foundation.Contracts.Diagnostics.{Diagnostic, DiagnosticCode}

unique_loop_iff :
    (seen : List (String × ℕ)) (index : ℕ) (path ref : String) (ids : List String)
    → (unique_loop seen index path ref ids ≡ [])
      ↔ ((all_distinct ids ≡ true) × All (λ id. has seen id ≡ false) ids)
unfolding unique_loop
unique_loop_iff seen index path ref [] = ((λ h. (refl, tt)), λ h. refl)
unique_loop_iff seen index path ref (id ∷ ids) = elim (Option-cases (get seen id)) [
  | inr (first, known) ↦ rw known ((λ h. cc), λ h. absurd (cc (h.1.0)))
  | inl new ↦
      let (to, from) = unique_loop_iff (put seen id index) (suc index) path ref ids in
      let (split, join) = All-put seen id index ids in
      rw new (
        (λ h.
            let (others, fresh) = to h in
            let (away, old) = split fresh in (ground (arith, others, away), (refl, old))),
        λ h. from (ground (arith, h.0), join (ground (arith, h.0), h.1.1)),
      )
]

-- `uniqueIds` reports nothing exactly when no identifier occurs twice.
pub unique_ids_iff :
    (ids : List String) (path ref : String)
    → (unique_ids ids path ref ≡ []) ↔ (all_distinct ids ≡ true)
unfolding unique_ids
unique_ids_iff ids path ref =
    let (to, from) = unique_loop_iff [] 0 path ref ids in
    ((λ h. (to h).0), λ h. from (h, All-none ℕ ids))

-- The reports of a loop are none exactly when each turn reports nothing.
pub flat_map_from_iff {ℓ} :
    {A : Type ℓ} (P : A → Type 0) (f : ℕ → A → List Diagnostic) (i : ℕ) (xs : List A)
    → ((j : ℕ) (x : A) → (f j x ≡ []) ↔ P x)
    → (flat_map_from i f xs ≡ []) ↔ All P xs
flat_map_from_iff P f i [] h = ((λ e. tt), λ a. refl)
flat_map_from_iff P f i (x ∷ xs) h =
    both_iff (f i x) (flat_map_from (suc i) f xs) (h i x) (flat_map_from_iff P f (suc i) xs h)

unknown_id_iff :
    (known : List String) (path ref : String) (code : DiagnosticCode) (label : String) (i : ℕ)
    (v : String)
    → (unknown_id known path ref code label i v ≡ []) ↔ (includes known v ≡ true)
unknown_id_iff known path ref code label i v = ((λ h. ground arith), λ h. ground (arith, h))

-- `knownIds` reports nothing exactly when every identifier is known.
pub known_ids_iff :
    (values known : List String) (path ref : String) (code : DiagnosticCode) (label : String)
    → (known_ids values known path ref code label ≡ []) ↔ All (λ v. includes known v ≡ true) values
unfolding known_ids
known_ids_iff values known path ref code label =
    flat_map_from_iff (λ v. includes known v ≡ true) (unknown_id known path ref code label) 0 values
      (λ i v. unknown_id_iff known path ref code label i v)
