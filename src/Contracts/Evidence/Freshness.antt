-- ===== src/Contracts/Evidence/Freshness.antt =====
-- Evidence that is not stale describes what is in force.
use Prim.Native.Nat.{◌≤◌}
use mathlib.Core.List.{Mem}
use enistere_foundation.Base.{
  String, ℕ, Bool, true, false, ◌||◌, List, [], ◌∷◌, Option, none, some, includes, is_some, any,
  compare_text, ◌≡◌, refl, sym, ap, ◌∙◌, All, arith, eq_iff, Bool-cases, inl, inr, ◌==◌,
}
use enistere_foundation.Base.Dict.{get, keys, has-keys}
use enistere_foundation.Base.Sorting.{sort}
use enistere_foundation.Base.Sorting.Order.{any-sort}
use enistere_foundation.Contracts.Evidence.{
  Outdated, checked, contract_key, newest_from, is_behind, note_outdated, has_outdated, outdated_at,
  outdated_of, evidence_staleness,
}
use enistere_foundation.Contracts.Refs.{ContractKind, ContractRef}
use enistere_foundation.Contracts.Types.Evidence.{EvidenceRecordSpec}
use enistere_foundation.Contracts.Evidence.Newest.{
  HasNewer, newest_from_noted, empty-AreKeyed, newest-Mem,
}

any-false :
    (p : String → Bool) (ks : List String) (k : String)
    → any p ks ≡ false
    → includes ks k ≡ true
    → p k ≡ false
any-false p [] k none_of h = cc
any-false p (j ∷ ks) k none_of h = elim (Bool-cases (j == k)) [
  | inl here ↦ let at : j ≡ k = (eq_iff j k).0 here in ap p (sym at) ∙ ground (arith, none_of)
  | inr away ↦ any-false p ks k (ground (arith, none_of)) (ground (arith, h, away))
]

module _ (in_force_revision : ContractKind → String → Option ℕ) where
  -- No newer revision of the contract is in force.
  abbrev pub IsCurrent : ContractRef → Type 0
  IsCurrent p = is_behind p (in_force_revision p.kind p.id) ≡ false

  abbrev behind_at : Option ContractRef → Bool
  behind_at none = false
  behind_at (some p) = is_behind p (in_force_revision p.kind p.id)

  note_outdated_lem :
      (p : ContractRef) (current : Option ℕ) (outdated : List Outdated)
      → has_outdated (note_outdated p current outdated)
        ≡ (is_behind p current || has_outdated outdated)
  note_outdated_lem p none outdated = refl
  note_outdated_lem p (some current) outdated = ground arith

  outdated_at_lem :
      (pinned : Option ContractRef) (outdated : List Outdated)
      → has_outdated (outdated_at in_force_revision pinned outdated)
        ≡ (behind_at pinned || has_outdated outdated)
  outdated_at_lem none outdated = refl
  outdated_at_lem (some p) outdated = note_outdated_lem p (in_force_revision p.kind p.id) outdated

  outdated_of_lem :
      (newest : List (String × ContractRef)) (ks : List String)
      → has_outdated (outdated_of in_force_revision newest ks)
        ≡ any (λ k. behind_at (get newest k)) ks
  unfolding outdated_of
  outdated_of_lem newest [] = refl
  outdated_of_lem newest (k ∷ ks) =
      outdated_at_lem (get newest k) (outdated_of in_force_revision newest ks)
      ∙ ap (λ b. behind_at (get newest k) || b) (outdated_of_lem newest ks)

  -- One of the references is of the same contract, as new at least, and current.
  abbrev pub IsDescribed : List ContractRef → ContractRef → Type 0
  IsDescribed among i =
      (p : ContractRef) × Mem p among
      × (contract_key p ≡ contract_key i)
      × (i.revision ≤ p.revision)
      × IsCurrent p

  describe :
      (among : List ContractRef) (newest : List (String × ContractRef)) (inputs : List ContractRef)
      → ((key : String) (p : ContractRef) → get newest key ≡ some p → Mem p among)
      → any (λ k. behind_at (get newest k)) (keys newest) ≡ false
      → All (λ (i : ContractRef). HasNewer newest (contract_key i) i.revision) inputs
      → All (IsDescribed among) inputs
  describe among newest [] member current h = tt
  describe among newest (i ∷ inputs) member current ((p, found, same, le), h) =
      let listed : includes (keys newest) (contract_key i) ≡ true =
        sym (has-keys newest (contract_key i)) ∙ ap is_some found in
      let at =
        any-false (λ k. behind_at (get newest k)) (keys newest) (contract_key i) current listed in
      (
        (p, member (contract_key i) p found, same, le, ap behind_at (sym found) ∙ at),
        describe among newest inputs member current h,
      )

  -- When an evidence record is not stale, there is for each reference that it checked, its
  -- subject and its inputs, a reference among them of the same kind and identifier that is as
  -- new at least and of which no newer revision is in force.
  pub evidence_staleness-IsDescribed :
      (spec : EvidenceRecordSpec)
      → (evidence_staleness in_force_revision spec).stale ≡ false
      → All (IsDescribed (checked spec)) (checked spec)
  unfolding evidence_staleness
  evidence_staleness-IsDescribed spec fresh =
      let newest = newest_from [] (checked spec) in
      let lem =
        outdated_of_lem newest (sort compare_text (keys newest))
        ∙ any-sort compare_text (λ k. behind_at (get newest k)) (keys newest) in
      describe (checked spec) newest (checked spec) (newest-Mem (checked spec)) (sym lem ∙ fresh)
        (newest_from_noted [] (checked spec) empty-AreKeyed)
