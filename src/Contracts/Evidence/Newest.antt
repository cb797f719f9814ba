-- ===== src/Contracts/Evidence/Newest.antt =====
-- The map of the newest references of kernel/contracts/src/contracts/evidence-record.ts.
use Prim.Native.Nat.{◌≤◌}
use mathlib.Core.List.{Mem, mem-cons, mem-cons_of_mem}
use mathlib.Core.Logic.Or
use enistere_foundation.Base.{
  String, ℕ, true, false, List, [], ◌∷◌, Option, none, some, ltb, ◌≡◌, refl, sym, ap, ◌∙◌, All, ◌⊎◌,
  arith, eq_iff, Bool-cases, Option-cases, inl, inr, ◌==◌,
}
use enistere_foundation.Base.Dict.{get, put, get-put}
use enistere_foundation.Contracts.Evidence.{contract_key, note_input, newest_from}
use enistere_foundation.Contracts.Refs.{ContractRef}

-- The map holds, under the key, a reference of that contract that is at least as new.
abbrev pub HasNewer : List (String × ContractRef) → String → ℕ → Type 0
HasNewer newest key revision =
    (p : ContractRef) × (get newest key ≡ some p) × (contract_key p ≡ key) × (revision ≤ p.revision)

put-HasNewer :
    (newest : List (String × ContractRef)) (input : ContractRef) (key : String) (revision : ℕ)
    → ((contract_key input == key) ≡ true → revision ≤ input.revision)
    → ((contract_key input == key) ≡ false → HasNewer newest key revision)
    → HasNewer (put newest (contract_key input) input) key revision
put-HasNewer newest input key revision new old = elim (Bool-cases (contract_key input == key)) [
  | inl here ↦ (
    input,
    get-put newest (contract_key input) key input ∙ rw here refl,
    (eq_iff (contract_key input) key).0 here,
    new here,
  )
  | inr away ↦
      let (p, found, same, le) = old away in
      (p, get-put newest (contract_key input) key input ∙ rw away found, same, le)
]

abbrev AreKeyed : List (String × ContractRef) → Type 0
AreKeyed newest = (key : String) (p : ContractRef) → get newest key ≡ some p → contract_key p ≡ key

put-AreKeyed :
    (newest : List (String × ContractRef)) (input : ContractRef)
    → AreKeyed newest
    → AreKeyed (put newest (contract_key input) input)
put-AreKeyed newest input keyed key p found = elim (Bool-cases (contract_key input == key)) [
  | inl here ↦
      let at : get (put newest (contract_key input) input) key ≡ some input =
        get-put newest (contract_key input) key input ∙ rw here refl in
      let same : contract_key input ≡ key = (eq_iff (contract_key input) key).0 here in cc
  | inr away ↦
      keyed key p (sym (get-put newest (contract_key input) key input ∙ rw away refl) ∙ found)
]

put-from :
    (newest : List (String × ContractRef)) (input : ContractRef) (key : String) (p : ContractRef)
    → get (put newest (contract_key input) input) key ≡ some p
    → (get newest key ≡ some p) ⊎ (p ≡ input)
put-from newest input key p h = elim (Bool-cases (contract_key input == key)) [
  | inl here ↦
      let at : get (put newest (contract_key input) input) key ≡ some input =
        get-put newest (contract_key input) key input ∙ rw here refl in
      inr (cc)
  | inr away ↦ inl (sym (get-put newest (contract_key input) key input ∙ rw away refl) ∙ h)
]

note_input-AreKeyed :
    (newest : List (String × ContractRef)) (known : Option ContractRef) (input : ContractRef)
    → AreKeyed newest
    → AreKeyed (note_input known input newest)
note_input-AreKeyed newest none input keyed = put-AreKeyed newest input keyed
note_input-AreKeyed newest (some known) input keyed =
    elim (Bool-cases (ltb known.revision input.revision)) [
      | inl newer ↦ rw newer (put-AreKeyed newest input keyed)
      | inr older ↦ rw older keyed
    ]

-- An input that is noted takes nothing back.
note_input-HasNewer :
    (newest : List (String × ContractRef)) (input : ContractRef) (key : String) (revision : ℕ)
    → HasNewer newest key revision
    → HasNewer (note_input (get newest (contract_key input)) input newest) key revision
note_input-HasNewer newest input key revision (p, found, same, le) =
    elim (Option-cases (get newest (contract_key input))) [
      | inl unknown ↦ rw unknown (
          put-HasNewer newest input key revision
            (λ here.
              let at : contract_key input ≡ key = (eq_iff (contract_key input) key).0 here in
              absurd (cc (ap (get newest) at)))
            (λ away. (p, found, same, le)))
      | inr (known, e) ↦ elim (Bool-cases (ltb known.revision input.revision)) [
        | inl newer ↦
            rw (e, newer)
              (put-HasNewer newest input key revision
                (λ here.
                  let at : contract_key input ≡ key = (eq_iff (contract_key input) key).0 here in
                  let eq : some known ≡ some p = sym e ∙ ap (get newest) at ∙ found in
                  let one : known.revision ≡ p.revision = cc in ground (arith, le, newer, one))
                (λ away. (p, found, same, le)))
        | inr older ↦ rw (e, older) (p, found, same, le)
      ]
    ]

note_input_noted :
    (newest : List (String × ContractRef)) (input : ContractRef)
    → AreKeyed newest
    → HasNewer
        (note_input (get newest (contract_key input)) input newest)
        (contract_key input)
        input.revision
note_input_noted newest input keyed =
    let here = (eq_iff (contract_key input) (contract_key input)).1 refl in
    let put_here =
      put-HasNewer newest input (contract_key input) input.revision (λ h. omega arith)
        (λ h. absurd (cc)) in
    elim (Option-cases (get newest (contract_key input))) [
      | inl unknown ↦ rw unknown put_here
      | inr (known, e) ↦ elim (Bool-cases (ltb known.revision input.revision)) [
        | inl newer ↦ rw (e, newer) put_here
        | inr older ↦
            rw (e, older) (known, e, keyed (contract_key input) known e, ground (arith, older))
      ]
    ]

newest_from-HasNewer :
    (newest : List (String × ContractRef)) (inputs : List ContractRef) (key : String) (revision : ℕ)
    → HasNewer newest key revision
    → HasNewer (newest_from newest inputs) key revision
unfolding newest_from
newest_from-HasNewer newest [] key revision h = h
newest_from-HasNewer newest (input ∷ inputs) key revision h =
    newest_from-HasNewer (note_input (get newest (contract_key input)) input newest) inputs key
      revision (note_input-HasNewer newest input key revision h)

pub newest_from_noted :
    (newest : List (String × ContractRef)) (inputs : List ContractRef)
    → AreKeyed newest
    → All
        (λ (i : ContractRef). HasNewer (newest_from newest inputs) (contract_key i) i.revision)
        inputs
unfolding newest_from
newest_from_noted newest [] keyed = tt
newest_from_noted newest (input ∷ inputs) keyed = (
  newest_from-HasNewer _ inputs (contract_key input) input.revision
      (note_input_noted newest input keyed),
  newest_from_noted (note_input (get newest (contract_key input)) input newest) inputs
      (note_input-AreKeyed newest (get newest (contract_key input)) input keyed),
)

-- What the map holds it held before, or it is the input.
note_input-from :
    (newest : List (String × ContractRef)) (known : Option ContractRef) (input : ContractRef)
    (key : String) (p : ContractRef)
    → get (note_input known input newest) key ≡ some p
    → (get newest key ≡ some p) ⊎ (p ≡ input)
note_input-from newest none input key p h = put-from newest input key p h
note_input-from newest (some known) input key p h =
    elim (Bool-cases (ltb known.revision input.revision)) [
      | inl newer ↦ put-from newest input key p (rw newer at h)
      | inr older ↦ inl (rw older at h)
    ]

-- Every reference of the map was there at first or is among the inputs.
newest_from-Mem :
    (newest : List (String × ContractRef)) (inputs : List ContractRef) (key : String)
    (p : ContractRef)
    → get (newest_from newest inputs) key ≡ some p
    → (get newest key ≡ some p) ⊎ Mem p inputs
unfolding newest_from
newest_from-Mem newest [] key p h = inl h
newest_from-Mem newest (input ∷ inputs) key p h =
    let known = get newest (contract_key input) in
    elim (newest_from-Mem (note_input known input newest) inputs key p h) [
      | inr later ↦ inr (mem-cons_of_mem input later)
      | inl noted ↦ elim (note_input-from newest known input key p noted) [
        | inl old ↦ inl old
        | inr here ↦ inr (mem-cons.1 (Or.inl here))
      ]
    ]

pub empty-AreKeyed : AreKeyed []
unfolding get
empty-AreKeyed key p found = cc

pub newest-Mem :
    (inputs : List ContractRef) (key : String) (p : ContractRef)
    → get (newest_from [] inputs) key ≡ some p
    → Mem p inputs
unfolding get
newest-Mem inputs key p found = elim (newest_from-Mem [] inputs key p found) [
  | inl old ↦ cc
  | inr there ↦ there
]
