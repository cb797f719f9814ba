-- ===== src/Contracts/Evidence.antt =====
-- kernel/contracts/src/contracts/evidence-record.ts: the staleness of A7.
-- `in_force_revision` is the caller's function of a kind and an identifier.
pub mod Freshness
pub mod Newest
use enistere_foundation.Base.{
  String, ℕ, Bool, true, false, List, [], ◌∷◌, Option, none, some, ltb, compare_text, ◌<>◌,
  if◌then◌else◌,
}
use enistere_foundation.Base.Dict.{get, put, keys}
use enistere_foundation.Base.Sorting.{sort}
use enistere_foundation.Contracts.Refs.{ContractKind, ContractRef, kind_text}
use enistere_foundation.Contracts.Types.Evidence.{EvidenceRecordSpec}

pub record Outdated : Type 0 where
  pub pinned : ContractRef
  pub current_revision : ℕ

pub record Staleness : Type 0 where
  pub stale : Bool
  pub outdated : List Outdated

-- The subject and the inputs.
abbrev pub checked : EvidenceRecordSpec → List ContractRef
checked spec = spec.subject.contract ∷ spec.inputs

-- `${input.kind}/${input.id}`
abbrev pub contract_key : ContractRef → String
contract_key r = kind_text r.kind <> "/" <> r.id

abbrev pub note_input :
    Option ContractRef → ContractRef → List (String × ContractRef) → List (String × ContractRef)
note_input none input newest = put newest (contract_key input) input
note_input (some known) input newest =
    if ltb known.revision input.revision then put newest (contract_key input) input else newest

unfoldable pub newest_from :
    List (String × ContractRef) → List ContractRef → List (String × ContractRef)
unfolding get put kind_text
newest_from newest [] = newest
newest_from newest (input ∷ inputs) =
    newest_from (note_input (get newest (contract_key input)) input newest) inputs

-- `current !== undefined && current > pinned.revision`
abbrev pub is_behind : ContractRef → Option ℕ → Bool
is_behind pinned none = false
is_behind pinned (some current) = ltb pinned.revision current

abbrev pub note_outdated : ContractRef → Option ℕ → List Outdated → List Outdated
note_outdated pinned none outdated = outdated
note_outdated pinned (some current) outdated =
    if ltb pinned.revision current
    then record { pinned = pinned; current_revision = current } ∷ outdated
    else outdated

abbrev pub has_outdated : List Outdated → Bool
has_outdated [] = false
has_outdated (o ∷ outdated) = true

module _ (in_force_revision : ContractKind → String → Option ℕ) where
  -- A key of `newest` has a reference.
  abbrev pub outdated_at : Option ContractRef → List Outdated → List Outdated
  outdated_at none outdated = outdated
  outdated_at (some pinned) outdated =
      note_outdated pinned (in_force_revision pinned.kind pinned.id) outdated

  unfoldable pub outdated_of : List (String × ContractRef) → List String → List Outdated
  unfolding get
  outdated_of newest [] = []
  outdated_of newest (key ∷ ks) = outdated_at (get newest key) (outdated_of newest ks)

  unfoldable pub evidence_staleness : EvidenceRecordSpec → Staleness
  unfolding newest_from outdated_of sort compare_text
  evidence_staleness spec =
      let newest = newest_from [] (checked spec) in
      let outdated = outdated_of newest (sort compare_text (keys newest)) in
      record { stale = has_outdated outdated; outdated = outdated }
