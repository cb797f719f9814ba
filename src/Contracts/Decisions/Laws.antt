-- ===== src/Contracts/Decisions/Laws.antt =====
-- Which decision sets the rules of A2 accept.
use Prim.Native.Nat.{◌≤◌}
use enistere_foundation.Base.{
  String, Bool, true, false, ◌&&◌, List, Option, none, some, length, includes, is_some, ◌≡◌, ◌≢◌,
}
use enistere_foundation.Base.Text.Sets.{all_distinct}
use enistere_foundation.Contracts.Decisions.{option_ids, is_accepted, is_proposed, is_accepted_set}
use enistere_foundation.Contracts.Types.Common.{Status}
use enistere_foundation.Contracts.Types.Decisions.{Decision}

-- The chosen option was evaluated.
abbrev pub IsEvaluated : Option String → List String → Type 0
IsEvaluated none options = Unit
IsEvaluated (some chosen) options = includes options chosen ≡ true

-- The superseded decision is another one of the set.
abbrev pub IsOther : Option String → List String → String → Type 0
IsOther none decisions id = Unit
IsOther (some superseded) decisions id = (includes decisions superseded ≡ true) × (superseded ≢ id)

-- An accepted decision says what was chosen and why, among at least two options.
abbrev pub IsComplete : Bool → Decision → Type 0
IsComplete false d = Unit
IsComplete true d =
    (is_some d.chosen_option ≡ true) × (is_some d.rationale ≡ true) × (2 ≤ length d.options)

pub record IsSoundDecision (status : Status) (decisions : List String) (d : Decision) : Type 0 where
  pub distinct : all_distinct (option_ids d.options) ≡ true
  pub evaluated : IsEvaluated d.chosen_option (option_ids d.options)
  pub complete : IsComplete (is_accepted d.status) d
  pub other : IsOther d.supersedes decisions d.id
  pub decided : (is_accepted_set status && is_proposed d.status) ≡ false
