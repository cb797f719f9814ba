-- ===== src/Contracts/Refs/Parse.antt =====
-- kernel/contracts/src/primitives/refs.ts: the parse of a reference, and its round trip.
-- A revision is a natural number: `Number` reads it exactly below 2^53.
pub mod RoundTrip
use enistere_foundation.Base.{
  String, ℕ, Bool, ◌&&◌, List, [], ◌∷◌, Option, none, some, ◌>>=◌, find, ◌==◌, if◌then◌else◌,
}
use enistere_foundation.Base.Patterns.{is_digit, is_identifier, is_item}
use enistere_foundation.Base.Text.Decimal.{every, leads, read_digits}
use enistere_foundation.Contracts.Refs.{
  ContractKind, requirement_baseline, decision_set, effective_organization_context,
  system_definition, domain_contract, change_request, evidence_record, materialization_record,
  design_system, ContractRef, kind_text, split_at,
}

abbrev pub contract_kinds : List ContractKind
contract_kinds =
    requirement_baseline ∷ decision_set ∷ effective_organization_context ∷ system_definition
    ∷ domain_contract ∷ change_request ∷ evidence_record ∷ materialization_record ∷ design_system
    ∷ []

-- `isContractKind(kind)`; each kind consists of letters, as the pattern asks.
abbrev pub kind_named : String → Option ContractKind
kind_named t = find (λ kind. kind_text kind == t) contract_kinds

-- `[1-9][0-9]*`
abbrev pub is_revision : String → Bool
is_revision s = leads s && every is_digit s

abbrev pub referred : ContractKind → String → String → Option String → ContractRef
referred kind id revision item = record {
  kind = kind;
  id = id;
  revision = read_digits 0 revision;
  digest = none;
  item = item;
}

-- `@([1-9][0-9]*)(?:#(…))?$`, what follows the `@` split at its first `#`.
abbrev pub parse_revision :
    ContractKind → String → String → Option (String × String) → Option ContractRef
parse_revision kind id text none =
    if is_revision text then some (referred kind id text none) else none
parse_revision kind id text (some (revision, item)) =
    if is_revision revision && is_item item
    then some (referred kind id revision (some item))
    else none

abbrev pub parse_identity : ContractKind → String × String → Option ContractRef
parse_identity kind (id, text) =
    if is_identifier id then parse_revision kind id text (split_at b'#' text) else none

-- No class of the pattern has its separators `/`, `@` and `#`.
unfoldable pub parse_ref : String → Option ContractRef
unfolding kind_text split_at is_identifier is_item read_digits
parse_ref text = do
  (kind_part, rest) ← split_at b'/' text
  kind ← kind_named kind_part
  parts ← split_at b'@' rest
  parse_identity kind parts
