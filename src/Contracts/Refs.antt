-- ===== src/Contracts/Refs.antt =====
-- kernel/contracts/src/primitives/refs.ts: stable references to one revision of a contract.
pub mod Parse
use Prim.Native.Char.{code}
use mathlib.Core.Option
use enistere_foundation.Base.{
  String, ℕ, Bool, ◌||◌, Option, none, some, eqb, ◌<>◌, ◌==◌, decimal, if◌then◌else◌,
}

pub data ContractKind : Type 0 where
  requirement_baseline decision_set effective_organization_context system_definition : ContractKind
  domain_contract change_request evidence_record materialization_record design_system : ContractKind

-- A digest is the text `sha256:…`.
abbrev pub Digest : Type 0
Digest = String

pub record ContractRef : Type 0 where
  pub kind : ContractKind
  pub id : String
  pub revision : ℕ
  pub digest : Option Digest
  pub item : Option String

-- The text of a kind, as `CONTRACT_KINDS` spells it.
unfoldable pub kind_text : ContractKind → String
kind_text requirement_baseline = "RequirementBaseline"
kind_text decision_set = "DecisionSet"
kind_text effective_organization_context = "EffectiveOrganizationContext"
kind_text system_definition = "SystemDefinition"
kind_text domain_contract = "DomainContract"
kind_text change_request = "ChangeRequest"
kind_text evidence_record = "EvidenceRecord"
kind_text materialization_record = "MaterializationRecord"
kind_text design_system = "DesignSystem"

-- `a.kind === b.kind`
abbrev pub same_kind : ContractKind → ContractKind → Bool
same_kind a b = kind_text a == kind_text b

-- `${kind}/${id}@${revision}`
unfoldable pub ref_key : ContractKind → String → ℕ → String
unfolding kind_text decimal
ref_key kind id revision = kind_text kind <> "/" <> id <> "@" <> decimal revision

-- `ref.item` is falsy when it is absent or empty.
abbrev pub with_item : String → Option String → String
with_item key none = key
with_item key (some item) = if item == "" then key else key <> "#" <> item

unfoldable pub format_ref : ContractRef → String
unfolding ref_key
format_ref ref = with_item (ref_key ref.kind ref.id ref.revision) ref.item

-- `{ kind, id, revision }`, with neither digest nor item.
abbrev pub plain_ref : ContractKind → String → ℕ → ContractRef
plain_ref kind id revision = record {
  kind = kind;
  id = id;
  revision = revision;
  digest = none;
  item = none;
}

-- The text before the first of a character, and the text after it.
unfoldable pub split_at : ℕ → String → Option (String × String)
split_at mark String.[] = none
split_at mark (String.◌∷◌ c s) =
    let rest = Option.map (λ (p : String × String). (String.◌∷◌ c p.0, p.1)) (split_at mark s) in
    if eqb (code c) mark then some ("", s) else rest

-- `index <= 0 || index === text.length - 1`
abbrev pub both_filled : Option (String × String) → Option (String × String)
both_filled none = none
both_filled (some (contract, item)) =
    if contract == "" || item == "" then none else some (contract, item)

unfoldable pub parse_domain_item_ref : String → Option (String × String)
unfolding split_at
parse_domain_item_ref text = both_filled (split_at b'#' text)
