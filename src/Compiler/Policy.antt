-- ===== src/Compiler/Policy.antt =====
-- kernel/compiler/src/policy.ts: what an evaluation of the organization's rules reports, and which
-- waivers have expired. `date_parse` is the host's `Date.parse`, none for NaN; instants are kept in
-- their order only.
pub mod Backed
pub mod Blocking
pub mod Catalog
pub mod Evaluate
use enistere_foundation.Contracts.Refs.{Digest}
use enistere_foundation.Base.{
  String, ℕ, Bool, true, false, ◌&&◌, List, Option, none, some, keep, ltb,
}
use enistere_foundation.Contracts.Json.{Json}

pub data PolicyOutcome : Type 0 where
  satisfied waived violated not_applicable not_evaluated : PolicyOutcome

pub record EvaluationWaiver : Type 0 where
  pub id : String
  pub expires_at : String

pub record PolicyEvaluation : Type 0 where
  pub rule : String
  pub category : String
  pub subject : Option String
  pub outcome : PolicyOutcome
  pub expected : Json
  pub actual : Json
  pub waiver : Option EvaluationWaiver
  pub reason : Option String

pub record PolicyReport : Type 0 where
  pub context : String
  pub evaluations : List PolicyEvaluation
  pub digest : Digest

-- A comparison with NaN is false.
abbrev pub is_before : Option ℕ → Option ℕ → Bool
is_before none b = false
is_before (some a) none = false
is_before (some a) (some b) = ltb a b

abbrev pub is_waived : PolicyOutcome → Bool
is_waived waived = true
is_waived _ = false

module _ (date_parse : String → Option ℕ) where
  abbrev pub expires_before : String → Option EvaluationWaiver → Bool
  expires_before at none = false
  expires_before at (some w) = is_before (date_parse w.expires_at) (date_parse at)

  -- Of a report that there is.
  unfoldable pub expired_waivers : List PolicyEvaluation → String → List PolicyEvaluation
  expired_waivers evaluations at =
      keep (λ (e : PolicyEvaluation). is_waived e.outcome && expires_before at e.waiver) evaluations
