-- ===== src/Contracts/Tests/Checked.antt =====
-- The staleness of an evidence record that checked two revisions of a contract.
use enistere_foundation.Base.{String, ℕ, true, false, [], ◌∷◌, Option, none, some, All, ◌≡◌, refl}
use enistere_foundation.Contracts.Evidence.{checked, evidence_staleness}
use enistere_foundation.Contracts.Evidence.Freshness.{IsDescribed, evidence_staleness-IsDescribed}
use enistere_foundation.Contracts.Refs.{
  ContractKind, plain_ref, system_definition, requirement_baseline,
}
use enistere_foundation.Contracts.Types.Common.{ActorType}
use enistere_foundation.Contracts.Types.Evidence.{CheckerMode, EvidenceResult, EvidenceRecordSpec}

-- The subject's older revision and a baseline among the inputs.
abbrev record_of_two : EvidenceRecordSpec
record_of_two = record {
  system = "shop";
  subject = record { contract = plain_ref system_definition "shop" 2; component = none };
  obligation = record {
    id = "o1";
    statement = "compiles";
    source = plain_ref requirement_baseline "shop" 1;
  };
  checker = record { id = "tsc"; version = "1"; mode = CheckerMode.automated };
  produced_by = record { type = ActorType.human; id = "ana"; role = none };
  environment = record { id = "ci"; kind = "linux"; attributes = none };
  result = EvidenceResult.pass;
  summary = none;
  observed_at = "2026-01-01T00:00:00Z";
  expires_at = none;
  inputs = plain_ref system_definition "shop" 1 ∷ plain_ref requirement_baseline "shop" 1 ∷ [];
  artifacts = [];
  waiver = none;
  invalidation = none;
}

abbrev in_force : ℕ → ContractKind → String → Option ℕ
in_force revision system_definition id = some revision
in_force revision _ id = none

record_fresh : (evidence_staleness (in_force 2) record_of_two).stale ≡ false
unfolding evidence_staleness
record_fresh = refl

record_stale : evidence_staleness (in_force 3) record_of_two ≡ record {
  stale = true;
  outdated = record { pinned = plain_ref system_definition "shop" 2; current_revision = 3 } ∷ [];
}
unfolding evidence_staleness
record_stale = refl

evidence_staleness-IsDescribed_example :
    All (IsDescribed (in_force 2) (checked record_of_two)) (checked record_of_two)
evidence_staleness-IsDescribed_example =
    evidence_staleness-IsDescribed (in_force 2) record_of_two record_fresh
