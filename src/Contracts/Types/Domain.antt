-- ===== src/Contracts/Types/Domain.antt =====
-- kernel/contracts/src/types.ts: A5 Domain Contract.
use enistere_foundation.Base.{String, ℕ, List, Option, Bool}
use enistere_foundation.Contracts.Refs.{ContractRef}
use enistere_foundation.Contracts.Json.{Json}

pub data DomainTypeKind : Type 0 where
  entity value enum : DomainTypeKind

pub record Field : Type 0 where
  pub name : String
  pub type : String
  pub required : Bool
  pub sensitive : Option Bool
  pub description : Option String

pub record DomainType : Type 0 where
  pub id : String
  pub kind : DomainTypeKind
  pub description : Option String
  pub fields : Option (List Field)
  pub values : Option (List String)

pub data OperationKind : Type 0 where
  command query : OperationKind

pub record Authorization : Type 0 where
  pub intent : String
  pub roles : Option (List String)

pub record DomainOperation : Type 0 where
  pub id : String
  pub kind : OperationKind
  pub summary : String
  pub input : Option String
  pub output : Option String
  pub errors : Option (List String)
  pub authorization : Authorization
  pub emits : Option (List String)
  pub invariants : Option (List String)
  pub idempotent : Option Bool

pub data Enforcement : Type 0 where
  deterministic owner_work : Enforcement

pub record Invariant : Type 0 where
  pub id : String
  pub statement : String
  pub applies_to : List String
  pub enforcement : Enforcement

pub record Event : Type 0 where
  pub id : String
  pub version : ℕ
  pub payload : String
  pub description : Option String

pub record Scenario : Type 0 where
  pub id : String
  pub scenario : String
  pub operations : List String
  pub requirements : List String

pub record Facet : Type 0 where
  pub id : String
  pub version : String
  pub applies_to : List String
  pub configuration : Option Json

pub record DomainContractSpec : Type 0 where
  pub system : String
  pub bounded_context : String
  pub requirement_baseline : ContractRef
  pub types : List DomainType
  pub operations : List DomainOperation
  pub invariants : List Invariant
  pub events : List Event
  pub acceptance : List Scenario
  pub facets : List Facet
