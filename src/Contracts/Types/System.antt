-- ===== src/Contracts/Types/System.antt =====
-- kernel/contracts/src/types.ts: A4 System Definition.
use enistere_foundation.Base.{String, List, Option, Bool}
use enistere_foundation.Contracts.Refs.{ContractRef}

pub data Audience : Type 0 where
  public internal field partner system : Audience

pub record Consumed : Type 0 where
  pub component : String
  pub interaction : String
  pub operations : Option (List String)

pub data Access : Type 0 where
  owner read_write read : Access

pub record DataAccess : Type 0 where
  pub store : String
  pub access : Access

pub record PlatformCapability : Type 0 where
  pub id : String
  pub version : Option String

pub record Runtime : Type 0 where
  pub preferences : Option (List String)
  pub constraints : Option (List String)

pub record Experience : Type 0 where
  pub design_context : String
  pub design_system : Option ContractRef
  pub accessibility_profile : Option String
  pub offline : Option Bool

pub data OwnershipClass : Type 0 where
  compiler_owned owner_managed shared_controlled external : OwnershipClass

pub record Ownership : Type 0 where
  pub class : OwnershipClass
  pub team : String

-- The field `data` is `data_access`.
pub record Component : Type 0 where
  pub id : String
  pub name : String
  pub kind : String
  pub responsibilities : List String
  pub audience : Option Audience
  pub requirements : Option (List String)
  pub decisions : Option (List String)
  pub implements : Option (List String)
  pub publishes : Option (List String)
  pub subscribes : Option (List String)
  pub consumes : Option (List Consumed)
  pub data_access : Option (List DataAccess)
  pub platform_capabilities : Option (List PlatformCapability)
  pub integrations : Option (List String)
  pub runtime : Option Runtime
  pub experience : Option Experience
  pub ownership : Ownership
  pub environments : Option (List String)

pub record SystemInputs : Type 0 where
  pub requirement_baseline : ContractRef
  pub decision_set : ContractRef
  pub organization_context : ContractRef
  pub domain_contracts : List ContractRef

pub record Integration : Type 0 where
  pub id : String
  pub kind : String
  pub direction : String
  pub purpose : String
  pub provider : Option String

pub record Environment : Type 0 where
  pub id : String
  pub kind : String
  pub deployment_mode : String
  pub region : Option String

pub record SystemDefinitionSpec : Type 0 where
  pub system : String
  pub purpose : String
  pub inputs : SystemInputs
  pub components : List Component
  pub integrations : List Integration
  pub environments : List Environment
