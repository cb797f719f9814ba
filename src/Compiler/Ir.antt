-- ===== src/Compiler/Ir.antt =====
-- kernel/compiler/src/ir.ts: the types of the System IR that the later phases read.
pub mod Build
pub mod Order
pub mod Unsupported
use enistere_foundation.Base.{String, List, Option}
use enistere_foundation.Compiler.DomainIr.{ContractEntry, DomainIr}
use enistere_foundation.Contracts.Refs.{Digest}
use enistere_foundation.Contracts.Types.System.{Access, Audience, Ownership}

pub record IrInteraction : Type 0 where
  pub target : String
  pub interaction : String
  pub operations : List String

pub record IrRuntime : Type 0 where
  pub preferences : List String
  pub constraints : List String

pub record IrCapability : Type 0 where
  pub id : String
  pub version : Option String

pub record IrDataAccess : Type 0 where
  pub store : String
  pub access : Access

-- `audience`, `access` and `ownership.class` are the texts of the definition's enumerations.
pub record IrComponent : Type 0 where
  pub id : String
  pub name : String
  pub kind : String
  pub audience : Option Audience
  pub runtime : IrRuntime
  pub platform_capabilities : List IrCapability
  pub interactions : List IrInteraction
  pub publishes : List String
  pub subscribes : List String
  pub implements : List String
  pub data_access : List IrDataAccess
  pub integrations : List String
  pub environments : List String
  pub ownership : Ownership
  pub requirements : List String
  pub decisions : List String

pub record IrEnvironment : Type 0 where
  pub id : String
  pub kind : String
  pub deployment_mode : String
  pub region : Option String

pub record IrIntegration : Type 0 where
  pub id : String
  pub kind : String
  pub direction : String
  pub provider : Option String

pub record Accessibility : Type 0 where
  pub standard : String
  pub level : String

-- Without its tokens.
pub record DesignBinding : Type 0 where
  pub component : String
  pub design_system : ContractEntry
  pub context : String
  pub accessibility : Accessibility
  pub digest : Digest

pub record OperationBinding : Type 0 where
  pub item : String
  pub implemented_by : List String
  pub consumed_by : List String

pub record EventBinding : Type 0 where
  pub item : String
  pub published_by : List String
  pub subscribed_by : List String

pub data IntentCode : Type 0 where
  event_unpublished facet_not_interpreted operation_unimplemented : IntentCode

pub record UnsupportedIntent : Type 0 where
  pub item : String
  pub code : IntentCode

-- Without its own digest.
pub record SystemIr : Type 0 where
  pub system : String
  pub definition : String
  pub environments : List IrEnvironment
  pub integrations : List IrIntegration
  pub components : List IrComponent
  pub domains : List DomainIr
  pub design_bindings : List DesignBinding
  pub operation_bindings : List OperationBinding
  pub event_bindings : List EventBinding
  pub unsupported : List UnsupportedIntent
