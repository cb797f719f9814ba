-- ===== src/Contracts/Types/Design.antt =====
-- kernel/contracts/src/types.ts: A9 Design System.
use enistere_foundation.Base.{String, List, Option}

pub data DesignTokenType : Type 0 where
  color dimension font_family font_weight number duration : DesignTokenType

-- A number is kept as the text of its value.
pub data DesignTokenValue : Type 0 where
  text : String → DesignTokenValue
  numeric : String → DesignTokenValue
  texts : List String → DesignTokenValue

pub record DesignToken : Type 0 where
  pub value : DesignTokenValue
  pub type : DesignTokenType
  pub description : Option String

mutual
  -- `DesignToken | DesignTokenGroup | string | undefined`
  pub data TokenNode : Type 0 where
    token : DesignToken → TokenNode
    group : TokenGroup → TokenNode
    note : String → TokenNode
    absent : TokenNode

  pub data TokenGroup : Type 0 where
    end : TokenGroup
    entry : String → TokenNode → TokenGroup → TokenGroup

pub data ConformanceLevel : Type 0 where
  a aa aaa : ConformanceLevel

pub record DesignContext : Type 0 where
  pub id : String
  pub title : String
  pub overrides : Option (List (String × DesignTokenValue))

pub record DesignSystemSpec : Type 0 where
  pub tokens : TokenGroup
  pub level : ConformanceLevel
  pub contexts : List DesignContext
