-- ===== src/Raw.antt =====
-- The configuration as serde reads it from YAML: the `Raw` structures of crates/core/src/lib.rs. A
-- `BTreeMap` is the list of its entries in key order.
pub mod Targets
pub mod Tools
pub mod ExposuresV2
pub mod ExposuresV3
pub mod Validate
pub mod Distinct
use agent_capability_gate.Prelude.{ℕ, String, Bool, Option, List, Map}
use agent_capability_gate.Json.{Value}
use agent_capability_gate.Config.{RawFields}
use agent_capability_gate.Config.Checks.{RawEnvironment, RawTargetLimits}

pub record RawRestriction : Type 0 where
  pub inputs : Option (Map Value)
  pub fixed : Option (Map Value)
  pub properties : Option (Map Value)
  pub expose_unlisted_properties : Option Bool

pub record RawExposure : Type 0 where
  pub public_name : Option String
  pub description : Option String
  pub restrict : Option RawRestriction

pub record RawTargetTransport : Type 0 where
  pub kind : String
  pub command : String
  pub args : List String
  pub cwd : String
  pub environment : RawEnvironment

pub record RawTarget : Type 0 where
  pub kind : String
  pub executable : Option String
  pub transport : Option RawTargetTransport
  pub cwd : Option String
  pub environment : RawEnvironment
  pub expose : Option (Map RawExposure)
  pub limits : RawTargetLimits

pub record RawAnnotations : Type 0 where
  pub read_only_hint : Option Bool
  pub destructive_hint : Option Bool
  pub idempotent_hint : Option Bool
  pub open_world_hint : Option Bool

pub record RawCliInvoke : Type 0 where
  pub argv : List Value

pub record RawMcpInvoke : Type 0 where
  pub tool : String
  pub arguments : RawFields

pub record RawInvoke : Type 0 where
  pub target : String
  pub cli : Option RawCliInvoke
  pub mcp : Option RawMcpInvoke

pub record RawOutput : Type 0 where
  pub kind : String

pub record RawTool : Type 0 where
  pub title : Option String
  pub description : Option String
  pub annotations : RawAnnotations
  pub input_schema : Value
  pub invoke : RawInvoke
  pub output : RawOutput

pub record RawTransport : Type 0 where
  pub kind : String

pub record RawServerLimits : Type 0 where
  pub request_bytes : ℕ
  pub json_depth : ℕ

pub record RawServer : Type 0 where
  pub name : String
  pub transport : RawTransport
  pub limits : RawServerLimits

pub record RawConfig : Type 0 where
  pub version : ℕ
  pub server : RawServer
  pub targets : Map RawTarget
  pub tools : Option (Map RawTool)
