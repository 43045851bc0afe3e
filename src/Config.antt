-- ===== src/Config.antt =====
-- The validated configuration and the resolved invocations of crates/core/src/lib.rs. A `PathBuf` and an
-- `OsString` are texts here; the program never takes them apart.
pub mod Checks
pub mod Rules
pub mod Listing
use agent_capability_gate.Prelude.{ℕ, String, Bool, Option, List, Map}
use agent_capability_gate.Json.{Value}
use agent_capability_gate.Schema.{CompiledSchema}

pub record Limits : Type 0 where
  pub timeout_ms : ℕ
  pub stdout_bytes : ℕ
  pub output_bytes : ℕ
  pub stderr_bytes : ℕ

pub record EnvironmentSpec : Type 0 where
  pub inherit : List String
  pub inherited_values : Map String
  pub set : Map String

pub record CliTarget : Type 0 where
  pub id : String
  pub executable : String
  pub cwd : String
  pub environment : EnvironmentSpec
  pub limits : Limits

pub record UpstreamMcpTarget : Type 0 where
  pub id : String
  pub command : String
  pub args : List String
  pub cwd : String
  pub environment : EnvironmentSpec
  pub limits : Limits

pub data CliBinding : Type 0 where
  literal input each : String → CliBinding

pub data OutputKind : Type 0 where
  text json structured mcp_auto : OutputKind

pub record Annotations : Type 0 where
  pub read_only_hint : Option Bool
  pub destructive_hint : Option Bool
  pub idempotent_hint : Option Bool
  pub open_world_hint : Option Bool

mutual
  pub data McpBinding : Type 0 where
    literal : Value → McpBinding
    input : String → McpBinding
    environment : String → McpBinding
    object : BindingFields → McpBinding
    array : BindingItems → McpBinding

  pub data BindingFields : Type 0 where
    end : BindingFields
    field : String → McpBinding → BindingFields → BindingFields

  pub data BindingItems : Type 0 where
    nil : BindingItems
    item : McpBinding → BindingItems → BindingItems

-- `RawMcpBinding`, as serde reads it.
mutual
  pub data RawMcpBinding : Type 0 where
    literal : Value → RawMcpBinding
    input : String → RawMcpBinding
    environment : String → RawMcpBinding
    object : RawFields → RawMcpBinding
    array : RawItems → RawMcpBinding

  pub data RawFields : Type 0 where
    end : RawFields
    field : String → RawMcpBinding → RawFields → RawFields

  pub data RawItems : Type 0 where
    nil : RawItems
    item : RawMcpBinding → RawItems → RawItems

pub record McpInvoke : Type 0 where
  pub tool : String
  pub arguments : BindingFields

pub record CompiledTool : Type 0 where
  pub name : String
  pub title : Option String
  pub description : Option String
  pub annotations : Annotations
  pub schema : CompiledSchema
  pub target : String
  pub argv : List CliBinding
  pub mcp : Option McpInvoke
  pub output_kind : OutputKind

pub record McpRestriction : Type 0 where
  pub inputs : Map Value
  pub fixed : Map Value

pub data McpExposureMode : Type 0 where
  proxy : McpExposureMode
  restriction : McpRestriction → McpExposureMode

pub record McpExposure : Type 0 where
  pub public_name : String
  pub target_id : String
  pub upstream_tool : String
  pub mode : McpExposureMode

pub data McpPropertyRuleV3 : Type 0 where
  expose : (constraints : Value) (required : Bool) → McpPropertyRuleV3
  fixed : Value → McpPropertyRuleV3
  omit : McpPropertyRuleV3

pub record McpRestrictionV3 : Type 0 where
  pub expose_unlisted_properties : Bool
  pub properties : Map McpPropertyRuleV3

pub record McpExposureV3 : Type 0 where
  pub public_name : String
  pub target_id : String
  pub upstream_tool : String
  pub description : Option String
  pub restriction : Option McpRestrictionV3

pub record ValidatedConfig : Type 0 where
  pub version : ℕ
  pub server_name : String
  pub request_bytes : ℕ
  pub json_depth : ℕ
  pub targets : Map CliTarget
  pub upstream_targets : Map UpstreamMcpTarget
  pub tools : Map CompiledTool
  pub v2_exposures : Map McpExposure
  pub v3_exposures : Map McpExposureV3
  pub server_environment : Map String

pub record ResolvedCliInvocation : Type 0 where
  pub target_id : String
  pub executable : String
  pub argv : List String
  pub cwd : String
  pub environment : EnvironmentSpec
  pub limits : Limits
  pub output_kind : OutputKind

pub record ResolvedMcpInvocation : Type 0 where
  pub target_id : String
  pub command : String
  pub args : List String
  pub cwd : String
  pub environment : EnvironmentSpec
  pub upstream_tool : String
  pub arguments : Value
  pub limits : Limits
  pub output_kind : OutputKind
