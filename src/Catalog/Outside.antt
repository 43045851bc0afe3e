-- ===== src/Catalog/Outside.antt =====
-- What the boundary asks of the world: the MCP executor of crates/runtime, which talks to upstream
-- processes, the executor of commands, and the files of the definition caches. A world is whatever they
-- keep; each call returns an answer and the world after it.
use agent_capability_gate.Prelude.{String, Bool, Option, List, Map, Result}
use agent_capability_gate.Json.{Value}
use agent_capability_gate.Diagnostics.{BrokerErrorCode}
use agent_capability_gate.Config.{UpstreamMcpTarget, ResolvedCliInvocation, ResolvedMcpInvocation}

-- `ExecutionResult` and `RuntimeError` of crates/runtime/src/lib.rs, without the observations for the log.
pub record ExecutionResult : Type 0 where
  pub text : Option String
  pub text_blocks : List String
  pub structured : Option Value
  pub is_error : Bool
  pub code : BrokerErrorCode

pub record RuntimeError : Type 0 where
  pub code : BrokerErrorCode
  pub message : String

pub record Outside (W : Type 0) : Type 0 where
  -- `McpExecutor`: `is_connected`, `list_tools`, `take_list_changed`, `execute_with_cancellation`
  pub is_connected : String → W → Bool × W
  pub list_tools : UpstreamMcpTarget → W → Option (List Value) × W
  pub take_list_changed : String → W → Bool × W
  pub execute : ResolvedMcpInvocation → W → Result RuntimeError ExecutionResult × W
  -- `execute_cli_with_admission_and_cancellation_and_diagnostics`
  pub execute_cli : ResolvedCliInvocation → W → Result RuntimeError ExecutionResult × W
  -- `UpstreamDefinitionCache::store` of a target's cache, if it has one
  pub store : String → Map Value → W → W
  -- `Cancellation::is_cancelled`
  pub is_cancelled : W → Bool × W
