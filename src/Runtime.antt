-- ===== src/Runtime.antt =====
-- The conversation with an upstream server, crates/runtime/src/lib.rs: the results and errors of a call. The
-- executor of commands, processes, threads and timers are not modelled, nor the observations for the debug
-- log.
pub mod Results
pub mod Wire
pub mod Session
use agent_capability_gate.Prelude.{ℕ, ◌*◌, String, Result, ok, err}
use agent_capability_gate.Diagnostics.{
  BrokerErrorCode, target_failed, output_limit_exceeded, invalid_target_output,
}
use agent_capability_gate.Catalog.Outside.{RuntimeError}

abbrev pub upstream_message_bytes : ℕ
upstream_message_bytes = 1024 * 1024

abbrev pub max_upstream_discovery_tools : ℕ
max_upstream_discovery_tools = 4096

abbrev pub max_upstream_discovery_pages : ℕ
max_upstream_discovery_pages = 16

pub data McpCallError : Type 0 where
  runtime : RuntimeError → McpCallError
  stderr_overflow stderr_failed connection_closed protocol remote_error output message_limit :
      McpCallError

abbrev pub runtime_error : BrokerErrorCode → String → RuntimeError
runtime_error code message = record { code = code; message = message }

abbrev pub Called : Type 0 → Type 0
Called A = Result McpCallError A

pub map_mcp_call_error : McpCallError → RuntimeError
map_mcp_call_error (runtime e) = e
map_mcp_call_error stderr_overflow =
    runtime_error output_limit_exceeded "upstream stderr exceeded configured limit"
map_mcp_call_error stderr_failed = runtime_error target_failed "upstream stderr could not be read"
map_mcp_call_error connection_closed = runtime_error target_failed "upstream connection failed"
map_mcp_call_error protocol = runtime_error target_failed "upstream protocol response was invalid"
map_mcp_call_error remote_error = runtime_error target_failed "upstream returned an error"
map_mcp_call_error output = runtime_error invalid_target_output "upstream output was invalid"
map_mcp_call_error message_limit =
    runtime_error output_limit_exceeded "upstream message exceeded configured limit"
