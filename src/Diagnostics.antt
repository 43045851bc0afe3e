-- ===== src/Diagnostics.antt =====
-- Error codes, diagnostics and validation issues of crates/core/src/lib.rs, and its size limits.
use agent_capability_gate.Prelude.{ℕ, ◌*◌, String, ◌+++◌, Result, ok, err, Option, none, some}

pub data BrokerErrorCode : Type 0 where
  invalid_arguments policy_denied target_unavailable target_timeout target_failed : BrokerErrorCode
  output_limit_exceeded invalid_target_output cancelled server_busy : BrokerErrorCode
  tool_definition_changed admin_action_required : BrokerErrorCode

pub as_text : BrokerErrorCode → String
as_text invalid_arguments = "INVALID_ARGUMENTS"
as_text policy_denied = "POLICY_DENIED"
as_text target_unavailable = "TARGET_UNAVAILABLE"
as_text target_timeout = "TARGET_TIMEOUT"
as_text target_failed = "TARGET_FAILED"
as_text output_limit_exceeded = "OUTPUT_LIMIT_EXCEEDED"
as_text invalid_target_output = "INVALID_TARGET_OUTPUT"
as_text cancelled = "CANCELLED"
as_text server_busy = "SERVER_BUSY"
as_text tool_definition_changed = "TOOL_DEFINITION_CHANGED"
as_text admin_action_required = "ADMIN_ACTION_REQUIRED"

pub record Diagnostic : Type 0 where
  pub code : BrokerErrorCode
  pub path : String
  pub message : String

abbrev pub invalid : String → String → Diagnostic
invalid path message = record { code = invalid_arguments; path = path; message = message }

pub record ValidationIssue : Type 0 where
  pub path : String
  pub constraint : String

abbrev pub Checked : Type 0 → Type 0
Checked A = Result Diagnostic A

-- `format!("{path}/{key}")`
infixl 60 ◌/+◌
abbrev pub ◌/+◌ : String → String → String
path /+ key = path +++ ("/" +++ key)

-- A loop or a search that ends in an error at the key that it found.
abbrev pub reject_found : Option String → String → String → Checked (Unit {0})
reject_found none path message = ok tt
reject_found (some key) path message = err (invalid (path /+ key) message)

abbrev pub max_config_bytes : ℕ
max_config_bytes = 1024 * 1024

abbrev pub max_string_bytes : ℕ
max_string_bytes = 256 * 1024

abbrev pub max_array_items : ℕ
max_array_items = 1024

abbrev pub max_tools : ℕ
max_tools = 256

abbrev pub max_diagnostics : ℕ
max_diagnostics = 32
