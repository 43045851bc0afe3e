-- ===== src/Boundary/Messages.antt =====
-- The messages that the boundary writes, `write_json_result` and the other writers of
-- crates/boundary/src/main.rs. A message that cannot be written ends the program and is not modelled.
use agent_capability_gate.Prelude.{
  String, ◌+++◌, Bool, true, false, Option, none, some, List, [], ◌∷◌, map, remove, is_empty,
  Result, ok, err, or_default, if◌then◌else◌,
}
use agent_capability_gate.Json.{Value, null, bool, string, object, of_map, of_list, fields}
use agent_capability_gate.Diagnostics.{BrokerErrorCode, server_busy, as_text}
use agent_capability_gate.Catalog.Outside.{ExecutionResult, RuntimeError}

pub data PublicRevision : Type 0 where
  modern legacy : PublicRevision

-- A reply and a failure carry the id of the request, if it has one; a notification has none.
pub data Message : Type 0 where
  reply : (id : Option Value) (result : Value) → Message
  failure : (id : Option Value) (code message : String) → Message
  list_changed : Message

abbrev id_json : Option Value → Value
id_json id = or_default id null

unfoldable pub message_json : Message → Value
message_json (reply id result) =
    of_map (("id", id_json id) ∷ ("jsonrpc", string "2.0") ∷ ("result", result) ∷ [])
message_json (failure id code message) = of_map (
    ("error", of_map (("code", string code) ∷ ("message", string message) ∷ []))
    ∷ ("id", id_json id)
    ∷ ("jsonrpc", string "2.0")
    ∷ [])
message_json list_changed =
    of_map (("jsonrpc", string "2.0") ∷ ("method", string "notifications/tools/list_changed") ∷ [])

-- Only the modern revision has the type of the result.
unfoldable pub add_revision_fields : Value → PublicRevision → Value
unfolding remove
add_revision_fields result modern = result
add_revision_fields (object fs) legacy = of_map (remove "resultType" (fields fs))
add_revision_fields result legacy = result

text_block : String → Value
text_block text = of_map (("text", string text) ∷ ("type", string "text") ∷ [])

unfoldable pub write_tool_error : Option Value → (code message : String) → PublicRevision → Message
unfolding text_block add_revision_fields
write_tool_error id code message revision = reply id (
    add_revision_fields
      (of_map (
        ("content", of_list (text_block (code +++ (": " +++ message)) ∷ []))
        ∷ ("isError", bool true)
        ∷ ("resultType", string "complete")
        ∷ []))
      revision)

unfoldable pub write_v3_tool_error :
    Option Value → (code message : String) → (details : Value) → PublicRevision → Message
unfolding text_block add_revision_fields
write_v3_tool_error id code message details revision = reply id (
    add_revision_fields
      (of_map (
        ("content", of_list (text_block (code +++ (": " +++ message)) ∷ []))
        ∷ ("isError", bool true)
        ∷ ("resultType", string "complete")
        ∷ ("structuredContent", details)
        ∷ []))
      revision)

abbrev pub is_busy : BrokerErrorCode → Bool
is_busy server_busy = true
is_busy _ = false

unfoldable pub write_runtime_error : Option Value → RuntimeError → PublicRevision → Message
unfolding write_tool_error
write_runtime_error id error revision =
    if is_busy error.code
    then failure id (as_text error.code) error.message
    else write_tool_error id (as_text error.code) error.message revision

abbrev blocks : ExecutionResult → List String
blocks result =
    if is_empty result.text_blocks
    then elim result.text [ none ↦ [] | some text ↦ text ∷ [] ]
    else result.text_blocks

abbrev with_structured : List Value → Option Value → Value
with_structured content none = of_map (
    ("content", of_list content) ∷ ("isError", bool false) ∷ ("resultType", string "complete") ∷ [])
with_structured content (some structured) = of_map (
    ("content", of_list content)
    ∷ ("isError", bool false)
    ∷ ("resultType", string "complete")
    ∷ ("structuredContent", structured)
    ∷ [])

unfoldable pub write_execution_result : Option Value → ExecutionResult → PublicRevision → Message
unfolding write_tool_error text_block add_revision_fields
write_execution_result id result revision =
    if result.is_error
    then write_tool_error id (as_text result.code) "target failed" revision
    else reply id (
        add_revision_fields (with_structured (map text_block (blocks result)) result.structured)
          revision)

-- The answer to a call that was executed.
unfoldable pub write_outcome :
    Option Value → Result RuntimeError ExecutionResult → PublicRevision → Message
unfolding write_execution_result write_runtime_error
write_outcome id (ok result) revision = write_execution_result id result revision
write_outcome id (err error) revision = write_runtime_error id error revision
