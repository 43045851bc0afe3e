-- ===== src/Tests/Replies.antt =====
-- Replies of an upstream server.
use agent_capability_gate.Prelude.{
  ℕ, ◌≡◌, refl, true, false, ◌||◌, Option, none, some, List, [], ◌∷◌, ◌++◌, All, ok, err, get, eqb,
  if◌then◌else◌, arith, pos, or_default, length,
}
use agent_capability_gate.Json.{Value, string, number, of_map, of_list, get_field, as_bool, ◌>>?◌}
use agent_capability_gate.Json.Numbers.{int}
use agent_capability_gate.Config.{text}
use agent_capability_gate.Diagnostics.{target_failed}
use agent_capability_gate.Catalog.Outside.{ExecutionResult}
use agent_capability_gate.Boundary.Framing.{cut}
use agent_capability_gate.Boundary.Limits.{request_within_limits}
use agent_capability_gate.Runtime.{output}
use agent_capability_gate.Runtime.Results.{bounded_json, adapt_result, collect_blocks, block_text}
use agent_capability_gate.Runtime.Results.Adapted.{bounded_json-within}
use agent_capability_gate.Runtime.Results.Fitting.{Adapted, adapt_result-Adapted}
use agent_capability_gate.Runtime.Wire.{read_message, Event, draining, done, read_events}
use agent_capability_gate.Runtime.Wire.Framed.{first_line, read_message-first}
use agent_capability_gate.Runtime.Wire.Correlated.{
  IsPassed, IsReply, any_announced, read_events-IsReply,
}
use agent_capability_gate.Tests.Remote.{upstream_json}

bounded_json-within_example :
    bounded_json upstream_json
    ≡ (if request_within_limits upstream_json 1 32 then ok upstream_json else err output)
bounded_json-within_example = bounded_json-within upstream_json

-- {"content": [{"text": "hi", "type": "text"}]}
abbrev result_json : Value
result_json =
    of_map (
      ("content", of_list (of_map (("text", string "hi") ∷ ("type", string "text") ∷ []) ∷ []))
      ∷ [])

abbrev json_size : Value → Option ℕ
json_size v = some 2

abbrev adapted : ExecutionResult
adapted = record {
  text = some "hi";
  text_blocks = "hi" ∷ [];
  structured = none;
  is_error = false;
  code = target_failed;
}

adapts : adapt_result json_size result_json text 100 ≡ ok adapted
unfolding adapt_result collect_blocks block_text get
adapts = refl

adapt_result-Adapted_example :
    (adapted.is_error ≡ or_default (get_field "isError" result_json >>? as_bool) false)
    × Adapted json_size text 100 result_json adapted.is_error adapted
adapt_result-Adapted_example =
    adapt_result-Adapted json_size text 100 result_json adapted (omega arith) adapts

-- "ab", a line end, and the start of another line.
abbrev output_bytes : List ℕ
output_bytes = 97 ∷ 98 ∷ 13 ∷ 10 ∷ 99 ∷ []

read_message-first_example : read_message output_bytes ≡ first_line (cut output_bytes)
read_message-first_example = read_message-first output_bytes

reads_ab : read_message output_bytes ≡ ok (97 ∷ 98 ∷ [], 99 ∷ [])
unfolding read_message
reads_ab = refl

-- {"jsonrpc": "2.0", "method": "notifications/tools/list_changed"}
abbrev notification_json : Value
notification_json =
    of_map (("jsonrpc", string "2.0") ∷ ("method", string "notifications/tools/list_changed") ∷ [])

abbrev reply_json : Value
reply_json =
    of_map (("id", number (int (pos 7))) ∷ ("jsonrpc", string "2.0") ∷ ("result", result_json) ∷ [])

-- A line of one byte is the notification, any other the reply.
abbrev decode : List ℕ → Option Value
decode line = if eqb (length line) 1 then some notification_json else some reply_json

abbrev reply_event : Event
reply_event = record { status = done; message = some (ok (1 ∷ 2 ∷ [])) }

abbrev events : List Event
events =
    record { status = draining; message = some (ok (1 ∷ [])) }
    ∷ record { status = done; message = none }
    ∷ reply_event
    ∷ []

reads_reply : read_events decode 7 events false ≡ (some (ok result_json), [], true)
unfolding read_events get
reads_reply = refl

read_events-IsReply_example :
    (before : List Event) × (e : Event) × (events ≡ before ++ (e ∷ []))
    × All (IsPassed decode) before
    × IsReply decode 7 e result_json
    × (true ≡ (false || any_announced decode before))
read_events-IsReply_example =
    read_events-IsReply decode 7 events [] false true result_json reads_reply
