-- ===== src/Runtime/Wire.antt =====
-- What is read from an upstream server, `read_message` and `read_reply` of crates/runtime/src/lib.rs. The
-- `select!` of the loop is a list of events: a completed read, or a change of the status of the reader
-- of stderr, each with the status that is seen then. A read that a change interrupts is begun anew, and
-- what it had read is lost; which reads complete is for the events to say.
pub mod Framed
pub mod Correlated
use agent_capability_gate.Prelude.{
  get, ℕ, ◌+◌, String, ◌==◌, Bool, true, false, not, ◌||◌, Option, none, some, List, [], ◌∷◌, ◌++◌,
  length, is_some, eqb, ltb, Result, ok, err, if◌then◌else◌,
}
use agent_capability_gate.Json.{Value, as_str, as_object, as_number, get_field, is_some_and, ◌>>?◌}
use agent_capability_gate.Json.Numbers.{as_u64}
use agent_capability_gate.Boundary.Framing.{newline, strip_return}
use agent_capability_gate.Runtime.{
  Called, McpCallError, stderr_overflow, stderr_failed, connection_closed, protocol, remote_error,
  message_limit, upstream_message_bytes,
}

abbrev pub line_of : List ℕ → List ℕ → Called (List ℕ × List ℕ)
line_of [] rest = err protocol
line_of (b ∷ bs) rest = ok (b ∷ bs, rest)

-- The loop over the bytes that can be read before the end or an error, with the bytes so far.
unfoldable pub read_line : List ℕ → List ℕ → Called (List ℕ × List ℕ)
unfolding strip_return
read_line [] bytes = err connection_closed
read_line (b ∷ input) bytes =
    let more = read_line input (bytes ++ b ∷ []) in
    if eqb b newline
    then line_of (strip_return bytes) input
    else if ltb upstream_message_bytes (length bytes + 1)
    then err message_limit
    else more

-- The line, and what is left to read.
unfoldable pub read_message : List ℕ → Called (List ℕ × List ℕ)
unfolding read_line
read_message input = read_line input []

pub data StderrStatus : Type 0 where
  draining done overflow failed : StderrStatus

pub record Event : Type 0 where
  pub status : StderrStatus
  pub message : Option (Called (List ℕ))

pub data Verdict : Type 0 where
  passed : (announces : Bool) → Verdict
  stop : Called Value → Verdict

abbrev pub checked : StderrStatus → Verdict → Verdict
checked overflow v = stop (err stderr_overflow)
checked failed v = stop (err stderr_failed)
checked draining v = v
checked done v = v

abbrev pub is_error_object : Value → Bool
is_error_object v = is_some (as_object v)

abbrev pub result_of : Option Value → Option Value → Called Value
result_of (some result) (some error) = err protocol
result_of none (some error) = if is_error_object error then err remote_error else err protocol
result_of (some result) none = ok result
result_of none none = err protocol

-- A decoded message, for the request with that id.
unfoldable pub judge_message : ℕ → Value → Verdict
unfolding get
judge_message id m =
    if not (is_some_and (get_field "jsonrpc" m >>? as_str) (λ s. s == "2.0"))
    then stop (err protocol)
    else if is_some (get_field "method" m)
    then if is_some (get_field "id" m)
      then stop (err protocol)
      else passed (
          is_some_and (get_field "method" m >>? as_str)
            (λ s. s == "notifications/tools/list_changed"))
    else if not (is_some_and (get_field "id" m >>? as_number >>? as_u64) (λ n. eqb n id))
    then stop (err protocol)
    else stop (result_of (get_field "result" m) (get_field "error" m))

-- `decode` is the decoding of rmcp's message and its JSON.
module _ (decode : List ℕ → Option Value) where
  abbrev pub judge_decoded : ℕ → Option Value → Verdict
  judge_decoded id none = stop (err protocol)
  judge_decoded id (some m) = judge_message id m

  abbrev pub judge_read : ℕ → StderrStatus → Option (Called (List ℕ)) → Verdict
  judge_read id status none = checked status (passed false)
  judge_read id status (some (err e)) = stop (err e)
  judge_read id status (some (ok line)) = checked status (judge_decoded id (decode line))

  unfoldable pub judge : ℕ → Event → Verdict
  unfolding judge_message get
  judge id e = judge_read id e.status e.message

  abbrev pub after_verdict :
      Verdict
      → List Event
      → Bool
      → (Bool → Option (Called Value) × List Event × Bool)
      → Option (Called Value) × List Event × Bool
  after_verdict (stop r) rest changed more = (some r, rest, changed)
  after_verdict (passed announces) rest changed more = more (changed || announces)

  -- The reply, unless the events end before, which leaves the reader waiting; the events that are left; and
  -- whether a change of the tools has been announced.
  unfoldable pub read_events : ℕ → List Event → Bool → Option (Called Value) × List Event × Bool
  unfolding judge
  read_events id [] changed = (none, [], changed)
  read_events id (e ∷ events) changed =
      after_verdict (judge id e) events changed (read_events id events)
