-- ===== src/Boundary/Handler/Request.antt =====
-- `handle_request` of crates/boundary/src/main.rs.
use agent_capability_gate.Prelude.{
  String, ◌==◌, Option, none, some, [], get, or_default, if◌then◌else◌,
}
use agent_capability_gate.Json.{Value, as_str, get_field, of_map, ◌>>?◌}
use agent_capability_gate.Boundary.Envelope.{validate_envelope, validate_params}
use agent_capability_gate.Boundary.Handler.{
  Session, Context, write_error, handle_initialize, handle_discover, handle_initialized,
  handle_list,
}
use agent_capability_gate.Boundary.Handler.Call.{handle_call}

abbrev pub method_of : Value → String
method_of request = or_default (get_field "method" request >>? as_str) ""

abbrev pub params_of : Value → Value
params_of request = or_default (get_field "params" request) (of_map [])

module _ {W : Type 0} (c : Context W) where
  unfoldable pub handle_method : Option Value → String → Value → Session W → Option (Session W)
  unfolding handle_initialize handle_discover handle_initialized handle_list handle_call
  handle_method id method params s =
      if method == "initialize"
      then handle_initialize c id params s
      else if method == "server/discover"
      then handle_discover c id s
      else if method == "notifications/initialized"
      then handle_initialized c id s
      else if method == "tools/list"
      then handle_list c id params s
      else if method == "tools/call"
      then handle_call c id params s
      else write_error c id "unsupported method" s

  abbrev pub checked_params :
      Option String → Option Value → String → Value → Session W → Option (Session W)
  checked_params (some message) id method params s = write_error c id message s
  checked_params none id method params s = handle_method id method params s

  abbrev pub checked_envelope : Option String → Value → Session W → Option (Session W)
  checked_envelope (some message) request s = write_error c (get_field "id" request) message s
  checked_envelope none request s =
      checked_params (validate_params (method_of request) (params_of request))
        (get_field "id" request) (method_of request) (params_of request) s

  unfoldable pub handle_request : Value → Session W → Option (Session W)
  unfolding validate_envelope validate_params handle_method get
  handle_request request s = checked_envelope (validate_envelope request) request s
