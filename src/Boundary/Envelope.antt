-- ===== src/Boundary/Envelope.antt =====
-- `validate_envelope` and `validate_params` of crates/boundary/src/main.rs.
use agent_capability_gate.Prelude.{
  String, ◌==◌, Bool, true, false, not, ◌&&◌, ◌||◌, Option, none, some, List, [], ◌∷◌, any, Map,
  get, contains_key, keys, is_some, Result, ok, err, ◌>>=◌, ◌>>◌, fail_if, ok_or, if◌then◌else◌,
}
use agent_capability_gate.Json.{Value, null, number, string, as_object, as_str, is_some_and, ◌>>?◌}

abbrev listed : List String → String → Bool
listed names key = any (λ name. name == key) names

abbrev is_text : Option String → String → Bool
is_text o text = is_some_and o (λ s. s == text)

abbrev pub is_id : Value → Bool
is_id null = true
is_id (string s) = true
is_id (number n) = true
is_id _ = false

abbrev is_string : Value → Bool
is_string v = is_some (as_str v)

abbrev is_object : Value → Bool
is_object v = is_some (as_object v)

-- The checks in order; the error is the first objection.
unfoldable pub check_envelope : Value → Result String (Unit {0})
unfolding get keys
check_envelope request = do
  obj ← ok_or (as_object request) "request must be an object"
  fail_if (any (λ key. not (listed ("jsonrpc" ∷ "id" ∷ "method" ∷ "params" ∷ []) key)) (keys obj))
      "unknown JSON-RPC envelope field"
  fail_if (not (is_text (get "jsonrpc" obj >>? as_str) "2.0")) "jsonrpc must be exactly 2.0"
  fail_if (not (is_some (get "method" obj >>? as_str))) "method is required"
  fail_if (is_some_and (get "id" obj) (λ v. not (is_id v))) "id must be a string, number, or null"
  fail_if (is_some_and (get "params" obj) (λ v. not (is_object v))) "params must be an object"

abbrev pub objection : Result String (Unit {0}) → Option String
objection (ok u) = none
objection (err message) = some message

unfoldable pub validate_envelope : Value → Option String
unfolding check_envelope
validate_envelope request = objection (check_envelope request)

-- The parameters that a method takes.
unfoldable pub allowed_params : String → List String
allowed_params method =
    if method == "initialize"
    then "protocolVersion" ∷ "capabilities" ∷ "clientInfo" ∷ "_meta" ∷ []
    else if method == "server/discover" || method == "notifications/initialized"
    then "_meta" ∷ []
    else if method == "tools/list"
    then "cursor" ∷ "_meta" ∷ []
    else if method == "tools/call"
    then "name" ∷ "arguments" ∷ "_meta" ∷ []
    else []

-- A parameter that is there and fails the test.
abbrev fails : String → (Value → Bool) → Map Value → Bool
fails key test obj = is_some_and (get key obj) (λ v. not (test v))

check_initialize : Map Value → Result String (Unit {0})
check_initialize obj =
    fail_if
      (fails "protocolVersion" is_string obj
        || fails "capabilities" is_object obj
        || fails "clientInfo" is_object obj)
      "invalid initialize parameters"

check_call : Map Value → Result String (Unit {0})
check_call obj = do
  fail_if (not (is_some (get "name" obj >>? as_str)) && contains_key "name" obj)
      "tool name must be a string"
  fail_if (fails "arguments" is_object obj) "tool arguments must be an object"

unfoldable pub check_params : String → Value → Result String (Unit {0})
unfolding allowed_params check_initialize check_call
check_params method params = do
  obj ← ok_or (as_object params) "params must be an object"
  fail_if (any (λ key. not (listed (allowed_params method) key)) (keys obj))
      "unknown method parameter"
  if method == "initialize"
      then check_initialize obj
      else if method == "tools/list"
      then fail_if (fails "cursor" is_string obj) "cursor must be a string"
      else if method == "tools/call"
      then check_call obj
      else ok tt

unfoldable pub validate_params : String → Value → Option String
unfolding check_params
validate_params method params = objection (check_params method params)
