-- ===== src/Tests/Session.antt =====
-- A listing of upstream tools in one page.
use agent_capability_gate.Prelude.{
  ◌≡◌, refl, ℕ, Option, some, List, [], ◌∷◌, true, false, ok, pos, get,
}
use agent_capability_gate.Json.{Value, string, number, of_map, of_list}
use agent_capability_gate.Json.Numbers.{int}
use agent_capability_gate.Runtime.Wire.{draining}
use agent_capability_gate.Runtime.Session.{Ready, list_tools, read_page, take_tools}
use agent_capability_gate.Runtime.Session.Listed.{Within, list_tools-Within}
use agent_capability_gate.Tests.Remote.{upstream_json}

-- {"id": 2, "jsonrpc": "2.0", "result": {"tools": [...]}}
abbrev page_json : Value
page_json = of_map (
    ("id", number (int (pos 2)))
    ∷ ("jsonrpc", string "2.0")
    ∷ ("result", of_map (("tools", of_list (upstream_json ∷ [])) ∷ []))
    ∷ [])

abbrev size : Value → Option ℕ
size v = some 80

abbrev decode : List ℕ → Option Value
decode line = some page_json

abbrev begun : Ready
begun = record {
  accepts = true;
  sent = [];
  events = record { status = draining; message = some (ok (1 ∷ [])) } ∷ [];
  list_changed = false;
  next_id = 2;
}

list_tools-Within_example : Within size decode 16 begun.sent (list_tools size decode begun)
list_tools-Within_example = list_tools-Within size decode begun

lists_upstream : (list_tools size decode begun).0 ≡ some (ok (upstream_json ∷ []))
unfolding list_tools read_page take_tools get
lists_upstream = refl
