-- ===== src/Runtime/Session.antt =====
-- The requests of a negotiated session, `send_message` and the loop of `McpSession::list_tools` of
-- crates/runtime/src/lib.rs. Where the events end before a reply, the session waits until its deadline.
pub mod Listed
use agent_capability_gate.Prelude.{
  ℕ, zero, suc, ◌+◌, ◌-◌, ◌^◌, min, String, Bool, true, false, not, ◌||◌, ◌&&◌, Option, none, some,
  List, [], ◌∷◌, ◌++◌, Map, get, contains_key, length, is_some, set_contains, set_insert,
  is_empty_text, ltb, Result, ok, err, ◌>>=◌, ok_or, fail_if, pos, if◌then◌else◌,
}
use agent_capability_gate.Json.{Value, string, number, as_str, as_object, as_array, of_map, ◌>>?◌}
use agent_capability_gate.Json.Numbers.{int}
use agent_capability_gate.Diagnostics.{target_failed, output_limit_exceeded}
use agent_capability_gate.Boundary.Framing.{usize_max}
use agent_capability_gate.Runtime.{
  Called, McpCallError, runtime, runtime_error, protocol, message_limit, upstream_message_bytes,
  max_upstream_discovery_tools, max_upstream_discovery_pages,
}
use agent_capability_gate.Runtime.Results.{bounded_json}
use agent_capability_gate.Runtime.Wire.{Event, read_events}

-- A process: whether its input can be written, what has been sent, and the events to come; with the next
-- id, `ReadyProcess`.
pub record Ready : Type 0 where
  pub accepts : Bool
  pub sent : List Value
  pub events : List Event
  pub list_changed : Bool
  pub next_id : ℕ

-- The tools and the next cursor of a page.
abbrev pub tool_of : Value → Called Value
tool_of v =
    elim (is_some (as_object v >>? get "name" >>? as_str)
      && is_some (as_object v >>? get "inputSchema" >>? as_object)) [
        | true ↦ ok v
        | false ↦ err protocol
      ]

-- The loop over the tools of a page.
unfoldable pub take_tools : List Value → List Value → Called (List Value)
unfolding get
take_tools [] tools = ok tools
take_tools (v ∷ page) tools = tool_of v >>= λ tool.
    fail_if (ltb max_upstream_discovery_tools (length (tools ++ tool ∷ []))) message_limit >>= λ u.
    take_tools page (tools ++ tool ∷ [])

-- What follows a page: the next cursor, none at the end, and an error for one that is empty or was seen.
abbrev pub next_cursor : Map Value → List String → Called (Option String)
next_cursor entries seen = elim (get "nextCursor" entries) [
  | none ↦ ok none
  | some v ↦ ok_or (as_str v) protocol >>= λ cursor.
      fail_if (is_empty_text cursor || set_contains cursor seen) protocol >>= λ u. ok (some cursor)
]

abbrev pub params_of : Option String → Value
params_of none = of_map []
params_of (some cursor) = of_map (("cursor", string cursor) ∷ [])

abbrev pub list_request : ℕ → Option String → Value
list_request id cursor = of_map (
    ("id", number (int (pos id)))
    ∷ ("jsonrpc", string "2.0")
    ∷ ("method", string "tools/list")
    ∷ ("params", params_of cursor)
    ∷ [])

-- The tools so far and what follows.
unfoldable pub read_page : Value → List String → List Value → Called (List Value × Option String)
unfolding get set_contains bounded_json take_tools
read_page reply seen tools = bounded_json reply >>= λ bounded.
    ok_or (as_object bounded) protocol >>= λ entries.
    ok_or (get "tools" entries >>? as_array) protocol >>= λ page.
    take_tools page tools >>= λ taken. next_cursor entries seen >>= λ next. ok (taken, next)

-- `encoded_size` is the size of a message of rmcp as JSON, or none where it cannot be encoded.
module _ (encoded_size : Value → Option ℕ) (decode : List ℕ → Option Value) where
  abbrev pub write_sized : Option ℕ → Value → Ready → Called (Unit {0}) × Ready
  write_sized none request r =
      (err (runtime (runtime_error target_failed "upstream request could not be encoded")), r)
  write_sized (some size) request r =
      if ltb upstream_message_bytes (min usize_max (size + 1))
      then (
        err (
            runtime
              (runtime_error output_limit_exceeded "upstream message exceeded configured limit")),
        r,
      )
      else if r.accepts
      then (ok tt, record r { sent = r.sent ++ request ∷ [] })
      else (err (runtime (runtime_error target_failed "upstream request failed")), r)

  abbrev pub send_message : Value → Ready → Called (Unit {0}) × Ready
  send_message request r = write_sized (encoded_size request) request r

  abbrev pub after_send : ℕ → Called (Unit {0}) × Ready → Option (Called Value) × Ready
  after_send id (err e, r) = (some (err e), r)
  after_send id (ok u, r) =
      let (reply, rest, changed) = read_events decode id r.events r.list_changed in
      (reply, record r { events = rest; list_changed = changed })

  -- A request for a page, and its reply.
  unfoldable pub ask_page : Option String → Ready → Option (Called Value) × Ready
  unfolding read_events
  ask_page cursor r =
      let id = r.next_id in
      after_send id
        (send_message (list_request id cursor) (record r { next_id = min (2 ^ 64 - 1) (id + 1) }))

  abbrev pub Listing : Type 0
  Listing = Option (Called (List Value)) × Ready

  abbrev pub after_page :
      Called (List Value × Option String)
      → Ready
      → List String
      → (List String → List Value → Option String → Ready → Listing)
      → Listing
  after_page (err e) r seen more = (some (err e), r)
  after_page (ok (tools, none)) r seen more = (some (ok tools), r)
  after_page (ok (tools, some cursor)) r seen more =
      more (set_insert cursor seen) tools (some cursor) r

  abbrev pub after_ask :
      Option (Called Value) × Ready
      → List String
      → List Value
      → (List String → List Value → Option String → Ready → Listing)
      → Listing
  after_ask (none, r) seen tools more = (none, r)
  after_ask (some (err e), r) seen tools more = (some (err e), r)
  after_ask (some (ok reply), r) seen tools more =
      after_page (read_page reply seen tools) r seen more

  -- The loop, on the pages that are left of those that it may ask for.
  unfoldable pub list_pages : ℕ → List String → List Value → Option String → Ready → Listing
  unfolding ask_page read_page set_insert
  list_pages zero seen tools cursor r = (some (err message_limit), r)
  list_pages (suc left) seen tools cursor r =
      after_ask (ask_page cursor r) seen tools (list_pages left)

  unfoldable pub list_tools : Ready → Listing
  unfolding list_pages
  list_tools r = list_pages max_upstream_discovery_pages [] [] none r
