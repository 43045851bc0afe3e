-- ===== src/Runtime/Session/Listed.antt =====
-- How much a listing of upstream tools takes, and what it gives.
use agent_capability_gate.Prelude.{
  set_insert, ◌-◌, ◌^◌, ℕ, zero, suc, ◌+◌, ◌≤◌, min, ◌≡◌, refl, sym, subst, String, Bool, true,
  false, ◌&&◌, Option, none, some, List, [], ◌∷◌, ◌++◌, All, All-join, length, length-append,
  is_some, ltb, get, ok, err, >>=-eq-ok, ok-injective, fail_if, fail_if-eq-ok, ok_or, Bool-cases,
  inl, inr, arith,
}
use agent_capability_gate.Json.{Value, as_str, as_object, as_array, ◌>>?◌}
use agent_capability_gate.Runtime.{
  Called, protocol, message_limit, upstream_message_bytes, max_upstream_discovery_tools,
}
use agent_capability_gate.Boundary.Framing.{usize_max}
use agent_capability_gate.Runtime.Results.{bounded_json}
use agent_capability_gate.Runtime.Session.{
  Ready, tool_of, take_tools, next_cursor, read_page, list_request, write_sized, send_message,
  after_send, ask_page, Listing, after_page, after_ask, list_pages, list_tools,
}

-- A definition with a name and an input schema.
abbrev pub IsUsable : Value → Type 0
IsUsable v =
    (is_some (as_object v >>? get "name" >>? as_str) ≡ true)
    × (is_some (as_object v >>? get "inputSchema" >>? as_object) ≡ true)

abbrev pub AreUsable : List Value → Type 0
AreUsable tools = (length tools ≤ 4096) × All IsUsable tools

-- A listing that succeeds is of usable definitions.
abbrev pub IsListing : Option (Called (List Value)) → Type 0
IsListing (some (ok tools)) = AreUsable tools
IsListing (some (err e)) = Unit
IsListing none = Unit

tool_of-IsUsable : (v tool : Value) → tool_of v ≡ ok tool → IsUsable tool
unfolding get
tool_of-IsUsable v tool h =
    tested (is_some (as_object v >>? get "name" >>? as_str))
      (is_some (as_object v >>? get "inputSchema" >>? as_object)) refl refl h
  where
    tested :
        (a b : Bool)
        → is_some (as_object v >>? get "name" >>? as_str) ≡ a
        → is_some (as_object v >>? get "inputSchema" >>? as_object) ≡ b
        → (elim (a && b) as (λ x. Called Value) [ true ↦ ok v | false ↦ err protocol ]) ≡ ok tool
        → IsUsable tool
    tested true true x y h = subst IsUsable (ok-injective h) (x, y)
    tested true false x y h = cc
    tested false b x y h = cc

take_tools-AreUsable :
    (page tools out : List Value) → AreUsable tools → take_tools page tools ≡ ok out → AreUsable out
unfolding take_tools
take_tools-AreUsable [] tools out good h = subst AreUsable (ok-injective h) good
take_tools-AreUsable (v ∷ page) tools out (few, good) h =
    let (tool, e, h1) = >>=-eq-ok (tool_of v) _ h in
    let (_, e1, h2) =
      >>=-eq-ok
        (fail_if (ltb max_upstream_discovery_tools (length (tools ++ tool ∷ []))) message_limit) _
        h1 in
    let within =
      fail_if-eq-ok (ltb max_upstream_discovery_tools (length (tools ++ tool ∷ []))) message_limit
        e1 in
    let still_few : length (tools ++ tool ∷ []) ≤ 4096 = ground arith in
    take_tools-AreUsable page (tools ++ tool ∷ []) out
      (still_few, All-join IsUsable tools (tool ∷ []) good (tool_of-IsUsable v tool e, tt)) h2

read_page-AreUsable :
    (reply : Value) (seen : List String) (tools : List Value) (out : List Value × Option String)
    → AreUsable tools
    → read_page reply seen tools ≡ ok out
    → AreUsable out.0
unfolding read_page
read_page-AreUsable reply seen tools out good h =
    let (bounded, _, h1) = >>=-eq-ok (bounded_json reply) _ h in
    let (entries, _, h2) = >>=-eq-ok (ok_or (as_object bounded) protocol) _ h1 in
    let (page, _, h3) = >>=-eq-ok (ok_or (get "tools" entries >>? as_array) protocol) _ h2 in
    let (taken, e, h4) = >>=-eq-ok (take_tools page tools) _ h3 in
    let (next, _, h5) = >>=-eq-ok (next_cursor entries seen) _ h4 in
    subst (λ o. AreUsable o.0) (ok-injective h5) (take_tools-AreUsable page tools taken good e)

module _ (encoded_size : Value → Option ℕ) (decode : List ℕ → Option Value) where
  write_sized-sent :
      (o : Option ℕ) (request : Value) (r : Ready)
      → length (write_sized encoded_size decode o request r).1.sent ≤ length r.sent + 1
  write_sized-sent none request r = omega arith
  write_sized-sent (some size) request r =
      elim (Bool-cases (ltb upstream_message_bytes (min usize_max (size + 1)))) [
        | inl large ↦ rw large (omega arith)
        | inr fits ↦ (elim (Bool-cases r.accepts) [
          | inl writes ↦
              (let grown : length (r.sent ++ request ∷ []) ≡ length r.sent + length (request ∷ []) =
                  length-append r.sent (request ∷ []) in
                rw (fits, writes) (omega arith))
          | inr closed ↦ rw (fits, closed) (omega arith)
        ])
      ]

  after_send-sent :
      (id : ℕ) (a : Called (Unit {0}) × Ready)
      → (after_send encoded_size decode id a).1.sent ≡ a.1.sent
  after_send-sent id (err e, r) = refl
  after_send-sent id (ok u, r) = refl

  ask_page-sent :
      (cursor : Option String) (r : Ready)
      → length (ask_page encoded_size decode cursor r).1.sent ≤ length r.sent + 1
  unfolding ask_page
  ask_page-sent cursor r =
      let next : Ready = record r { next_id = min (2 ^ 64 - 1) (r.next_id + 1) } in
      let request = list_request r.next_id cursor in
      subst (λ l. length l ≤ length r.sent + 1)
        (sym (after_send-sent r.next_id (send_message encoded_size decode request next)))
        (write_sized-sent (encoded_size request) request next)

  -- What a listing has sent beyond these messages, and what it gives.
  abbrev pub Within : ℕ → List Value → Listing encoded_size decode → Type 0
  Within n sent (o, r) = (length r.sent ≤ length sent + n) × IsListing o

  after_page-Within :
      (left : ℕ) (sent : List Value) (reply : Value) (seen : List String) (tools : List Value)
      (o : Called (List Value × Option String)) (r : Ready)
      → AreUsable tools
      → read_page reply seen tools ≡ o
      → length r.sent ≤ length sent + 1
      → ((seen' : List String) (taken : List Value) (cursor : Option String)
          → AreUsable taken
          → Within left r.sent (list_pages encoded_size decode left seen' taken cursor r))
      → Within
          (suc left)
          sent
          (after_page encoded_size decode o r seen (list_pages encoded_size decode left))
  after_page-Within left sent reply seen tools (err e) r good here few next = (omega arith, tt)
  after_page-Within left sent reply seen tools (ok (taken, none)) r good here few next =
      (omega arith, read_page-AreUsable reply seen tools (taken, none) good here)
  after_page-Within left sent reply seen tools (ok (taken, some cursor)) r good here few next =
      let usable = read_page-AreUsable reply seen tools (taken, some cursor) good here in
      let (still_few, listed) = next (set_insert cursor seen) taken (some cursor) usable in
      (omega arith, listed)

  after_ask-Within :
      (left : ℕ) (sent : List Value) (seen : List String) (tools : List Value)
      (a : Option (Called Value) × Ready)
      → AreUsable tools
      → length a.1.sent ≤ length sent + 1
      → ((seen' : List String) (taken : List Value) (cursor : Option String)
          → AreUsable taken
          → Within left a.1.sent (list_pages encoded_size decode left seen' taken cursor a.1))
      → Within
          (suc left)
          sent
          (after_ask encoded_size decode a seen tools (list_pages encoded_size decode left))
  after_ask-Within left sent seen tools (none, r) good few next = (omega arith, tt)
  after_ask-Within left sent seen tools (some (err e), r) good few next = (omega arith, tt)
  after_ask-Within left sent seen tools (some (ok reply), r) good few next =
      after_page-Within left sent reply seen tools (read_page reply seen tools) r good refl few next

  list_pages-Within :
      (left : ℕ) (seen : List String) (tools : List Value) (cursor : Option String) (r : Ready)
      → AreUsable tools
      → Within left r.sent (list_pages encoded_size decode left seen tools cursor r)
  unfolding list_pages
  list_pages-Within zero seen tools cursor r good = (omega arith, tt)
  list_pages-Within (suc left) seen tools cursor r good =
      after_ask-Within left r.sent seen tools (ask_page encoded_size decode cursor r) good
        (ask_page-sent cursor r)
        (λ seen' taken cursor' usable.
          list_pages-Within left seen' taken cursor' (ask_page encoded_size decode cursor r).1
            usable)

  -- For every session and whatever the upstream server sends: `list_tools` sends at most 16 requests, and
  -- where it succeeds, it gives at most 4096 definitions, each with a name and an input schema.
  pub list_tools-Within : (r : Ready) → Within 16 r.sent (list_tools encoded_size decode r)
  unfolding list_tools
  list_tools-Within r = list_pages-Within 16 [] [] none r (omega arith, tt)
