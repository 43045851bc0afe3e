-- ===== src/Boundary/Handler/Answers/Once.antt =====
-- Each request is answered once, by the handler as a whole.
use agent_capability_gate.Prelude.{
  append_nil, String, ◌==◌, ◌≡◌, refl, sym, ◌∙◌, subst, eq_iff, Bool, true, false, not, ◌&&◌,
  Option, none, some, List, [], ◌∷◌, ◌++◌, is_some, if◌then◌else◌, Bool-cases, inl, inr,
}
use agent_capability_gate.Json.{Value, as_str, get_field, ◌>>?◌}
use agent_capability_gate.Raw.Validate.WellFormed.{WellFormed}
use agent_capability_gate.Catalog.V2Operations.{V2Operations}
use agent_capability_gate.Catalog.V3.{CatalogState}
use agent_capability_gate.Catalog.V3.Refresh.{refresh_all}
use agent_capability_gate.Boundary.Envelope.{validate_envelope, validate_params}
use agent_capability_gate.Boundary.Messages.{PublicRevision, reply}
use agent_capability_gate.Boundary.Handler.{
  Session, Context, write_error, greet, greet_selected, selected, handle_initialize,
  handle_discover, handle_initialized, list_tools, handle_list,
}
use agent_capability_gate.Boundary.Handler.Call.{handle_call}
use agent_capability_gate.Boundary.Handler.Request.{
  handle_method, method_of, params_of, checked_params, checked_envelope, handle_request,
}
use agent_capability_gate.Boundary.Handler.Answers.{
  answered, AnsweredOnce, written-AnsweredOnce, noticed-AnsweredOnce,
}
use agent_capability_gate.Boundary.Handler.Answers.Calls.{Served, handle_call-AnsweredOnce}

-- A notification that is handled is not answered.
abbrev silent : Option Value → String → Bool
silent id method = not (is_some id) && method == "notifications/initialized"

abbrev ids_of : Option Value → String → List (Option Value)
ids_of id method = if silent id method then [] else id ∷ []

-- The ids of the answers that a request is to get: its own, or none for an accepted
-- `notifications/initialized` without an id.
abbrev pub expected : Value → List (Option Value)
expected request =
    if not (is_some (validate_envelope request))
      && not (is_some (validate_params (method_of request) (params_of request)))
    then ids_of (get_field "id" request) (method_of request)
    else get_field "id" request ∷ []

-- The answers with these ids are written after those so far.
abbrev pub Answered : {W : Type 0} → List (Option Value) → Session W → Option (Session W) → Type 0
Answered ids s r =
    (out : Session _) × (r ≡ some out)
    × (answered out.written ≡ answered s.written ++ ids)
    × (is_some out.catalog ≡ is_some s.catalog)

another : (m a b : String) → (m == a) ≡ true → (a == b) ≡ false → (m == b) ≡ false
another m a b here other = subst (λ x. (x == b) ≡ false) (sym ((eq_iff m a).0 here)) other

module _ {W : Type 0} (c : Context W) where
  greet-AnsweredOnce :
      (id : Option Value) (revision : PublicRevision) (s : Session W)
      → AnsweredOnce id s (greet c id revision s)
  greet-AnsweredOnce id revision s =
      written-AnsweredOnce c id _ s (record s { revision = revision }) (refl, refl) refl

  handle_initialize-AnsweredOnce :
      (id : Option Value) (params : Value) (s : Session W)
      → AnsweredOnce id s (handle_initialize c id params s)
  unfolding handle_initialize
  handle_initialize-AnsweredOnce none params s = written-AnsweredOnce c none _ s s (refl, refl) refl
  handle_initialize-AnsweredOnce (some id) params s =
      by_revision (selected c (get_field "protocolVersion" params >>? as_str))
    where
      by_revision :
          (o : Option PublicRevision) → AnsweredOnce (some id) s (greet_selected c (some id) o s)
      by_revision none = written-AnsweredOnce c (some id) _ s s (refl, refl) refl
      by_revision (some revision) = greet-AnsweredOnce (some id) revision s

  handle_discover-AnsweredOnce :
      (id : Option Value) (s : Session W) → AnsweredOnce id s (handle_discover c id s)
  unfolding handle_discover
  handle_discover-AnsweredOnce none s = written-AnsweredOnce c none _ s s (refl, refl) refl
  handle_discover-AnsweredOnce (some id) s = greet-AnsweredOnce (some id) _ s

  handle_initialized-Answered :
      (id : Option Value) (s : Session W)
      → Answered (if is_some id then id ∷ [] else []) s (handle_initialized c id s)
  unfolding handle_initialized
  handle_initialized-Answered none s = (s, refl, sym (append_nil (answered s.written)), refl)
  handle_initialized-Answered (some id) s = written-AnsweredOnce c (some id) _ s s (refl, refl) refl

  list_tools-AnsweredOnce :
      (id : Option Value) (v2 : Option (V2Operations W)) (catalog : Option CatalogState)
      (s : Session W)
      → is_some s.catalog ≡ is_some catalog
      → AnsweredOnce id s (some (list_tools c id v2 catalog s))
  unfolding list_tools
  list_tools-AnsweredOnce id (some v2) catalog s same =
      let r = v2.refresh_all s.world in
      noticed-AnsweredOnce c id (reply id (v2.list_json r.1)) r.0 s (record s { world = r.1 })
        (refl, refl) refl
  list_tools-AnsweredOnce id none (some catalog) s same =
      let r = refresh_all c.engine c.outside c.config catalog s.world in
      noticed-AnsweredOnce c id (reply id r.1.response) r.1.changed s
        (record s { catalog = some r.0; world = r.2 }) (refl, sym same) refl
  list_tools-AnsweredOnce id none none s same = written-AnsweredOnce c id _ s s (refl, refl) refl

  handle_list-AnsweredOnce :
      (id : Option Value) (params : Value) (s : Session W)
      → AnsweredOnce id s (handle_list c id params s)
  unfolding handle_list
  handle_list-AnsweredOnce none params s = written-AnsweredOnce c none _ s s (refl, refl) refl
  handle_list-AnsweredOnce (some id) params s =
      elim (Bool-cases (is_some (get_field "cursor" params))) [
        | inl paged ↦ rw paged (written-AnsweredOnce c (some id) _ s s (refl, refl) refl)
        | inr all_of_it ↦ rw all_of_it (list_tools-AnsweredOnce (some id) c.v2 s.catalog s refl)
      ]

  -- Another method than the notification is answered with the id.
  loud :
      (id : Option Value) (method : String) (s : Session W) (r : Option (Session W))
      → (method == "notifications/initialized") ≡ false
      → AnsweredOnce id s r
      → Answered (ids_of id method) s r
  loud id method s r other once =
      subst (λ ids. Answered ids s r)
        (sym (named (is_some id) (method == "notifications/initialized") other)) once
    where
      named : (a b : Bool) → b ≡ false → (if not a && b then [] else id ∷ []) ≡ id ∷ []
      named true b h = refl
      named false b h = rw h refl

  notified :
      (id : Option Value) (method : String) (s : Session W)
      → (method == "notifications/initialized") ≡ true
      → Answered (ids_of id method) s (handle_initialized c id s)
  notified none method s here = rw here (handle_initialized-Answered none s)
  notified (some id) method s here = handle_initialized-Answered (some id) s

  handle_method-Answered :
      (id : Option Value) (method : String) (params : Value) (s : Session W)
      → WellFormed c.config
      → Served c s
      → Answered (ids_of id method) s (handle_method c id method params s)
  unfolding handle_method
  handle_method-Answered id method params s well served =
      routed (method == "initialize") (method == "server/discover")
        (method == "notifications/initialized") (λ a. another method "initialize" _ a refl)
        (λ b. another method "server/discover" _ b refl) refl
    where
      rest :
          (list call : Bool)
          → AnsweredOnce id s (
              if list
              then handle_list c id params s
              else if call
              then handle_call c id params s
              else write_error c id "unsupported method" s)
      rest true call = handle_list-AnsweredOnce id params s
      rest false true = handle_call-AnsweredOnce c id params s well served
      rest false false = written-AnsweredOnce c id _ s s (refl, refl) refl

      routed :
          (initialize discover initialized : Bool)
          → (initialize ≡ true → (method == "notifications/initialized") ≡ false)
          → (discover ≡ true → (method == "notifications/initialized") ≡ false)
          → (method == "notifications/initialized") ≡ initialized
          → Answered (ids_of id method) s (
              if initialize
              then handle_initialize c id params s
              else if discover
              then handle_discover c id s
              else if initialized
              then handle_initialized c id s
              else if method == "tools/list"
              then handle_list c id params s
              else if method == "tools/call"
              then handle_call c id params s
              else write_error c id "unsupported method" s)
      routed true b n not_a not_b e =
          loud id method s _ (not_a refl) (handle_initialize-AnsweredOnce id params s)
      routed false true n not_a not_b e =
          loud id method s _ (not_b refl) (handle_discover-AnsweredOnce id s)
      routed false false true not_a not_b e = notified id method s e
      routed false false false not_a not_b e =
          loud id method s _ e (rest (method == "tools/list") (method == "tools/call"))

  checked-Answered :
      (envelope params : Option String) (request : Value) (s : Session W)
      → WellFormed c.config
      → Served c s
      → params ≡ validate_params (method_of request) (params_of request)
      → Answered
          (if not (is_some envelope) && not (is_some params)
            then ids_of (get_field "id" request) (method_of request)
            else get_field "id" request ∷ [])
          s
          (checked_envelope c envelope request s)
  checked-Answered (some message) params request s well served e =
      written-AnsweredOnce c _ _ s s (refl, refl) refl
  checked-Answered none (some message) request s well served e =
      subst
        (λ o.
          AnsweredOnce (get_field "id" request) s
            (checked_params c o (get_field "id" request) (method_of request) (params_of request) s))
        e (written-AnsweredOnce c _ _ s s (refl, refl) refl)
  checked-Answered none none request s well served e =
      subst
        (λ o.
          Answered (ids_of (get_field "id" request) (method_of request)) s
            (checked_params c o (get_field "id" request) (method_of request) (params_of request) s))
        e
        (handle_method-Answered (get_field "id" request) (method_of request) (params_of request) s
          well served)

  -- Over a well-formed configuration, with the catalog of the configuration's version: `handle_request`
  -- ends, for every request and whatever upstream servers, commands and caches do, and it has written
  -- exactly one answer with the id of the request, a result or an error, after those before; only an
  -- accepted `notifications/initialized` without an id gets none. The catalogs are there afterwards as before.
  pub handle_request-Answered :
      (request : Value) (s : Session W)
      → WellFormed c.config
      → Served c s
      → (out : Session W) × (handle_request c request s ≡ some out)
        × (answered out.written ≡ answered s.written ++ expected request)
        × Served c out
  unfolding handle_request
  handle_request-Answered request s well served =
      let (out, e, written, kept) =
        checked-Answered (validate_envelope request) _ request s well served refl in
      (out, e, written, (served.0, kept ∙ served.1))
