-- ===== src/Runtime/Wire/Correlated.antt =====
-- What a reply is to the request that it is taken for.
use agent_capability_gate.Prelude.{
  ok-injective, ℕ, ◌≡◌, refl, ap, sym, ◌∙◌, subst, ◌==◌, Bool, true, false, not, ◌||◌, Option, none,
  some, List, [], ◌∷◌, ◌++◌, All, is_some, eqb, ok, err, if◌then◌else◌, Bool-cases, inl, inr, get,
}
use agent_capability_gate.Json.{Value, as_str, as_number, get_field, is_some_and, ◌>>?◌}
use agent_capability_gate.Json.Numbers.{as_u64}
use agent_capability_gate.Runtime.{Called, protocol}
use agent_capability_gate.Runtime.Wire.{
  StderrStatus, draining, done, overflow, failed, Event, Verdict, passed, stop, is_error_object,
  result_of, judge_message, judge_decoded, judge_read, judge, after_verdict, read_events,
}

-- The message is a response with that id and that result, and no error.
pub record Answers (id : ℕ) (m v : Value) : Type 0 where
  pub version : is_some_and (get_field "jsonrpc" m >>? as_str) (λ s. s == "2.0") ≡ true
  pub no_method : is_some (get_field "method" m) ≡ false
  pub same_id : is_some_and (get_field "id" m >>? as_number >>? as_u64) (λ n. eqb n id) ≡ true
  pub result : get_field "result" m ≡ some v
  pub no_error : get_field "error" m ≡ none

-- The message is a notification: it names a method and has no id.
pub record IsNotification (m : Value) : Type 0 where
  pub version : is_some_and (get_field "jsonrpc" m >>? as_str) (λ s. s == "2.0") ≡ true
  pub named : is_some (get_field "method" m) ≡ true
  pub no_id : is_some (get_field "id" m) ≡ false

abbrev pub IsHarmless : StderrStatus → Type 0
IsHarmless draining = Unit
IsHarmless done = Unit
IsHarmless overflow = ⊥
IsHarmless failed = ⊥

abbrev IsQuiet : (List ℕ → Option Value) → Option (Called (List ℕ)) → Type 0
IsQuiet decode none = Unit
IsQuiet decode (some (err e)) = ⊥
IsQuiet decode (some (ok line)) = (m : Value) × (decode line ≡ some m) × IsNotification m

-- The event is a change to a harmless status, or a notification that was read at one.
abbrev pub IsPassed : (List ℕ → Option Value) → Event → Type 0
IsPassed decode e = IsHarmless e.status × IsQuiet decode e.message

abbrev names_change : Value → Bool
names_change m =
    is_some_and (get_field "method" m >>? as_str) (λ s. s == "notifications/tools/list_changed")

abbrev announces_change : (List ℕ → Option Value) → Option (Called (List ℕ)) → Bool
announces_change decode none = false
announces_change decode (some (err e)) = false
announces_change decode (some (ok line)) = is_some_and (decode line) names_change

abbrev pub any_announced : (List ℕ → Option Value) → List Event → Bool
any_announced decode [] = false
any_announced decode (e ∷ es) = announces_change decode e.message || any_announced decode es

-- The event is a message that answers the request, read while the status of stderr is harmless.
abbrev pub IsReply : (List ℕ → Option Value) → ℕ → Event → Value → Type 0
IsReply decode id e v =
    (line : List ℕ) × (m : Value) × (e.message ≡ some (ok line))
    × (decode line ≡ some m)
    × IsHarmless e.status
    × Answers id m v

result_of-ok : (r e : Option Value) (v : Value) → result_of r e ≡ ok v → (r ≡ some v) × (e ≡ none)
result_of-ok (some r) none v h = (ap some (ok-injective h), refl)
result_of-ok (some r) (some e) v h = cc
result_of-ok none none v h = cc
result_of-ok none (some e) v h = elim (Bool-cases (is_error_object e)) [
  | inl object ↦ absurd (cc (rw object at h))
  | inr other ↦ absurd (cc (rw other at h))
]

judge_message-Answers : (id : ℕ) (m v : Value) → judge_message id m ≡ stop (ok v) → Answers id m v
unfolding judge_message get
judge_message-Answers id m v h =
    tested (is_some_and (get_field "jsonrpc" m >>? as_str) (λ s. s == "2.0"))
      (is_some (get_field "method" m)) (is_some (get_field "id" m)) _
      (is_some_and (get_field "id" m >>? as_number >>? as_u64) (λ n. eqb n id)) refl refl refl h
  where
    tested :
        (a b c d e : Bool)
        → is_some_and (get_field "jsonrpc" m >>? as_str) (λ s. s == "2.0") ≡ a
        → is_some (get_field "method" m) ≡ b
        → is_some_and (get_field "id" m >>? as_number >>? as_u64) (λ n. eqb n id) ≡ e
        → (if not a
            then stop (err protocol)
            else if b
            then (if c then stop (err protocol) else passed d)
            else if not e
            then stop (err protocol)
            else stop (result_of (get_field "result" m) (get_field "error" m)))
          ≡ stop (ok v)
        → Answers id m v
    tested true false c d true x y z h =
        let (r, e) = result_of-ok (get_field "result" m) (get_field "error" m) v (cc h) in
        record { version = x; no_method = y; same_id = z; result = r; no_error = e }
    tested true false c d false x y z h = cc
    tested true true true d e x y z h = cc
    tested true true false d e x y z h = cc
    tested false b c d e x y z h = cc

judge_message-IsNotification :
    (id : ℕ) (m : Value) (b : Bool)
    → judge_message id m ≡ passed b
    → IsNotification m × (b ≡ names_change m)
unfolding judge_message get
judge_message-IsNotification id m announces h =
    tested (is_some_and (get_field "jsonrpc" m >>? as_str) (λ s. s == "2.0"))
      (is_some (get_field "method" m)) (is_some (get_field "id" m))
      (is_some_and (get_field "id" m >>? as_number >>? as_u64) (λ n. eqb n id)) refl refl refl h
  where
    tested :
        (a b c e : Bool)
        → is_some_and (get_field "jsonrpc" m >>? as_str) (λ s. s == "2.0") ≡ a
        → is_some (get_field "method" m) ≡ b
        → is_some (get_field "id" m) ≡ c
        → (if not a
            then stop (err protocol)
            else if b
            then (if c then stop (err protocol) else passed (names_change m))
            else if not e
            then stop (err protocol)
            else stop (result_of (get_field "result" m) (get_field "error" m)))
          ≡ passed announces
        → IsNotification m × (announces ≡ names_change m)
    tested true true false e x y z h = (record { version = x; named = y; no_id = z }, cc)
    tested true true true e x y z h = cc
    tested true false c true x y z h = cc
    tested true false c false x y z h = cc
    tested false b c e x y z h = cc

module _ (decode : List ℕ → Option Value) (id : ℕ) where
  judge-IsReply : (e : Event) (v : Value) → judge decode id e ≡ stop (ok v) → IsReply decode id e v
  unfolding judge
  judge-IsReply e v h = by_message e.message e.status refl refl h
    where
      by_line :
          (line : List ℕ) (o : Option Value)
          → e.message ≡ some (ok line)
          → decode line ≡ o
          → IsHarmless e.status
          → judge_decoded decode id o ≡ stop (ok v)
          → IsReply decode id e v
      by_line line none here read harmless h = cc
      by_line line (some m) here read harmless h =
          (line, m, here, read, harmless, judge_message-Answers id m v h)

      by_message :
          (o : Option (Called (List ℕ))) (status : StderrStatus)
          → e.message ≡ o
          → e.status ≡ status
          → judge_read decode id status o ≡ stop (ok v)
          → IsReply decode id e v
      by_message none draining here seen h = cc
      by_message none done here seen h = cc
      by_message none overflow here seen h = cc
      by_message none failed here seen h = cc
      by_message (some (err x)) status here seen h = cc
      by_message (some (ok line)) draining here seen h =
          by_line line (decode line) here refl (subst IsHarmless (sym seen) tt) h
      by_message (some (ok line)) done here seen h =
          by_line line (decode line) here refl (subst IsHarmless (sym seen) tt) h
      by_message (some (ok line)) overflow here seen h = cc
      by_message (some (ok line)) failed here seen h = cc

  judge-IsPassed :
      (e : Event) (b : Bool)
      → judge decode id e ≡ passed b
      → IsPassed decode e × (b ≡ announces_change decode e.message)
  unfolding judge
  judge-IsPassed e b h = by_message e.message e.status h
    where
      by_line :
          (o : Option Value)
          → judge_decoded decode id o ≡ passed b
          → ((m : Value) × (o ≡ some m) × IsNotification m) × (b ≡ is_some_and o names_change)
      by_line none h = cc
      by_line (some m) h =
          let (notified, announced) = judge_message-IsNotification id m b h in
          ((m, refl, notified), announced)

      by_message :
          (o : Option (Called (List ℕ))) (status : StderrStatus)
          → judge_read decode id status o ≡ passed b
          → (IsHarmless status × IsQuiet decode o) × (b ≡ announces_change decode o)
      by_message none draining h = ((tt, tt), cc)
      by_message none done h = ((tt, tt), cc)
      by_message none overflow h = cc
      by_message none failed h = cc
      by_message (some (err x)) status h = cc
      by_message (some (ok line)) draining h =
          let (quiet, announced) = by_line (decode line) h in ((tt, quiet), announced)
      by_message (some (ok line)) done h =
          let (quiet, announced) = by_line (decode line) h in ((tt, quiet), announced)
      by_message (some (ok line)) overflow h = cc
      by_message (some (ok line)) failed h = cc

  -- What `read_reply` returns as a result, for every sequence of events, is the result of a response that
  -- was read completely, while stderr had neither overflowed nor failed, and has the request's id and no
  -- error; before it came only harmless changes of the status and notifications, which name a method and
  -- have no id, at such a status; the events behind it are left; and a change of the tools is remembered
  -- exactly if it was before, or one of those notifications is `notifications/tools/list_changed`.
  pub read_events-IsReply :
      (events rest : List Event) (changed changed' : Bool) (v : Value)
      → read_events decode id events changed ≡ (some (ok v), rest, changed')
      → (before : List Event) × (e : Event) × (events ≡ before ++ (e ∷ rest))
        × All (IsPassed decode) before
        × IsReply decode id e v
        × (changed' ≡ (changed || any_announced decode before))
  unfolding read_events
  read_events-IsReply [] rest changed changed' v h = absurd (cc h)
  read_events-IsReply (e ∷ events) rest changed changed' v h =
      by_verdict (judge decode id e) refl h
        (λ changed'' h'. read_events-IsReply events rest changed'' changed' v h')
    where
      or_false : (b : Bool) → b ≡ (b || false)
      or_false true = refl
      or_false false = refl

      or_assoc : (a b c : Bool) → ((a || b) || c) ≡ (a || (b || c))
      or_assoc true b c = refl
      or_assoc false b c = refl

      stopped :
          (r : Called Value)
          → ◌≡◌ {A = Option (Called Value) × List Event × Bool}
              (some r, events, changed)
              (some (ok v), rest, changed')
          → stop r ≡ stop (ok v)
      stopped r h = cc

      by_verdict :
          (w : Verdict)
          → judge decode id e ≡ w
          → after_verdict decode w events changed (read_events decode id events)
            ≡ (some (ok v), rest, changed')
          → ((b : Bool)
              → read_events decode id events b ≡ (some (ok v), rest, changed')
              → (before : List Event) × (e : Event) × (events ≡ before ++ (e ∷ rest))
                × All (IsPassed decode) before
                × IsReply decode id e v
                × (changed' ≡ (b || any_announced decode before)))
          → (before : List Event) × (f : Event) × (e ∷ events ≡ before ++ (f ∷ rest))
            × All (IsPassed decode) before
            × IsReply decode id f v
            × (changed' ≡ (changed || any_announced decode before))
      by_verdict (stop r) here h next = (
        [],
        e,
        ap (λ t. e ∷ t.1) h,
        tt,
        judge-IsReply e v (here ∙ stopped r h),
        sym (ap (λ t. t.2) h) ∙ or_false changed,
      )
      by_verdict (passed b) here h next =
          let (before, f, split, quiet, reply, remembered) = next (changed || b) h in
          let (harmless, announced) = judge-IsPassed e b here in
          (
            e ∷ before,
            f,
            ap (λ l. e ∷ l) split,
            (harmless, quiet),
            reply,
            remembered
                ∙ or_assoc changed b (any_announced decode before)
                ∙ ap (λ w. changed || (w || any_announced decode before)) announced,
          )
