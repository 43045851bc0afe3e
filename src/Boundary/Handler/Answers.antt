-- ===== src/Boundary/Handler/Answers.antt =====
-- Each request is answered once.
pub mod Calls
pub mod Once
use agent_capability_gate.Prelude.{
  append_nil, String, ◌==◌, ◌≡◌, refl, sym, ap, ◌∙◌, Bool, true, false, not, Option, none, some,
  List, [], ◌∷◌, ◌++◌, Map, get, is_some, Result, ok, err, or_default, if◌then◌else◌, Bool-cases,
  Option-cases, inl, inr,
}
use agent_capability_gate.Json.{Value, as_str, get_field, of_map, ◌>>?◌}
use agent_capability_gate.Diagnostics.{BrokerErrorCode, as_text}
use agent_capability_gate.Faults.{Fault, rejected, panicked, NoPanic}
use agent_capability_gate.Boundary.Messages.{
  PublicRevision, Message, reply, failure, list_changed, is_busy, write_tool_error,
  write_v3_tool_error, write_runtime_error, write_execution_result, write_outcome,
}
use agent_capability_gate.Catalog.Outside.{Outside, ExecutionResult, RuntimeError}
use agent_capability_gate.Boundary.Handler.Call.{refused}
use agent_capability_gate.Boundary.Handler.{Session, Context, write, write_if_changed}

-- The ids of the messages that answer a request, in order.
abbrev pub answered : List Message → List (Option Value)
answered [] = []
answered (reply id result ∷ ms) = id ∷ answered ms
answered (failure id code message ∷ ms) = id ∷ answered ms
answered (list_changed ∷ ms) = answered ms

pub answered-append : (xs ys : List Message) → answered (xs ++ ys) ≡ answered xs ++ answered ys
answered-append [] ys = refl
answered-append (reply id result ∷ xs) ys = ap (λ l. id ∷ l) (answered-append xs ys)
answered-append (failure id code message ∷ xs) ys = ap (λ l. id ∷ l) (answered-append xs ys)
answered-append (list_changed ∷ xs) ys = answered-append xs ys

-- The message answers the request with that id.
abbrev pub Answering : Option Value → Message → Type 0
Answering id m = answered (m ∷ []) ≡ id ∷ []

pub write_tool_error-Answering :
    (id : Option Value) (code message : String) (revision : PublicRevision)
    → Answering id (write_tool_error id code message revision)
unfolding write_tool_error
write_tool_error-Answering id code message revision = refl

pub write_v3_tool_error-Answering :
    (id : Option Value) (code message : String) (details : Value) (revision : PublicRevision)
    → Answering id (write_v3_tool_error id code message details revision)
unfolding write_v3_tool_error
write_v3_tool_error-Answering id code message details revision = refl

pub write_outcome-Answering :
    (id : Option Value) (r : Result RuntimeError ExecutionResult) (revision : PublicRevision)
    → Answering id (write_outcome id r revision)
unfolding write_outcome write_execution_result write_runtime_error write_tool_error
write_outcome-Answering id (ok result) revision = elim (Bool-cases result.is_error) [
  | inl failed ↦ rw failed refl
  | inr done ↦ rw done refl
]
write_outcome-Answering id (err error) revision = elim (Bool-cases (is_busy error.code)) [
  | inl busy ↦ rw busy refl
  | inr other ↦ rw other refl
]

-- What stays the same between a request and its answer: the answers so far, and whether there is a catalog.
abbrev pub Quiet : {W : Type 0} → Session W → Session W → Type 0
Quiet s t = (answered t.written ≡ answered s.written) × (is_some t.catalog ≡ is_some s.catalog)

-- The request with that id is answered once, after the answers so far.
abbrev pub AnsweredOnce : {W : Type 0} → Option Value → Session W → Option (Session W) → Type 0
AnsweredOnce id s r =
    (out : Session _) × (r ≡ some out)
    × (answered out.written ≡ answered s.written ++ id ∷ [])
    × (is_some out.catalog ≡ is_some s.catalog)

module _ {W : Type 0} (c : Context W) where
  written_once :
      (id : Option Value) (m : Message) (s t : Session W)
      → Quiet s t
      → Answering id m
      → answered (write c m t).written ≡ answered s.written ++ id ∷ []
  written_once id m s t (same, kept) here =
      answered-append t.written (m ∷ [])
      ∙ ap (λ l. answered t.written ++ l) here
      ∙ ap (λ l. l ++ id ∷ []) same

  pub written-AnsweredOnce :
      (id : Option Value) (m : Message) (s t : Session W)
      → Quiet s t
      → Answering id m
      → AnsweredOnce id s (some (write c m t))
  written-AnsweredOnce id m s t (same, kept) here =
      (write c m t, refl, written_once id m s t (same, kept) here, kept)

  pub write_if_changed-Quiet :
      (changed : Bool) (s t : Session W) → Quiet s t → Quiet s (write_if_changed c changed t)
  write_if_changed-Quiet false s t q = q
  write_if_changed-Quiet true s t (same, kept) =
      (answered-append t.written (list_changed ∷ []) ∙ append_nil (answered t.written) ∙ same, kept)

  -- A notice may follow the answer.
  pub noticed-AnsweredOnce :
      (id : Option Value) (m : Message) (changed : Bool) (s t : Session W)
      → Quiet s t
      → Answering id m
      → AnsweredOnce id s (some (write_if_changed c changed (write c m t)))
  noticed-AnsweredOnce id m changed s t quiet here =
      let (same, kept) = write_if_changed-Quiet changed (write c m t) (write c m t) (refl, refl) in
      (
        write_if_changed c changed (write c m t),
        refl,
        same ∙ written_once id m s t quiet here,
        kept ∙ quiet.1,
      )

  pub AnsweredOnce-after :
      (id : Option Value) (s t : Session W) (r : Option (Session W))
      → Quiet s t
      → AnsweredOnce id t r
      → AnsweredOnce id s r
  AnsweredOnce-after id s t r (same, kept) (out, e, a, b) =
      (out, e, a ∙ ap (λ l. l ++ id ∷ []) same, b ∙ kept)

  -- A resolution that does not panic ends in an answer if the execution does.
  pub refused-AnsweredOnce :
      {A : Type 0} (id : Option Value) (r : Result Fault A) (go : A → Option (Session W))
      (s : Session W)
      → NoPanic r
      → ((a : A) → r ≡ ok a → AnsweredOnce id s (go a))
      → AnsweredOnce id s (refused c id r go s)
  refused-AnsweredOnce id (ok a) go s safe later = later a refl
  refused-AnsweredOnce id (err (rejected d)) go s safe later =
      written-AnsweredOnce id _ s s (refl, refl)
        (write_tool_error-Answering id _ d.message s.revision)
  refused-AnsweredOnce id (err panicked) go s safe later = absurd safe
