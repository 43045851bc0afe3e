-- ===== src/Boundary/Serve.antt =====
-- `serve_stdio` of crates/boundary/src/main.rs: the loop that reads lines and spawns a task for each, and
-- the tasks, which run in any order, also while the loop reads and after it has ended. `parse` is
-- serde_json's `from_slice`, and `cancel` what `cancellation.cancel()` changes in the world. A task runs
-- in one step: what other tasks do between two of its awaits is not modelled, nor are write errors.
pub mod Lines
pub mod Expected
pub mod Whole
pub mod Safe
pub mod Ends
use agent_capability_gate.Prelude.{
  ℕ, zero, suc, String, ◌≡◌, Bool, true, false, Option, none, some, List, [], ◌∷◌, ◌++◌, length,
  ltb, Result, ok, err, if◌then◌else◌,
}
use agent_capability_gate.Json.{Value}
use agent_capability_gate.Boundary.Framing.{
  BoundedMessage, complete, too_large, Reader, Reading, read_bounded_message,
}
use agent_capability_gate.Boundary.Limits.{request_within_limits}
use agent_capability_gate.Boundary.Handler.{Session, Context, write_error}
use agent_capability_gate.Boundary.Handler.Request.{handle_request}

-- What is spawned: an error response without an id, or the handler of a request.
pub data Task : Type 0 where
  refusal : (message : String) → Task
  handler : (request : Value) → Task

-- Whether the loop reads on, and from where, or why it has ended.
pub data Loop : Type 0 where
  reading : Reader → Loop
  at_end input_failed shut_down : Loop

-- The broker while it serves; a task that has ended is not among the pending ones.
pub record Broker (W : Type 0) : Type 0 where
  pub loop : Loop
  pub pending : List Task
  pub session : Session W
  pub cancelled : Bool
  pub task_failed : Bool

-- What `serve_stdio` returns.
abbrev pub exit_of : Bool → Loop → Result String Unit
exit_of true loop = err "request task failed"
exit_of false (reading reader) = ok tt
exit_of false at_end = ok tt
exit_of false input_failed = err "stdin read failed"
exit_of false shut_down = ok tt

module _ {W : Type 0} (c : Context W) (parse : List ℕ → Option Value) where
  -- What a task does; none if it panics.
  unfoldable pub run : Task → Session W → Option (Session W)
  unfolding handle_request
  run (refusal message) s = write_error c none message s
  run (handler request) s = handle_request c request s

  unfoldable pub task_of_request : Option Value → Task
  unfolding request_within_limits
  task_of_request none = refusal "invalid JSON request"
  task_of_request (some request) =
      if request_within_limits request 1 c.config.json_depth
      then handler request
      else refusal "request exceeds configured JSON limits"

  unfoldable pub task_of_line : List ℕ → Task
  unfolding task_of_request
  task_of_line line =
      if ltb c.config.request_bytes (length line)
      then refusal "request exceeds configured limit"
      else task_of_request (parse line)

  -- How a pass of the loop goes on, and what it spawns, by what it read.
  unfoldable pub pass : Reading → Loop × List Task
  unfolding task_of_line
  pass (err e) = (input_failed, [])
  pass (ok (none, rest)) = (at_end, [])
  pass (ok (some too_large, rest)) = (at_end, refusal "request exceeds configured limit" ∷ [])
  pass (ok (some (complete line), rest)) = (reading rest, task_of_line line ∷ [])

  -- The broker after a pass of the loop.
  unfoldable pub after_pass : Reader → Broker W → Broker W
  unfolding pass read_bounded_message
  after_pass reader b =
      let p = pass (read_bounded_message c.config.request_bytes reader) in
      record b { loop = p.0; pending = b.pending ++ p.1 }

  module _ (cancel : W → W) where
    -- A step of the broker: a pass of the loop, the shutdown signal that ends it, the cancellation behind
    -- it, or any pending task, to its end or to its panic, which the broker outlives.
    pub data Step : Broker W → Broker W → Type 0 where
      reads :
          (reader : Reader) (b : Broker W) → b.loop ≡ reading reader → Step b (after_pass reader b)
      shuts :
          (reader : Reader) (b : Broker W)
          → b.loop ≡ reading reader
          → Step b (record b { loop = shut_down })
      cancels :
          (b : Broker W)
          → ((reader : Reader) → ¬ (b.loop ≡ reading reader))
          → b.cancelled ≡ false
          → Step b (record b {
            session = record b.session { world = cancel b.session.world };
            cancelled = true;
          })
      runs :
          (before after : List Task) (task : Task) (t : Session W) (b : Broker W)
          → b.pending ≡ before ++ task ∷ after
          → run task b.session ≡ some t
          → Step b (record b { pending = before ++ after; session = t })
      panics :
          (before after : List Task) (task : Task) (b : Broker W)
          → b.pending ≡ before ++ task ∷ after
          → run task b.session ≡ none
          → Step b (record b { pending = before ++ after; task_failed = true })

    -- Runs of the broker, with the number of their steps.
    pub data Run : ℕ → Broker W → Broker W → Type 0 where
      here : {b : Broker W} → Run 0 b b
      next : {n : ℕ} {b d e : Broker W} → Run n b d → Step d e → Run (suc n) b e

abbrev pub started : {W : Type 0} → Reader → Session W → Broker W
started reader s = record {
  loop = reading reader;
  pending = [];
  session = s;
  cancelled = false;
  task_failed = false;
}
