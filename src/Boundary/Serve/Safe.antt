-- ===== src/Boundary/Serve/Safe.antt =====
-- What `serve_stdio` executes, in every order in which the tasks may run.
use agent_capability_gate.Prelude.{ℕ, ◌≡◌, refl, sym, ◌∙◌, subst, false, Option, some, List}
use agent_capability_gate.Json.{Value}
use agent_capability_gate.Raw.Validate.WellFormed.{WellFormed}
use agent_capability_gate.Boundary.Framing.{Reader}
use agent_capability_gate.Boundary.Handler.{Session, Context}
use agent_capability_gate.Boundary.Handler.Answers.Calls.{Served}
use agent_capability_gate.Boundary.Handler.Permitted.Guard.{Guarded, Sound}
use agent_capability_gate.Boundary.Handler.Permitted.{handle_request-Sound}
use agent_capability_gate.Boundary.Serve.{
  Task, refusal, handler, Broker, run, Step, reads, shuts, cancels, runs, panics, Run, here, next,
  started, after_pass,
}

module _ {W : Type 0} (c : Context W) (parse : List ℕ → Option Value) (cancel : W → W)
    (I : W → Type 0) (well : WellFormed c.config) (g : Guarded c I)
    (keeps : (w : W) → I w → I (cancel w)) where
  abbrev Leaves : Option (Session W) → Type 0
  Leaves r = (out : Session W) × (r ≡ some out) × Served c out × Sound c I well g out

  -- The session is sound, and no task has panicked.
  abbrev pub Safe : Broker W → Type 0
  Safe b = Served c b.session × Sound c I well g b.session × (b.task_failed ≡ false)

  run-Leaves :
      (task : Task) (s : Session W) → Served c s → Sound c I well g s → Leaves (run c parse task s)
  unfolding run
  run-Leaves (refusal message) s served h = (_, refl, served, h)
  run-Leaves (handler request) s served h = handle_request-Sound c I well g request s served h

  Step-Safe : {b d : Broker W} → Step c parse cancel b d → Safe b → Safe d
  unfolding after_pass
  Step-Safe (reads reader b at) h = h
  Step-Safe (shuts reader b at) h = h
  Step-Safe (cancels b over first) (served, (held, faithful), none_failed) =
      (served, (keeps b.session.world held, faithful), none_failed)
  Step-Safe (runs before after task t b there done) (served, h, none_failed) =
      let (out, e, served', h') = run-Leaves task b.session served h in
      let same : out ≡ t = cc (sym e ∙ done) in
      (subst (Served c) same served', subst (Sound c I well g) same h', none_failed)
  Step-Safe (panics before after task b there done) (served, h, none_failed) =
      let (out, e, _, _) = run-Leaves task b.session served h in absurd (cc (sym done ∙ e))

  Run-Safe : {n : ℕ} {b d : Broker W} → Run c parse cancel n b d → Safe b → Safe d
  Run-Safe here h = h
  Run-Safe (next r st) h = Step-Safe st (Run-Safe r h)

  -- Over a well-formed configuration with the catalog of its version, for every reader, its errors included,
  -- and every property of the world that all but executions keep, the cancellation included, and that
  -- executions of permitted invocations and resolved commands keep: in every state that the broker
  -- reaches, in whatever order tasks run, each in one step, between each other, the passes of the loop, the shutdown
  -- signal and the cancellation, the property holds of the world, what the catalog lists as ready was
  -- derived, and no task has panicked.
  pub serve_stdio-Sound :
      {n : ℕ} {d : Broker W} (reader : Reader) (s : Session W)
      → Served c s
      → Sound c I well g s
      → Run c parse cancel n (started reader s) d
      → Safe d
  serve_stdio-Sound reader s served h r = Run-Safe r (served, h, refl)
