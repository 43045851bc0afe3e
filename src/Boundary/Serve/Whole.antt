-- ===== src/Boundary/Serve/Whole.antt =====
-- Which answers `serve_stdio` has written, in every order in which the tasks may run.
use agent_capability_gate.Prelude.{
  ℕ, ◌+◌, ◌≤◌, ◌≡◌, refl, ap, sym, ◌∙◌, subst, Bool, false, Option, some, List, [], ◌∷◌, ◌++◌,
  append_nil, append_assoc, ok, arith,
}
use agent_capability_gate.Json.{Value}
use agent_capability_gate.Raw.Validate.WellFormed.{WellFormed}
use agent_capability_gate.Boundary.Framing.{Reader, usize_max}
use agent_capability_gate.Boundary.Framing.Chunks.{stream, Filled}
use agent_capability_gate.Boundary.Handler.{Session, Context}
use agent_capability_gate.Boundary.Handler.Answers.{answered, answered-append}
use agent_capability_gate.Boundary.Handler.Answers.Calls.{Served}
use agent_capability_gate.Boundary.Handler.Answers.Once.{handle_request-Answered}
use agent_capability_gate.Boundary.Serve.{
  Task, refusal, handler, Loop, reading, at_end, input_failed, shut_down, Broker, exit_of, run,
  Step, reads, shuts, cancels, runs, panics, Run, here, next, started, after_pass,
}
use agent_capability_gate.Boundary.Serve.Lines.{lines_of, tasks_of, Still, pass-Advanced}
use agent_capability_gate.Boundary.Serve.Expected.{
  count, count-append, expected_task, expected_tasks, count-tasks, spawns_more, expected_lines,
  expected-tasks_of,
}

module _ {W : Type 0} (c : Context W) (parse : List ℕ → Option Value) (cancel : W → W) where
  pub run-Answered :
      (task : Task) (s : Session W)
      → WellFormed c.config
      → Served c s
      → (out : Session W) × (run c parse task s ≡ some out)
        × (answered out.written ≡ answered s.written ++ expected_task task)
        × Served c out
  unfolding run
  run-Answered (refusal message) s well served = (_, refl, answered-append s.written _, served)
  run-Answered (handler request) s well served = handle_request-Answered c request s well served

  -- Each answer of each spawned task is written already or by a task that is pending.
  abbrev pub Balanced : Session W → List Task → Broker W → Type 0
  Balanced s spawned b =
      (p : Option Value → Bool)
      → count p (answered b.session.written) + count p (expected_tasks b.pending)
        ≡ count p (answered s.written) + count p (expected_tasks spawned)

  -- The tasks of the lines are those that were spawned and those that are still to spawn.
  abbrev pub Accounted : List (List ℕ) → Session W → Broker W → Type 0
  Accounted lines s b =
      (spawned : List Task) × (unread : List Task) × (tasks_of c parse lines ≡ spawned ++ unread)
      × Still c parse b.loop unread
      × Balanced s spawned b

  abbrev Serving : List (List ℕ) → Session W → Broker W → Type 0
  Serving lines s b = Accounted lines s b × Served c b.session × (b.task_failed ≡ false)

  module _ (well : WellFormed c.config) (lines : List (List ℕ)) (s : Session W) where
    answers_one :
        (p : Option Value → Bool) (before after : List Task) (task : Task) (t : Session W)
        (b : Broker W)
        → b.pending ≡ before ++ task ∷ after
        → answered t.written ≡ answered b.session.written ++ expected_task task
        → count p (answered t.written) + count p (expected_tasks (before ++ after))
          ≡ count p (answered b.session.written) + count p (expected_tasks b.pending)
    answers_one p before after task t b there written =
        let a = ap (count p) written ∙ count-append p (answered b.session.written) _ in
        let d = count-tasks p before after in
        let e = ap (λ l. count p (expected_tasks l)) there ∙ count-tasks p before (task ∷ after) in
        let f = count-append p (expected_task task) (expected_tasks after) in omega arith

    Step-Serving :
        {b d : Broker W} → Step c parse cancel b d → Serving lines s b → Serving lines s d
    unfolding after_pass
    Step-Serving (reads reader b at)
          ((spawned, unread, split, still, balanced), served, none_failed) =
        let (filled, e) = subst (λ l. Still c parse l unread) at still in
        let (least, most) = well.request_range in
        let limits : c.config.request_bytes ≤ usize_max = omega arith in
        let (later, split', still', _) = pass-Advanced c parse reader limits filled in
        (
          (
            spawned ++ _,
            later,
            split ∙ ap (λ l. spawned ++ l) (e ∙ split') ∙ sym (append_assoc spawned _ later),
            still',
            (λ p. spawns_more p b.pending spawned _ _ _ (balanced p)),
          ),
          served,
          none_failed,
        )
    Step-Serving (shuts reader b at)
          ((spawned, unread, split, still, balanced), served, none_failed) =
        ((spawned, unread, split, tt, balanced), served, none_failed)
    Step-Serving (cancels b over first) h = h
    Step-Serving (runs before after task t b there done)
          ((spawned, unread, split, still, balanced), served, none_failed) =
        let (out, e, written, kept) = run-Answered task b.session well served in
        let same : out ≡ t = cc (sym e ∙ done) in
        let written' =
          subst (λ o. answered o.written ≡ answered b.session.written ++ expected_task task) same
            written in
        (
          (
            spawned,
            unread,
            split,
            still,
            (λ p. answers_one p before after task t b there written' ∙ balanced p),
          ),
          subst (Served c) same kept,
          none_failed,
        )
    Step-Serving (panics before after task b there done) (h, served, none_failed) =
        let (out, e, _, _) = run-Answered task b.session well served in absurd (cc (sym done ∙ e))

    pub Run-Serving :
        {n : ℕ} {b d : Broker W} → Run c parse cancel n b d → Serving lines s b → Serving lines s d
    Run-Serving here h = h
    Run-Serving (next r st) h = Step-Serving st (Run-Serving r h)

  Still-exits :
      (loop : Loop) (unread : List Task) → Still c parse loop unread → exit_of false loop ≡ ok tt
  Still-exits (reading reader) unread h = refl
  Still-exits at_end unread h = refl
  Still-exits input_failed unread h = absurd h
  Still-exits shut_down unread h = refl

  started-Serving :
      (reader : Reader) (s : Session W)
      → Served c s
      → Filled reader
      → Serving (lines_of (stream reader)) s (started reader s)
  started-Serving reader s served f =
      (([], tasks_of c parse (lines_of (stream reader)), refl, (f, refl), λ p. refl), served, refl)

  -- Over a well-formed configuration with the catalog of its version, and an input whose buffers are not
  -- empty and not errors: in every state that the broker reaches, in whatever order tasks run, each in one
  -- step, between each other, the passes of the loop, the shutdown signal and the cancellation, the tasks
  -- of the lines, up to the first that is too long, are those that were spawned and then those not read
  -- yet, of which there are none if the loop ended at the end of the input. And the answers that have been
  -- written since the start and those that pending tasks are to write are together the answers to the
  -- spawned tasks: each id is as often among the former as among the latter. The answers to the tasks of
  -- all lines are one for each line, with the id of its request, or without an id for a line that is too
  -- long or no request within the limits; only accepted notifications get none. No task has panicked,
  -- and what `serve_stdio` returns is no error.
  pub serve_stdio-Answered :
      {n : ℕ} {d : Broker W} (reader : Reader) (s : Session W)
      → WellFormed c.config
      → Served c s
      → Filled reader
      → Run c parse cancel n (started reader s) d
      → Accounted (lines_of (stream reader)) s d
        × (expected_tasks (tasks_of c parse (lines_of (stream reader)))
            ≡ expected_lines c parse (lines_of (stream reader)))
        × (exit_of d.task_failed d.loop ≡ ok tt)
  serve_stdio-Answered {d = d} reader s well served f r =
      let ((spawned, unread, split, still, balanced), _, none_failed) =
        Run-Serving well (lines_of (stream reader)) s r (started-Serving reader s served f) in
      (
        (spawned, unread, split, still, balanced),
        expected-tasks_of c parse (lines_of (stream reader)),
        ap (λ failed. exit_of failed d.loop) none_failed ∙ Still-exits d.loop unread still,
      )

  -- Over a well-formed configuration with the catalog of its version, and an input whose buffers are not
  -- empty and not errors, with tasks that each run in one step: when the loop has ended at the end of the
  -- input and no task is pending, each line up to the first that is too long has been answered once, in some
  -- order, with the id of its request, or without an id if it is too long or no request within the limits;
  -- only accepted notifications are not answered. Every id is as often among the answers written since the
  -- start as among those that the lines are to get.
  pub serve_stdio-AllAnswered :
      {n : ℕ} {d : Broker W} (reader : Reader) (s : Session W)
      → WellFormed c.config
      → Served c s
      → Filled reader
      → Run c parse cancel n (started reader s) d
      → d.loop ≡ at_end
      → d.pending ≡ []
      → (p : Option Value → Bool)
      → count p (answered d.session.written)
        ≡ count p (answered s.written) + count p (expected_lines c parse (lines_of (stream reader)))
  serve_stdio-AllAnswered reader s well served f r ended idle p =
      let ((spawned, unread, split, still, balanced), meant, _) =
        serve_stdio-Answered reader s well served f r in
      let none_unread = subst (λ l. Still c parse l unread) ended still in
      let all = split ∙ ap (λ l. spawned ++ l) none_unread ∙ append_nil spawned in
      let h = balanced p in
      let h0 = ap (count p) meant in
      let h1 = ap (λ l. count p (expected_tasks l)) idle in
      let h2 = ap (λ l. count p (expected_tasks l)) all in omega arith
