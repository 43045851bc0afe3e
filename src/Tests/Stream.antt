-- ===== src/Tests/Stream.antt =====
-- A run of the broker over an input of two lines, of which the second is answered first.
use agent_capability_gate.Prelude.{
  List, ℕ, ◌+◌, ◌≡◌, refl, length, eqb, Option, none, some, [], ◌∷◌, ◌++◌, is_some, ok,
  if◌then◌else◌, contains_key, get, keys,
}
use agent_capability_gate.Json.{Value}
use agent_capability_gate.Boundary.Framing.{
  Reader, cut, strip_return, advance, read_loop, read_bounded_message,
}
use agent_capability_gate.Boundary.Framing.Chunks.{stream}
use agent_capability_gate.Boundary.Limits.{request_within_limits}
use agent_capability_gate.Boundary.Envelope.{validate_envelope, validate_params}
use agent_capability_gate.Boundary.Messages.{failure}
use agent_capability_gate.Boundary.Handler.{Session, write}
use agent_capability_gate.Boundary.Handler.Answers.{answered}
use agent_capability_gate.Boundary.Handler.Answers.Calls.{Served}
use agent_capability_gate.Boundary.Serve.{
  refusal, handler, reading, at_end, Broker, exit_of, run, task_of_request, task_of_line, pass,
  after_pass, Run, here, next, reads, runs, started,
}
use agent_capability_gate.Boundary.Serve.Lines.{lines_of, tasks_of}
use agent_capability_gate.Boundary.Serve.Expected.{
  count, expected_task, expected_tasks, expected_lines,
}
use agent_capability_gate.Boundary.Serve.Whole.{
  run-Answered, Accounted, serve_stdio-Answered, serve_stdio-AllAnswered,
}
use agent_capability_gate.Boundary.Serve.Safe.{Safe, serve_stdio-Sound}
use agent_capability_gate.Catalog.V3.Reach.{Reached-Faithful, start}
use agent_capability_gate.Tests.Samples.{plain_engine}
use agent_capability_gate.Tests.Loaded.{loaded}
use agent_capability_gate.Tests.Served.{
  Log, buffers, request, well_formed, no_cache, first_state, logging, logging_context,
  logging_session, AllPermitted, guarded,
}

-- A line of two bytes is the request, any other is not JSON.
abbrev parse_sample : List ℕ → Option Value
parse_sample line = if eqb (length line) 2 then some request else none

abbrev cancel_sample : Log → Log
cancel_sample w = w

two_lines : lines_of (stream buffers) ≡ (97 ∷ 98 ∷ 13 ∷ []) ∷ (99 ∷ []) ∷ []
unfolding lines_of
two_lines = refl

two_tasks :
    tasks_of logging_context parse_sample (lines_of (stream buffers))
    ≡ handler request ∷ refusal "invalid JSON request" ∷ []
unfolding lines_of tasks_of strip_return task_of_request request_within_limits
two_tasks = refl

expects_one_id :
    count is_some
      (expected_tasks (tasks_of logging_context parse_sample (lines_of (stream buffers))))
    ≡ 1
unfolding lines_of tasks_of strip_return task_of_request request_within_limits validate_envelope
    validate_params get keys contains_key
expects_one_id = refl

abbrev begun : Broker Log
begun = started buffers logging_session

abbrev last_line : Reader
last_line = ok (99 ∷ []) ∷ []

abbrev one_read : Broker Log
one_read = after_pass logging_context parse_sample buffers begun

one_read_loop : one_read.loop ≡ reading last_line
unfolding after_pass pass read_bounded_message read_loop cut advance strip_return
one_read_loop = refl

abbrev both_read : Broker Log
both_read = after_pass logging_context parse_sample last_line one_read

both_pending : both_read.pending ≡ (handler request ∷ []) ++ refusal "invalid JSON request" ∷ []
unfolding after_pass pass read_bounded_message read_loop cut advance strip_return task_of_line
    task_of_request request_within_limits
both_pending = refl

abbrev refused_session : Session Log
refused_session =
    write logging_context (failure none "INVALID_ARGUMENTS" "invalid JSON request")
      both_read.session

refuses :
    run logging_context parse_sample (refusal "invalid JSON request") both_read.session
    ≡ some refused_session
unfolding run
refuses = refl

abbrev refused_first : Broker Log
refused_first = record both_read {
  pending = (handler request ∷ []) ++ [];
  session = refused_session;
}

refused_first_loop : refused_first.loop ≡ reading []
unfolding after_pass pass read_bounded_message read_loop cut advance strip_return
refused_first_loop = refl

abbrev all_read : Broker Log
all_read = after_pass logging_context parse_sample [] refused_first

all_pending : all_read.pending ≡ [] ++ handler request ∷ []
unfolding after_pass pass read_bounded_message read_loop
all_pending = refl

served : Served logging_context all_read.session
unfolding after_pass
served = (refl, refl)

handles :
    (out : Session Log) × (run logging_context parse_sample (handler request) all_read.session
      ≡ some out)
    × (answered out.written ≡ answered all_read.session.written ++ expected_task (handler request))
    × Served logging_context out
handles =
    run-Answered logging_context parse_sample cancel_sample (handler request) all_read.session
      well_formed served

abbrev finished : Broker Log
finished = record all_read { pending = [] ++ []; session = handles.0 }

sample-Run : Run logging_context parse_sample cancel_sample 5 begun finished
sample-Run =
    next
      (next
        (next (next (next here (reads buffers begun refl)) (reads last_line one_read one_read_loop))
          (runs (handler request ∷ []) [] _ refused_session both_read both_pending refuses))
        (reads [] refused_first refused_first_loop))
      (runs [] [] (handler request) handles.0 all_read all_pending handles.1)

finished_loop : finished.loop ≡ at_end
unfolding after_pass pass read_bounded_message read_loop
finished_loop = refl

serve_stdio-Answered_example :
    Accounted logging_context parse_sample cancel_sample
      (lines_of (stream buffers))
      logging_session
      finished
    × (expected_tasks (tasks_of logging_context parse_sample (lines_of (stream buffers)))
        ≡ expected_lines logging_context parse_sample (lines_of (stream buffers)))
    × (exit_of finished.task_failed finished.loop ≡ ok tt)
serve_stdio-Answered_example =
    serve_stdio-Answered logging_context parse_sample cancel_sample buffers logging_session
      well_formed (refl, refl) tt sample-Run

serve_stdio-AllAnswered_example :
    count is_some (answered finished.session.written)
    ≡ count is_some (answered logging_session.written)
      + count is_some (expected_lines logging_context parse_sample (lines_of (stream buffers)))
serve_stdio-AllAnswered_example =
    serve_stdio-AllAnswered logging_context parse_sample cancel_sample buffers logging_session
      well_formed (refl, refl) tt sample-Run finished_loop refl is_some

serve_stdio-Sound_example :
    Safe logging_context parse_sample cancel_sample AllPermitted well_formed guarded
      (λ w h. h)
      finished
serve_stdio-Sound_example =
    serve_stdio-Sound logging_context parse_sample cancel_sample AllPermitted well_formed guarded
      (λ w h. h) buffers logging_session (refl, refl)
      (tt, Reached-Faithful plain_engine logging loaded well_formed no_cache first_state start)
      sample-Run
