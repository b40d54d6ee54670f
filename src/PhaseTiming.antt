-- ===== src/PhaseTiming.antt =====
-- tests/run_tests.py: `PhaseTimingTrace`. The stream is the list of the rows written, each the
-- object that `_emit` dumps as one JSON line. The clock is an input: an operation takes the
-- readings of `time.perf_counter_ns()` that it makes.
pub mod Sequence
pub mod Accounting
pub mod Clock
pub mod Suites
pub mod Runner
mod Tests
use ring_lang.Common.{
  ℕ, ◌+◌, Bool, true, false, ◌&&◌, List, [], ◌∷◌, ◌++◌, Option, none, some, if◌then◌else◌, Text,
  codes, text_eq, Result, ok, err,
}
use ring_lang.Common.Int.{ℤ, pos, ◌+ℤ◌, ◌-ℤ◌, clamp, int_eq}

-- The keyword arguments of `_emit`.
pub record Stage : Type 0 where
  pub suite : Option Text
  pub case : Option Text
  pub stage : Text
  pub duration_ns : ℤ
  pub executed : Bool
  pub complete : Bool
  pub outcome : Text
  pub exit_code : Option ℤ
  pub command_category : Option Text

-- A row: its `sequence`, and the stage with its duration clamped at 0. `schema` and `version` are
-- the same constants in every row.
pub record Row : Type 0 where
  pub sequence : ℕ
  pub body : Stage

pub record SuitePhaseState : Type 0 where
  pub name : Text
  pub started_ns : ℤ
  pub child_duration_ns : ℤ

pub record PhaseTimingTrace : Type 0 where
  pub stream : List Row
  pub sequence : ℕ
  pub runner_started_ns : ℤ
  pub runner_accounted_ns : ℤ
  pub suite_state : Option SuitePhaseState
  pub finished : Bool

-- `__init__`, at the clock reading `now`
unfoldable pub start : ℤ → PhaseTimingTrace
start now = record {
  stream = [];
  sequence = 0;
  runner_started_ns = now;
  runner_accounted_ns = pos 0;
  suite_state = none;
  finished = false;
}

-- The property `current_suite`.
unfoldable pub current_suite : PhaseTimingTrace → Option Text
current_suite t = elim t.suite_state [ none ↦ none | some s ↦ some s.name ]

unfoldable pub emit : Stage → PhaseTimingTrace → PhaseTimingTrace
emit e t = record t {
  stream =
      t.stream
      ++ (record {
        sequence = t.sequence + 1;
        body = record e { duration_ns = clamp e.duration_ns };
      }
          ∷ []);
  sequence = t.sequence + 1;
}

-- `suite == name`, where `suite` may be `None`
abbrev pub is_suite : Option Text → Text → Bool
is_suite none name = false
is_suite (some suite) name = text_eq suite name

unfoldable pub account_child : Option Text → ℤ → PhaseTimingTrace → PhaseTimingTrace
account_child suite duration_ns t = elim t.suite_state [
  | none ↦ record t { runner_accounted_ns = t.runner_accounted_ns +ℤ duration_ns }
  | some s ↦
      if is_suite suite s.name
      then record t {
        suite_state = some (record s { child_duration_ns = s.child_duration_ns +ℤ duration_ns });
      }
      else record t { runner_accounted_ns = t.runner_accounted_ns +ℤ duration_ns }
]

unfoldable pub record_stage : Stage → PhaseTimingTrace → PhaseTimingTrace
unfolding account_child emit
record_stage e t = emit e (account_child e.suite e.duration_ns t)

-- How `subprocess.run` ends; every exception is raised again by the caller.
pub data SubprocessEnd : Type 0 where
  returned : ℤ → SubprocessEnd
  timeout_expired : SubprocessEnd
  called_process_error : ℤ → SubprocessEnd
  os_error : SubprocessEnd
  base_exception : SubprocessEnd

-- What a call raises, as `run_suite` tells it apart.
pub data Ending : Type 0 where
  completes : Ending
  raises_timeout : Ending
  raises_called_process_error : ℤ → Ending
  raises_other : Ending

abbrev stage_of :
    Text → Option Text → Option Text → Text → ℤ → Bool → Bool → Text → Option ℤ → Stage
stage_of stage suite case category duration executed complete outcome exit_code = record {
  suite = suite;
  case = case;
  stage = stage;
  duration_ns = duration;
  executed = executed;
  complete = complete;
  outcome = outcome;
  exit_code = exit_code;
  command_category = some category;
}

-- The row of a subprocess, by how it ended.
unfoldable pub subprocess_stage :
    Text → Option Text → Option Text → Text → ℤ → SubprocessEnd → Stage
subprocess_stage stage suite case category duration (returned code) =
    stage_of stage suite case category duration true true
      (if int_eq code (pos 0) then codes "success" else codes "nonzero") (some code)
subprocess_stage stage suite case category duration timeout_expired =
    stage_of stage suite case category duration true false (codes "timeout") none
subprocess_stage stage suite case category duration (called_process_error code) =
    stage_of stage suite case category duration true true (codes "nonzero") (some code)
subprocess_stage stage suite case category duration os_error =
    stage_of stage suite case category duration false false (codes "spawn-error") none
subprocess_stage stage suite case category duration base_exception =
    stage_of stage suite case category duration true false (codes "exception") none

unfoldable pub raised : SubprocessEnd → Ending
raised (returned code) = completes
raised timeout_expired = raises_timeout
raised (called_process_error code) = raises_called_process_error code
raised os_error = raises_other
raised base_exception = raises_other

-- The clock readings before and after the call are `started` and `ended`.
unfoldable pub run_subprocess :
    Text
    → Option Text
    → Option Text
    → Text
    → ℤ
    → ℤ
    → SubprocessEnd
    → PhaseTimingTrace
    → Ending × PhaseTimingTrace
unfolding subprocess_stage raised account_child emit
run_subprocess stage suite case category started ended end t =
    let duration_ns = ended -ℤ started in
    (
      raised end,
      emit (subprocess_stage stage suite case category duration_ns end)
          (account_child suite duration_ns t),
    )

-- The rows that `run_suite` and `finish` add have no command category.
abbrev pub summary_stage : Option Text → Option Text → Text → ℤ → Bool → Text → Option ℤ → Stage
summary_stage suite case stage duration complete outcome exit_code = record {
  suite = suite;
  case = case;
  stage = stage;
  duration_ns = duration;
  executed = true;
  complete = complete;
  outcome = outcome;
  exit_code = exit_code;
  command_category = none;
}

-- `complete`, `outcome` and `exit_code` at the `finally` of `run_suite`.
unfoldable pub suite_outcome : Ending → Bool × Text × Option ℤ
suite_outcome completes = (true, codes "completed", none)
suite_outcome raises_timeout = (false, codes "timeout", none)
suite_outcome (raises_called_process_error code) = (false, codes "nonzero", some code)
suite_outcome raises_other = (false, codes "exception", none)

-- `state.child_duration_ns` after the callback: `state` is the object in `_suite_state`, which no
-- method that a callback can call replaces.
abbrev pub child_of : Option SuitePhaseState → ℤ
child_of none = pos 0
child_of (some s) = s.child_duration_ns

-- The `finally` block, at the clock reading `ended`.
unfoldable pub close_suite : Text → ℤ → ℤ → Ending → PhaseTimingTrace → PhaseTimingTrace
unfolding suite_outcome emit
close_suite suite started ended ending t =
    let duration_ns = ended -ℤ started in
    let residual_ns = clamp (duration_ns -ℤ child_of t.suite_state) in
    let (complete, outcome, exit_code) = suite_outcome ending in
    let t₁ = record t { suite_state = none } in
    let t₂ =
      emit
        (summary_stage (some suite) none (codes "orchestration_residual") residual_ns complete
          outcome exit_code)
        t₁ in
    let t₃ =
      emit
        (summary_stage (some suite) none (codes "suite_total") duration_ns complete outcome
          exit_code)
        t₂ in
    record t₃ { runner_accounted_ns = t₃.runner_accounted_ns +ℤ duration_ns }

-- `phase-timed suites must not be nested`
pub data TraceError : Type 0 where
  nested_suites : TraceError

-- `run_suite`, by the suite that is entered already; what the callback raises is raised again after
-- the `finally` block.
unfoldable pub run_suite_in :
    Option SuitePhaseState
    → Text
    → ℤ
    → ℤ
    → (PhaseTimingTrace → Ending × PhaseTimingTrace)
    → PhaseTimingTrace
    → Result TraceError Ending × PhaseTimingTrace
run_suite_in (some s) suite started ended callback t = (err nested_suites, t)
run_suite_in none suite started ended callback t =
    let state : SuitePhaseState = record {
      name = suite;
      started_ns = started;
      child_duration_ns = pos 0;
    } in
    let (ending, t') = callback (record t { suite_state = some state }) in
    (ok ending, close_suite suite started ended ending t')

unfoldable pub run_suite :
    Text
    → ℤ
    → ℤ
    → (PhaseTimingTrace → Ending × PhaseTimingTrace)
    → PhaseTimingTrace
    → Result TraceError Ending × PhaseTimingTrace
unfolding run_suite_in
run_suite suite started ended callback t = run_suite_in t.suite_state suite started ended callback t

unfoldable pub finish : ℤ → Bool → Text → Option ℤ → PhaseTimingTrace → PhaseTimingTrace
unfolding emit
finish now complete outcome exit_code t =
    if t.finished
    then t
    else let duration_ns = now -ℤ t.runner_started_ns in
      let residual_ns = clamp (duration_ns -ℤ t.runner_accounted_ns) in
      let t₁ = record t { finished = true } in
      let t₂ =
        emit
          (summary_stage none (some (codes "runner")) (codes "orchestration_residual") residual_ns
            complete outcome exit_code)
          t₁ in
      emit
        (summary_stage none (some (codes "runner")) (codes "runner_total") duration_ns complete
          outcome exit_code)
        t₂
