-- ===== src/PhaseTiming/Runner.antt =====
-- tests/run_tests.py: `_phase_command_category` and `_run_subprocess`, by which the suites run a command.
use ring_lang.Common.{
  Result, ok, Option, none, some, [], ◌∷◌, if◌then◌else◌, Text, codes, text_eq, mem_text,
}
use ring_lang.Common.Int.{ℤ}
use ring_lang.PhaseTiming.{
  TraceError, run_suite, PhaseTimingTrace, SubprocessEnd, Ending, raised, run_subprocess,
  current_suite,
}

unfoldable pub phase_command_category : Text → Text
unfolding mem_text text_eq
phase_command_category stage =
    if mem_text stage (codes "ring_check" ∷ codes "ring_build" ∷ [])
    then codes "ring"
    else if text_eq stage (codes "run_exe")
    then codes "generated-program"
    else codes "clang"

-- `value if value is not None else other`
abbrev pub given_or : Option Text → Option Text → Option Text
given_or none other = other
given_or (some s) other = some s

abbrev pub case_of : Option Text → Option Text
case_of none = some (codes "runner")
case_of (some suite) = none

-- `_run_subprocess`: without a tracer the command runs unobserved.
unfoldable pub run_traced :
    Text
    → Option Text
    → Option Text
    → ℤ
    → ℤ
    → SubprocessEnd
    → Option PhaseTimingTrace
    → Ending × Option PhaseTimingTrace
unfolding raised run_subprocess current_suite phase_command_category
run_traced stage phase_suite phase_case started ended end none = (raised end, none)
run_traced stage phase_suite phase_case started ended end (some tracer) =
    let suite = given_or phase_suite (current_suite tracer) in
    let case = given_or phase_case (case_of suite) in
    let (ending, after) =
      run_subprocess stage suite case (phase_command_category stage) started ended end tracer in
    (ending, some after)

-- `_run_timed_suite`; `untraced` is how the callback ends where there is no tracer.
unfoldable pub run_timed_suite :
    Text
    → ℤ
    → ℤ
    → (PhaseTimingTrace → Ending × PhaseTimingTrace)
    → Ending
    → Option PhaseTimingTrace
    → Result TraceError Ending × Option PhaseTimingTrace
unfolding run_suite
run_timed_suite suite started ended callback untraced none = (ok untraced, none)
run_timed_suite suite started ended callback untraced (some tracer) =
    let (ending, after) = run_suite suite started ended callback tracer in (ending, some after)
