-- ===== src/TraceReader/Writer.antt =====
-- The reader accepts what the writer of the trace writes.
use ring_lang.Common.{
  closed_set, true, false, Option, none, some, ◌≡◌, ◌≢◌, refl, arith, Text, text_eq, any, mem_text,
}
use ring_lang.Common.Int.{ℤ, pos, int_eq_iff}
use ring_lang.PhaseTiming.{
  SubprocessEnd, returned, called_process_error, Ending, raises_called_process_error,
  subprocess_stage, suite_outcome, summary_stage,
}
use ring_lang.PhaseTiming.Runner.{phase_command_category}
use ring_lang.TraceReader.Rows.{child_stages, child_category}
use ring_lang.TraceReader.{runner_subprocess_outcome_is_valid, runner_summary_outcome_is_valid}

-- `CalledProcessError` is raised for a non-zero exit code only.
abbrev pub IsRaised : SubprocessEnd → Type 0
IsRaised (called_process_error code) = code ≢ pos 0
IsRaised end = Unit

-- The row of a subprocess has an outcome that the reader accepts, however the subprocess ends.
pub subprocess_stage-valid :
    (name : Text) (suite case : Option Text) (category : Text) (d : ℤ) (end : SubprocessEnd)
    → IsRaised end
    → runner_subprocess_outcome_is_valid (subprocess_stage name suite case category d end) ≡ true
unfolding runner_subprocess_outcome_is_valid subprocess_stage text_eq mem_text any
subprocess_stage-valid name suite case category d (returned code) h = ground arith
subprocess_stage-valid name suite case category d (called_process_error code) h =
    ground (arith, int_eq_iff code (pos 0))
subprocess_stage-valid name suite case category d end h = refl

-- `CalledProcessError` in a callback carries a non-zero exit code.
abbrev pub IsEnding : Ending → Type 0
IsEnding (raises_called_process_error code) = code ≢ pos 0
IsEnding ending = Unit

-- The residual and the total of a suite have an outcome that the reader accepts, however the
-- suite's callback ends.
pub suite_summary-valid :
    (name stage : Text) (d : ℤ) (ending : Ending)
    → IsEnding ending
    → let (complete, outcome, exit_code) = suite_outcome ending in
      runner_summary_outcome_is_valid
        (summary_stage (some name) none stage d complete outcome exit_code)
        false
      ≡ true
unfolding runner_summary_outcome_is_valid suite_outcome text_eq mem_text any
suite_summary-valid name stage d (raises_called_process_error code) h =
    ground (arith, int_eq_iff code (pos 0))
suite_summary-valid name stage d ending h = refl

-- The command category that the runner gives a suite's child is the one that the reader expects.
pub phase_command_category-expected :
    (stage : Text)
    → mem_text stage child_stages ≡ true
    → phase_command_category stage ≡ child_category stage
unfolding phase_command_category child_category text_eq mem_text any
phase_command_category-expected stage h =
    closed_set (λ s. phase_command_category s ≡ child_category s) child_stages
      (refl, (refl, (refl, (refl, tt)))) stage h
