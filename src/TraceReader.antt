-- ===== src/TraceReader.antt =====
-- bench/check/run.py: the tests on one row of a runner trace that `_classify_runner_phase_rows`
-- makes. A row has the field types that `PhaseTimingTrace` gives it, so that `isinstance` and
-- `_is_trace_int` hold of every value but `None`.
pub mod Writer
pub mod Rows
pub mod Trace
pub mod Accounts
pub mod Clean
pub mod Kinds
pub mod Ends
pub mod Sound
mod Tests
use ring_lang.Common.{
  Bool, true, false, ◌&&◌, ◌||◌, not, List, [], ◌∷◌, Option, none, some, if◌then◌else◌, Text, codes,
  text_eq, mem_text, any, ◌++◌,
}
use ring_lang.Common.Int.{ℤ, pos, int_eq}
use ring_lang.PhaseTiming.{Stage}

-- `exit_code == 0`
abbrev pub is_zero : Option ℤ → Bool
is_zero none = false
is_zero (some c) = int_eq c (pos 0)

-- `_is_trace_int(exit_code) and exit_code != 0`
abbrev pub is_failure : Option ℤ → Bool
is_failure none = false
is_failure (some c) = not (int_eq c (pos 0))

abbrev pub is_none : Option ℤ → Bool
is_none none = true
is_none (some c) = false

unfoldable pub runner_subprocess_outcome_is_valid : Stage → Bool
runner_subprocess_outcome_is_valid row =
    if text_eq row.outcome (codes "success")
    then row.executed && row.complete && is_zero row.exit_code
    else if text_eq row.outcome (codes "nonzero")
    then row.executed && row.complete && is_failure row.exit_code
    else if mem_text row.outcome (codes "timeout" ∷ codes "exception" ∷ [])
    then row.executed && not row.complete && is_none row.exit_code
    else if text_eq row.outcome (codes "spawn-error")
    then not row.executed && not row.complete && is_none row.exit_code
    else false

runner_outcome : Stage → Bool
runner_outcome row =
    if text_eq row.outcome (codes "success")
    then row.complete && is_zero row.exit_code
    else if text_eq row.outcome (codes "failure")
    then row.complete && is_failure row.exit_code
    else if text_eq row.outcome (codes "nonzero")
    then not row.complete && is_failure row.exit_code
    else if mem_text row.outcome (codes "timeout" ∷ codes "exception" ∷ codes "interrupted" ∷ [])
    then not row.complete && is_none row.exit_code
    else false

suite_outcome : Stage → Bool
suite_outcome row =
    if text_eq row.outcome (codes "completed")
    then row.complete && is_none row.exit_code
    else if text_eq row.outcome (codes "nonzero")
    then not row.complete && is_failure row.exit_code
    else if mem_text row.outcome (codes "timeout" ∷ codes "exception" ∷ [])
    then not row.complete && is_none row.exit_code
    else false

unfoldable pub runner_summary_outcome_is_valid : Stage → Bool → Bool
unfolding runner_outcome suite_outcome
runner_summary_outcome_is_valid row runner =
    row.executed && (if runner then runner_outcome row else suite_outcome row)
