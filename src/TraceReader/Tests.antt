-- ===== src/TraceReader/Tests.antt =====
-- The reader's tests at rows that the writer makes.
use ring_lang.Common.{
  text_eq, any, mem_text, refl, List, [], ◌∷◌, Text, ◌≡◌, ◌≢◌, none, some, codes, true, false,
}
use ring_lang.Common.Int.{pos}
use ring_lang.PhaseTiming.{
  Row, subprocess_stage, called_process_error, summary_stage, raises_called_process_error,
  suite_outcome,
}
use ring_lang.TraceReader.{runner_subprocess_outcome_is_valid, runner_summary_outcome_is_valid}
use ring_lang.TraceReader.Clean.{Clean}
use ring_lang.PhaseTiming.Runner.{phase_command_category}
use ring_lang.TraceReader.Rows.{child_stages, child_category}
use ring_lang.TraceReader.Writer.{
  phase_command_category-expected, subprocess_stage-valid, suite_summary-valid,
}

one_ne_zero : pos 1 ≢ pos 0
one_ne_zero e = cc

subprocess_stage-valid_example :
    runner_subprocess_outcome_is_valid (
      subprocess_stage
        (codes "ring_build")
        none
        none
        (codes "ring")
        (pos 3)
        (called_process_error (pos 1)))
    ≡ true
subprocess_stage-valid_example =
    subprocess_stage-valid (codes "ring_build") none none (codes "ring") (pos 3)
      (called_process_error (pos 1)) one_ne_zero

suite_summary-valid_example :
    let (complete, outcome, exit_code) = suite_outcome (raises_called_process_error (pos 1)) in
    runner_summary_outcome_is_valid
      (summary_stage
        (some (codes "e2e"))
        none
        (codes "suite_total")
        (pos 3)
        complete
        outcome
        exit_code)
      false
    ≡ true
suite_summary-valid_example =
    suite_summary-valid (codes "e2e") (codes "suite_total") (pos 3)
      (raises_called_process_error (pos 1)) one_ne_zero

abbrev check_row : Row
check_row = record {
  sequence = 1;
  body = record {
    suite = some (codes "parity");
    case = some (codes "lane");
    stage = codes "ring_check";
    duration_ns = pos 5;
    executed = true;
    complete = true;
    outcome = codes "success";
    exit_code = some (pos 0);
    command_category = some (codes "ring");
  };
}

abbrev suite_residual : Row
suite_residual = record {
  sequence = 2;
  body = record {
    suite = some (codes "parity");
    case = none;
    stage = codes "orchestration_residual";
    duration_ns = pos 2;
    executed = true;
    complete = true;
    outcome = codes "completed";
    exit_code = none;
    command_category = none;
  };
}

abbrev suite_total : Row
suite_total = record {
  sequence = 3;
  body = record {
    suite = some (codes "parity");
    case = none;
    stage = codes "suite_total";
    duration_ns = pos 7;
    executed = true;
    complete = true;
    outcome = codes "completed";
    exit_code = none;
    command_category = none;
  };
}

abbrev runner_residual : Row
runner_residual = record {
  sequence = 4;
  body = record {
    suite = none;
    case = some (codes "runner");
    stage = codes "orchestration_residual";
    duration_ns = pos 1;
    executed = true;
    complete = true;
    outcome = codes "success";
    exit_code = some (pos 0);
    command_category = none;
  };
}

abbrev runner_total : Row
runner_total = record {
  sequence = 5;
  body = record {
    suite = none;
    case = some (codes "runner");
    stage = codes "runner_total";
    duration_ns = pos 8;
    executed = true;
    complete = true;
    outcome = codes "success";
    exit_code = some (pos 0);
    command_category = none;
  };
}

abbrev parity_trace : List Row
parity_trace = check_row ∷ suite_residual ∷ suite_total ∷ runner_residual ∷ runner_total ∷ []

abbrev parity_only : List Text
parity_only = codes "parity" ∷ []

run_exe_listed : mem_text (codes "run_exe") child_stages ≡ true
unfolding mem_text any text_eq
run_exe_listed = refl

phase_command_category-expected_example :
    phase_command_category (codes "run_exe") ≡ child_category (codes "run_exe")
phase_command_category-expected_example =
    phase_command_category-expected (codes "run_exe") run_exe_listed
