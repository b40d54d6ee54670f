-- ===== src/TraceReader/Rows.antt =====
-- bench/check/run.py: what `_classify_runner_phase_rows` finds in the single rows of a runner trace.
use ring_lang.Common.{
  ℕ, ◌+◌, Bool, true, false, ◌&&◌, ◌||◌, not, List, [], ◌∷◌, ◌++◌, Option, none, some,
  if◌then◌else◌, ltb, Text, codes, text_eq, mem_text, is_empty,
}
use ring_lang.Common.Int.{pos, ltb_ℤ}
use ring_lang.PhaseTiming.{Stage, Row}
use ring_lang.TraceReader.{
  is_none, runner_subprocess_outcome_is_valid, runner_summary_outcome_is_valid,
}

-- The messages, those about one row with its index.
pub data Problem : Type 0 where
  bad_sequence empty_suite unselected_suite empty_case unknown_stage negative_duration : ℕ → Problem
  incomplete_row empty_outcome unknown_category : ℕ → Problem
  setup_scope bad_cached_runtime bad_compiler_stage bad_child bad_suite_summary : ℕ → Problem
  bad_runner_summary bad_combination : ℕ → Problem
  no_valid_rows not_contiguous no_final_pair final_pair_disagrees exit_disagrees : Problem
  early_summary late_setup setup_incomplete setup_mismatch suites_incomplete suite_mismatch :
      Problem
  no_suite_tail misplaced_summary suite_pair_disagrees suite_accounting : Text → Problem
  runner_accounting accounting_unavailable wall_unavailable exceeds_wall : Problem

abbrev pub runner_compiler_stages : List Text
runner_compiler_stages =
    codes "compiler_anchor_compile" ∷ codes "compiler_runtime_compile" ∷ codes "compiler_link" ∷ []

abbrev pub setup_stages : List Text
setup_stages = runner_compiler_stages ++ codes "runtime_prepare" ∷ []

abbrev pub child_stages : List Text
child_stages = codes "ring_build" ∷ codes "ring_check" ∷ codes "clang_link" ∷ codes "run_exe" ∷ []

abbrev pub summary_stages : List Text
summary_stages = codes "orchestration_residual" ∷ codes "suite_total" ∷ codes "runner_total" ∷ []

-- `RUNNER_CHILD_STAGE_CATEGORY[stage]`, for a child stage
unfoldable pub child_category : Text → Text
unfolding text_eq
child_category stage =
    if text_eq stage (codes "clang_link")
    then codes "clang"
    else if text_eq stage (codes "run_exe")
    then codes "generated-program"
    else codes "ring"

abbrev pub problem_if : Bool → Problem → List Problem
problem_if true p = p ∷ []
problem_if false p = []

-- `value is None`
abbrev pub absent : Option Text → Bool
absent none = true
absent (some s) = false

-- `value == text`
abbrev pub equals : Text → Option Text → Bool
equals t none = false
equals t (some s) = text_eq s t

-- a text that is empty
abbrev pub blank : Option Text → Bool
blank none = false
blank (some s) = is_empty s

unfoldable pub known_category : Option Text → Bool
unfolding mem_text
known_category none = true
known_category (some s) = mem_text s (codes "ring" ∷ codes "clang" ∷ codes "generated-program" ∷ [])

unfoldable pub known_stage : Text → Bool
unfolding mem_text
known_stage s = mem_text s setup_stages || mem_text s child_stages || mem_text s summary_stages

unfoldable pub selected : List Text → Option Text → Bool
unfolding mem_text
selected suites none = true
selected suites (some s) = mem_text s suites

-- `topology_safe`
unfoldable pub topology_safe : Row → Bool
unfolding known_stage known_category
topology_safe row =
    not (blank row.body.suite)
    && not (blank row.body.case)
    && known_stage row.body.stage
    && known_category row.body.command_category

-- The tests of the fields, in their order.
unfoldable pub field_problems : List Text → ℕ → Row → List Problem
unfolding known_stage known_category selected
field_problems suites index row =
    problem_if (ltb row.sequence 1) (bad_sequence index)
    ++ (problem_if (blank row.body.suite) (empty_suite index)
        ++ (problem_if (not (blank row.body.suite) && not (selected suites row.body.suite))
              (unselected_suite index)
            ++ (problem_if (blank row.body.case) (empty_case index)
                ++ (problem_if (not (known_stage row.body.stage)) (unknown_stage index)
                    ++ (problem_if (ltb_ℤ row.body.duration_ns (pos 0)) (negative_duration index)
                        ++ (problem_if (is_empty row.body.outcome) (empty_outcome index)
                            ++ problem_if (not (known_category row.body.command_category))
                                (unknown_category index)))))))

unfoldable pub runtime_cached : Stage → Bool
unfolding text_eq
runtime_cached row =
    is_none row.exit_code
    && not row.executed
    && (text_eq row.outcome (codes "cached") && row.complete
        || text_eq row.outcome (codes "missing-input") && not row.complete)

unfoldable pub setup_problems : ℕ → Stage → List Problem
unfolding runtime_cached runner_subprocess_outcome_is_valid text_eq
setup_problems index row =
    problem_if (not (absent row.suite) || not (equals (codes "runner") row.case))
      (setup_scope index)
    ++ (if text_eq row.stage (codes "runtime_prepare") && absent row.command_category
        then problem_if (not (runtime_cached row)) (bad_cached_runtime index)
        else problem_if
            (not (equals (codes "clang") row.command_category)
              || not (runner_subprocess_outcome_is_valid row))
            (bad_compiler_stage index))

-- The tests of what a safe row means: its stage, suite, case and outcome together.
unfoldable pub combination_problems : List Text → ℕ → Stage → List Problem
unfolding mem_text text_eq setup_problems child_category selected runner_subprocess_outcome_is_valid
    runner_summary_outcome_is_valid
combination_problems suites index row =
    if mem_text row.stage setup_stages
    then setup_problems index row
    else if mem_text row.stage child_stages
    then problem_if
        (absent row.suite
          || not (selected suites row.suite)
          || absent row.case
          || blank row.case
          || not (equals (child_category row.stage) row.command_category)
          || not (runner_subprocess_outcome_is_valid row))
        (bad_child index)
    else if not (text_eq row.stage (codes "runner_total")) && not (absent row.suite)
    then problem_if
        (not (absent row.case)
          || not (absent row.command_category)
          || not (runner_summary_outcome_is_valid row false))
        (bad_suite_summary index)
    else if not (text_eq row.stage (codes "suite_total"))
        && absent row.suite
        && equals (codes "runner") row.case
    then problem_if
        (not (absent row.command_category) || not (runner_summary_outcome_is_valid row true))
        (bad_runner_summary index)
    else bad_combination index ∷ []

unfoldable pub row_problems : List Text → ℕ → Row → List Problem
unfolding field_problems combination_problems topology_safe
row_problems suites index row =
    field_problems suites index row
    ++ (if topology_safe row then combination_problems suites index row.body else [])

-- The hard errors of the rows, which are counted from `index`.
unfoldable pub rows_problems : List Text → ℕ → List Row → List Problem
unfolding row_problems
rows_problems suites index [] = []
rows_problems suites index (row ∷ rows) =
    row_problems suites index row ++ rows_problems suites (index + 1) rows

-- The eligibility errors of the rows.
unfoldable pub incomplete_rows : ℕ → List Row → List Problem
incomplete_rows index [] = []
incomplete_rows index (row ∷ rows) =
    problem_if (not row.body.complete) (incomplete_row index) ++ incomplete_rows (index + 1) rows

unfoldable pub valid_rows : List Row → List Row
unfolding topology_safe
valid_rows [] = []
valid_rows (row ∷ rows) =
    let rest = valid_rows rows in if topology_safe row then row ∷ rest else rest
