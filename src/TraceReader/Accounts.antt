-- ===== src/TraceReader/Accounts.antt =====
-- bench/check/run.py: the accounts of `_classify_runner_phase_rows`, and the function itself.
use ring_lang.Common.{
  Bool, true, false, ◌&&◌, not, List, [], ◌∷◌, ◌++◌, Option, none, some, if◌then◌else◌, Text, codes,
  text_eq, mem_text, any, all, map,
}
use ring_lang.Common.Int.{ℤ, pos, int_eq, ltb_ℤ, ◌+ℤ◌}
use ring_lang.PhaseTiming.{Row}
use ring_lang.TraceReader.Rows.{
  Problem, no_valid_rows, not_contiguous, no_suite_tail, misplaced_summary, suite_pair_disagrees,
  suite_accounting, runner_accounting, accounting_unavailable, wall_unavailable, exceeds_wall,
  early_summary, late_setup, setup_incomplete, setup_mismatch, suites_incomplete, suite_mismatch,
  summary_stages, problem_if, equals, rows_problems, incomplete_rows, valid_rows,
}
use ring_lang.TraceReader.Trace.{
  PhaseValidation, both, fine, hard, eligibility, numbered_from, unsnoc, is_runner_summary,
  same_outcome, ended, rows_where, is_setup, of_suite, from_first_suite, expected_setup_stages,
  compare_order, suite_order_after,
}

-- `sum(row["duration_ns"] for row in rows)`
unfoldable pub total_of : List Row → ℤ
unfolding ◌+ℤ◌
total_of [] = pos 0
total_of (row ∷ rows) = row.body.duration_ns +ℤ total_of rows

unfoldable pub sum_of : List ℤ → ℤ
unfolding ◌+ℤ◌
sum_of [] = pos 0
sum_of (n ∷ ns) = n +ℤ sum_of ns

abbrev pub counted : Row → Bool
counted row = not (ltb_ℤ row.body.duration_ns (pos 0))

-- What the rows of a suite say: problems, and its total where its accounts are complete.
abbrev pub SuiteAccount : Type 0
SuiteAccount = PhaseValidation × Option ℤ

-- A summary among the children, or a residual and a total that disagree.
unfoldable pub suite_found : Text → List Row → Row → Row → PhaseValidation
unfolding mem_text any same_outcome
suite_found suite children residual total = hard (
    problem_if (any (λ row. mem_text row.body.stage summary_stages) children)
      (misplaced_summary suite)
    ++ problem_if (not (same_outcome residual total)) (suite_pair_disagrees suite))

unfoldable pub suite_totals : Text → List Row → Row → Row → SuiteAccount
unfolding all total_of suite_found
suite_totals suite children residual total =
    let found = suite_found suite children residual total in
    let accounted = total_of children +ℤ residual.body.duration_ns in
    if all counted children && counted residual && counted total
    then (
      both found (
          eligibility
            (problem_if (not (int_eq accounted total.body.duration_ns)) (suite_accounting suite))),
      some total.body.duration_ns,
    )
    else (found, none)

-- `group[-2:]` has to be the residual and the total of the suite.
unfoldable pub suite_tail : Text → Row → Option (List Row × Row) → SuiteAccount
unfolding text_eq suite_totals
suite_tail suite total none = (eligibility (no_suite_tail suite ∷ []), none)
suite_tail suite total (some (children, residual)) =
    if text_eq residual.body.stage (codes "orchestration_residual")
      && text_eq total.body.stage (codes "suite_total")
    then suite_totals suite children residual total
    else (eligibility (no_suite_tail suite ∷ []), none)

unfoldable pub suite_ends : Text → Option (List Row × Row) → SuiteAccount
unfolding suite_tail unsnoc
suite_ends suite none = (eligibility (no_suite_tail suite ∷ []), none)
suite_ends suite (some (front, total)) = suite_tail suite total (unsnoc front)

-- The body of the loop over the suites.
unfoldable pub suite_account : List Row → Text → SuiteAccount
unfolding suite_ends unsnoc rows_where text_eq
suite_account suite_rows suite =
    suite_ends suite (unsnoc (rows_where (λ row. equals suite row.body.suite) suite_rows))

-- The totals of the suites, if every suite has one.
unfoldable pub add_total : Option ℤ → Option (List ℤ) → Option (List ℤ)
add_total none totals = none
add_total (some n) none = none
add_total (some n) (some ns) = some (n ∷ ns)

unfoldable pub suite_accounts : List Row → List Text → PhaseValidation × Option (List ℤ)
unfolding suite_account add_total
suite_accounts suite_rows [] = (fine, some [])
suite_accounts suite_rows (suite ∷ suites) =
    let here = suite_account suite_rows suite in
    let rest = suite_accounts suite_rows suites in (both here.0 rest.0, add_total here.1 rest.1)

unfoldable pub wall_problems : Row → Option ℤ → List Problem
wall_problems total none = wall_unavailable ∷ []
wall_problems total (some wall) = problem_if (ltb_ℤ wall total.body.duration_ns) exceeds_wall

unfoldable pub account_problems : List Row → Option (List ℤ) → Row → Row → List Problem
unfolding all total_of sum_of
account_problems setup_rows none residual total = accounting_unavailable ∷ []
account_problems setup_rows (some totals) residual total =
    let accounted = total_of setup_rows +ℤ sum_of totals +ℤ residual.body.duration_ns in
    if all counted setup_rows && counted residual && counted total
    then problem_if (not (int_eq accounted total.body.duration_ns)) runner_accounting
    else accounting_unavailable ∷ []

-- The accounts of the runner, where its residual and total are there.
unfoldable pub runner_account :
    List Row → Option (List ℤ) → Option (Row × Row) → Option ℤ → PhaseValidation
unfolding account_problems wall_problems
runner_account setup_rows totals none wall = fine
runner_account setup_rows totals (some (residual, total)) wall =
    eligibility (account_problems setup_rows totals residual total ++ wall_problems total wall)

-- The part of the function after the final pair is taken off.
unfoldable pub classify_body :
    List Text → List Row → Option (Row × Row) → Option ℤ → PhaseValidation
unfolding any is_runner_summary rows_where is_setup of_suite from_first_suite expected_setup_stages
    compare_order suite_order_after suite_accounts runner_account
classify_body suites body pair wall =
    let setup_rows = rows_where is_setup body in
    let suite_rows = rows_where of_suite body in
    let order = suite_order_after none suite_rows in
    let accounts = suite_accounts suite_rows order in
    both (hard (problem_if (any is_runner_summary body) early_summary)) (
      both (hard (problem_if (any is_setup (from_first_suite body)) late_setup)) (
        both
          (compare_order (map (λ row. row.body.stage) setup_rows) (expected_setup_stages suites)
            setup_incomplete setup_mismatch)
          (both (compare_order order suites suites_incomplete suite_mismatch)
            (both accounts.0 (runner_account setup_rows accounts.1 pair wall)))))

abbrev pub no_rows : List Row → Bool
no_rows [] = true
no_rows (row ∷ rows) = false

-- `_classify_runner_phase_rows`
unfoldable pub classify_runner_phase_rows :
    List Row → List Text → Option ℤ → Option ℤ → PhaseValidation
unfolding rows_problems incomplete_rows valid_rows numbered_from ended classify_body
classify_runner_phase_rows rows suites expected_exit_code wall =
    let found : PhaseValidation = record {
      hard_errors = rows_problems suites 1 rows;
      eligibility_errors = incomplete_rows 1 rows;
    } in
    let valid = valid_rows rows in
    let (body, pair, at_end) = ended valid expected_exit_code in
    if no_rows valid
    then both found (eligibility (no_valid_rows ∷ []))
    else both found (
        both (hard (problem_if (not (numbered_from 1 valid)) not_contiguous))
          (both at_end (classify_body suites body pair wall)))
