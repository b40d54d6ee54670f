-- ===== src/TraceReader/Sound.antt =====
-- bench/check/run.py: what a trace is in which `_classify_runner_phase_rows` finds nothing.
use ring_lang.Common.{
  All, ◌≡◌, true, false, List, [], ◌∷◌, ◌++◌, Option, none, some, Text, map, any,
}
use ring_lang.Common.Int.{ℤ, ◌≤ℤ◌, ◌+ℤ◌}
use ring_lang.PhaseTiming.{Row}
use ring_lang.TraceReader.Trace.{
  is_runner_summary, rows_where, is_setup, of_suite, expected_setup_stages, suite_order_after,
  numbered_from,
}
use ring_lang.TraceReader.Accounts.{total_of, sum_of}
use ring_lang.TraceReader.Clean.{Clean, AllBalanced}
use ring_lang.TraceReader.Kinds.{IsFine}
use ring_lang.TraceReader.Ends.{IsFinal}

-- The rows in front of the runner's residual and total, with the time that they account for: the residual and
-- the total of the runner stand nowhere in it; no setup row stands behind a row of a suite; the setup
-- rows have the expected stages, and the suites come as expected, each in one run of rows; every
-- suite is balanced; setup stages, suite totals and the runner's residual add up to the runner's
-- total, which is no longer than the wall time that was measured.
pub record IsAccounted (suites : List Text) (wall : Option ℤ) (body : List Row)
    (residual total : Row) : Type 0 where
  pub ns : List ℤ
  pub no_summary : any is_runner_summary body ≡ false
  pub front : List Row
  pub back : List Row
  pub parts : body ≡ front ++ back
  pub no_suite : any of_suite front ≡ false
  pub no_setup : any is_setup back ≡ false
  pub setup : map (λ row. row.body.stage) (rows_where is_setup body) ≡ expected_setup_stages suites
  pub order : suite_order_after none (rows_where of_suite body) ≡ suites
  pub balanced : AllBalanced (rows_where of_suite body) suites ns
  pub sum :
      total_of (rows_where is_setup body) +ℤ sum_of ns +ℤ residual.body.duration_ns
      ≡ total.body.duration_ns
  pub measured : ℤ
  pub is_measured : wall ≡ some measured
  pub within : total.body.duration_ns ≤ℤ measured

-- A trace that can be trusted: its rows are numbered 1, 2, ..., each is complete and of a known kind (IsFine), and
-- they are such rows with the runner's residual and total behind them.
pub record IsTrusted (rows : List Row) (suites : List Text) (expected wall : Option ℤ)
    : Type 0 where
  pub body : List Row
  pub residual : Row
  pub total : Row
  pub whole : rows ≡ (body ++ residual ∷ []) ++ total ∷ []
  pub numbered : numbered_from 1 rows ≡ true
  pub fine_rows : All (IsFine suites) rows
  pub final : IsFinal expected residual total
  pub accounted : IsAccounted suites wall body residual total
