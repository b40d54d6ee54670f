-- ===== src/TraceReader/Ends.antt =====
-- bench/check/run.py: the kept rows and the final pair of a trace in which nothing is found.
use ring_lang.Common.{
  arith, and-eq-true, or-eq-false, ◌||◌, ltb, is_empty, ℕ, ◌+◌, ◌≡◌, refl, ap, sym, ◌∙◌, Bool, true,
  false, ◌&&◌, not, List, [], ◌∷◌, ◌++◌, Option, none, some, if◌then◌else◌, Text, codes,
  append-eq-nil,
}
use ring_lang.Common.Int.{ℤ, pos, ltb_ℤ}
use ring_lang.PhaseTiming.{Row}
use ring_lang.TraceReader.Rows.{
  exit_disagrees, final_pair_disagrees, bad_sequence, unselected_suite, selected, negative_duration,
  empty_outcome, empty_suite, empty_case, unknown_stage, unknown_category, no_final_pair,
  problem_if, topology_safe, field_problems, row_problems, rows_problems, valid_rows, known_stage,
  known_category, blank,
}
use ring_lang.TraceReader.Trace.{
  same_exit, same_outcome, PhaseValidation, eligibility, unsnoc, ended_at, final_pair, no_pair,
  Ended, is_runner_row,
}
use ring_lang.TraceReader.Accounts.{no_rows}
use ring_lang.TraceReader.Clean.{
  same_exit-eq, same_outcome-eq, Clean, problem_if-eq-nil, some_problem, unsnoc-some, rejoin,
  rejoin-unsnoc,
}

pub negated : (b : Bool) → not b ≡ false → b ≡ true
negated true h = refl
negated false h = cc

chosen : (b s : Bool) → b ≡ false → (not b && not s) ≡ false → s ≡ true
chosen b s h k = ground arith

-- A row without a problem in its fields is kept, and has a selected suite, a duration that is not negative and
-- an outcome.
pub field_problems-safe :
    (suites : List Text) (index : ℕ) (row : Row)
    → field_problems suites index row ≡ []
    → (topology_safe row ≡ true)
      × (selected suites row.body.suite ≡ true)
      × (ltb_ℤ row.body.duration_ns (pos 0) ≡ false)
      × (is_empty row.body.outcome ≡ false)
unfolding field_problems topology_safe
field_problems-safe suites index row h =
    let body = row.body in
    let p1 = problem_if (ltb row.sequence 1) (bad_sequence index) in
    let p2 = problem_if (blank body.suite) (empty_suite index) in
    let p3 =
      problem_if (not (blank body.suite) && not (selected suites body.suite))
        (unselected_suite index) in
    let p4 = problem_if (blank body.case) (empty_case index) in
    let p5 = problem_if (not (known_stage body.stage)) (unknown_stage index) in
    let p6 = problem_if (ltb_ℤ body.duration_ns (pos 0)) (negative_duration index) in
    let p7 = problem_if (is_empty body.outcome) (empty_outcome index) in
    let p8 = problem_if (not (known_category body.command_category)) (unknown_category index) in
    let h1 = (append-eq-nil p1 (p2 ++ (p3 ++ (p4 ++ (p5 ++ (p6 ++ (p7 ++ p8)))))) h).1 in
    let (b, h2) = append-eq-nil p2 (p3 ++ (p4 ++ (p5 ++ (p6 ++ (p7 ++ p8))))) h1 in
    let (c, h3) = append-eq-nil p3 (p4 ++ (p5 ++ (p6 ++ (p7 ++ p8)))) h2 in
    let (d, h4) = append-eq-nil p4 (p5 ++ (p6 ++ (p7 ++ p8))) h3 in
    let (e, h5) = append-eq-nil p5 (p6 ++ (p7 ++ p8)) h4 in
    let (f, h6) = append-eq-nil p6 (p7 ++ p8) h5 in
    let (g, h7) = append-eq-nil p7 p8 h6 in
    let b1 = problem_if-eq-nil (blank row.body.suite) (empty_suite index) b in
    let d1 = problem_if-eq-nil (blank row.body.case) (empty_case index) d in
    let e1 =
      negated (known_stage row.body.stage)
        (problem_if-eq-nil (not (known_stage row.body.stage)) (unknown_stage index) e) in
    let g1 = negated (known_category row.body.command_category) (
      problem_if-eq-nil (not (known_category row.body.command_category)) (unknown_category index)
        h7) in
    let c1 =
      problem_if-eq-nil (not (blank body.suite) && not (selected suites body.suite))
        (unselected_suite index) c in
    (
      rw (b1, d1, e1, g1),
      chosen (blank body.suite) (selected suites body.suite) b1 c1,
      problem_if-eq-nil (ltb_ℤ body.duration_ns (pos 0)) (negative_duration index) f,
      problem_if-eq-nil (is_empty body.outcome) (empty_outcome index) g,
    )

pub rows_problems-valid :
    (suites : List Text) (index : ℕ) (rows : List Row)
    → rows_problems suites index rows ≡ []
    → valid_rows rows ≡ rows
unfolding rows_problems row_problems valid_rows
rows_problems-valid suites index [] h = refl
rows_problems-valid suites index (row ∷ rows) h =
    let (a, b) =
      append-eq-nil (row_problems suites index row) (rows_problems suites (index + 1) rows) h in
    let (c, d) = append-eq-nil (field_problems suites index row) _ a in
    rw ((field_problems-safe suites index row c).0)
      (ap (λ r. row ∷ r) (rows_problems-valid suites (index + 1) rows b))

-- The residual and the total of the runner, which tell the same ending, with the expected exit code
pub record IsFinal (expected : Option ℤ) (residual total : Row) : Type 0 where
  pub residual_row : is_runner_row (codes "orchestration_residual") residual ≡ true
  pub total_row : is_runner_row (codes "runner_total") total ≡ true
  pub same_end : residual.body.outcome ≡ total.body.outcome
  pub residual_exit : residual.body.exit_code ≡ expected
  pub total_exit : total.body.exit_code ≡ expected

-- The final residual and total stand at the end of the rows.
abbrev pub EndsWith : List Row → Option ℤ → Ended → Type 0
EndsWith rows expected out =
    (residual : Row) × (total : Row) × (out.1 ≡ some (residual, total))
    × (rows ≡ (out.0 ++ residual ∷ []) ++ total ∷ [])
    × IsFinal expected residual total

pair_tests :
    (c : Bool) (rows front earlier : List Row) (residual last : Row) (v : PhaseValidation)
    (body : List Row) (expected : Option ℤ)
    → (c ≡ true → Clean v → IsFinal expected residual last)
    → rows ≡ front ++ last ∷ []
    → front ≡ earlier ++ residual ∷ []
    → let out : Ended =
        if c
        then (earlier, some (residual, last), v)
        else (body, none, eligibility (no_final_pair ∷ [])) in
      Clean out.2 → EndsWith rows expected out
pair_tests true rows front earlier residual last v body expected final e f h =
    (residual, last, refl, e ∙ ap (λ r. r ++ last ∷ []) f, final refl h)
pair_tests false rows front earlier residual last v body expected final e f h =
    absurd (some_problem h.1)

final_pair-EndsWith :
    (rows : List Row) (expected : Option ℤ) (front : List Row) (last : Row)
    (o : Option (List Row × Row))
    → rows ≡ front ++ last ∷ []
    → unsnoc front ≡ o
    → Clean (final_pair rows expected front last o).2
    → EndsWith rows expected (final_pair rows expected front last o)
unfolding final_pair no_pair
final_pair-EndsWith rows expected front last none e u h = absurd (some_problem h.1)
final_pair-EndsWith rows expected front last (some (earlier, residual)) e u h =
    let tests =
      is_runner_row (codes "orchestration_residual") residual
      && is_runner_row (codes "runner_total") last in
    let exits =
      not (same_exit residual.body.exit_code expected)
      || not (same_exit last.body.exit_code expected) in
    pair_tests tests rows front earlier residual last _ _ expected
      (λ rows_are clean.
        let (a, b) =
          and-eq-true (is_runner_row (codes "orchestration_residual") residual)
            (is_runner_row (codes "runner_total") last) rows_are in
        let (c, d) =
          or-eq-false (not (same_exit residual.body.exit_code expected))
            (not (same_exit last.body.exit_code expected))
            (problem_if-eq-nil exits exit_disagrees clean.1) in
        let agree =
          negated (same_outcome residual last)
            (problem_if-eq-nil (not (same_outcome residual last)) final_pair_disagrees clean.0) in
        record {
          residual_row = a;
          total_row = b;
          same_end = (same_outcome-eq residual last agree).0;
          residual_exit = same_exit-eq residual.body.exit_code expected (negated _ c);
          total_exit = same_exit-eq last.body.exit_code expected (negated _ d);
        })
      e (unsnoc-some front earlier residual u) h

pub ended-EndsWith :
    (rows : List Row) (expected : Option ℤ) (o : Option (List Row × Row))
    → no_rows rows ≡ false
    → unsnoc rows ≡ o
    → Clean (ended_at rows expected o).2
    → EndsWith rows expected (ended_at rows expected o)
unfolding ended_at
ended-EndsWith rows expected none n u h =
    absurd (nothing_left rows n (sym (rejoin-unsnoc rows) ∙ ap rejoin u))
  where
    nothing_left : (rows : List Row) → no_rows rows ≡ false → ¬ (rows ≡ [])
    nothing_left [] n e = cc
    nothing_left (row ∷ rows) n e = cc
ended-EndsWith rows expected (some (front, last)) n u h =
    final_pair-EndsWith rows expected front last (unsnoc front) (unsnoc-some rows front last u) refl
      h
