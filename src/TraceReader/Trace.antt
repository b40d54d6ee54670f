-- ===== src/TraceReader/Trace.antt =====
-- bench/check/run.py: what `_classify_runner_phase_rows` finds in the trace as a whole.
use ring_lang.Common.{
  ℕ, ◌+◌, Bool, true, false, ◌&&◌, ◌||◌, not, List, [], ◌∷◌, ◌++◌, Option, none, some,
  if◌then◌else◌, ◌==◌, Text, codes, text_eq, mem_text, any,
}
use ring_lang.Common.Int.{ℤ, int_eq}
use ring_lang.PhaseTiming.{Row}
use ring_lang.TraceReader.Rows.{
  Problem, no_final_pair, final_pair_disagrees, exit_disagrees, setup_stages,
  runner_compiler_stages, problem_if, absent, equals,
}

pub record PhaseValidation : Type 0 where
  pub hard_errors : List Problem
  pub eligibility_errors : List Problem

-- What two parts of the validation find, one after the other.
abbrev pub both : PhaseValidation → PhaseValidation → PhaseValidation
both v w = record {
  hard_errors = v.hard_errors ++ w.hard_errors;
  eligibility_errors = v.eligibility_errors ++ w.eligibility_errors;
}

abbrev pub fine : PhaseValidation
fine = record { hard_errors = []; eligibility_errors = [] }

abbrev pub hard : List Problem → PhaseValidation
hard ps = record { hard_errors = ps; eligibility_errors = [] }

abbrev pub eligibility : List Problem → PhaseValidation
eligibility ps = record { hard_errors = []; eligibility_errors = ps }

-- The rows are numbered from `n` on.
unfoldable pub numbered_from : ℕ → List Row → Bool
numbered_from n [] = true
numbered_from n (row ∷ rows) = row.sequence == n && numbered_from (n + 1) rows

-- `rows[:-1]` and `rows[-1]`, in front of which a row stands
abbrev pub behind : Row → Option (List Row × Row) → Option (List Row × Row)
behind row none = some ([], row)
behind row (some (front, last)) = some (row ∷ front, last)

unfoldable pub unsnoc : List Row → Option (List Row × Row)
unsnoc [] = none
unsnoc (row ∷ rows) = behind row (unsnoc rows)

-- A row of the runner, not of a suite, with the stage.
unfoldable pub is_runner_row : Text → Row → Bool
unfolding text_eq
is_runner_row stage row =
    text_eq row.body.stage stage && absent row.body.suite && equals (codes "runner") row.body.case

unfoldable pub is_runner_summary : Row → Bool
unfolding is_runner_row
is_runner_summary row =
    is_runner_row (codes "orchestration_residual") row || is_runner_row (codes "runner_total") row

unfoldable pub same_exit : Option ℤ → Option ℤ → Bool
same_exit none none = true
same_exit (some a) (some b) = int_eq a b
same_exit _ _ = false

unfoldable pub same_bool : Bool → Bool → Bool
same_bool true b = b
same_bool false b = not b

-- `a[key] == b[key]` for `complete`, `outcome` and `exit_code`
unfoldable pub same_outcome : Row → Row → Bool
unfolding same_bool same_exit text_eq
same_outcome a b =
    same_bool a.body.complete b.body.complete
    && text_eq a.body.outcome b.body.outcome
    && same_exit a.body.exit_code b.body.exit_code

-- The rows before the final residual and total, those two, and what is wrong with them.
abbrev pub Ended : Type 0
Ended = List Row × Option (Row × Row) × PhaseValidation

unfoldable pub no_pair : List Row → List Row → Row → Ended
unfolding is_runner_summary
no_pair rows front last =
    (if is_runner_summary last then front else rows, none, eligibility (no_final_pair ∷ []))

-- `front` and `last` are the rows; `earlier` and `residual` are `front`.
unfoldable pub final_pair : List Row → Option ℤ → List Row → Row → Option (List Row × Row) → Ended
unfolding no_pair is_runner_row same_outcome same_exit
final_pair rows expected front last none = no_pair rows front last
final_pair rows expected front last (some (earlier, residual)) =
    if is_runner_row (codes "orchestration_residual") residual
      && is_runner_row (codes "runner_total") last
    then (
      earlier,
      some (residual, last),
      record {
        hard_errors = problem_if (not (same_outcome residual last)) final_pair_disagrees;
        eligibility_errors =
            problem_if
              (not (same_exit residual.body.exit_code expected)
                || not (same_exit last.body.exit_code expected))
              exit_disagrees;
      },
    )
    else no_pair rows front last

unfoldable pub ended_at : List Row → Option ℤ → Option (List Row × Row) → Ended
unfolding final_pair unsnoc
ended_at rows expected none = ([], none, fine)
ended_at rows expected (some (front, last)) = final_pair rows expected front last (unsnoc front)

unfoldable pub ended : List Row → Option ℤ → Ended
unfolding ended_at unsnoc
ended rows expected = ended_at rows expected (unsnoc rows)

unfoldable pub rows_where : (Row → Bool) → List Row → List Row
rows_where p [] = []
rows_where p (row ∷ rows) = let rest = rows_where p rows in if p row then row ∷ rest else rest

unfoldable pub is_setup : Row → Bool
unfolding mem_text
is_setup row = absent row.body.suite && mem_text row.body.stage setup_stages

unfoldable pub of_suite : Row → Bool
of_suite row = not (absent row.body.suite)

-- `body[first_suite:]`
unfoldable pub from_first_suite : List Row → List Row
unfolding of_suite
from_first_suite [] = []
from_first_suite (row ∷ rows) =
    let rest = from_first_suite rows in if of_suite row then row ∷ rows else rest

-- `_runner_expected_setup_stages`
unfoldable pub expected_setup_stages : List Text → List Text
unfolding any mem_text
expected_setup_stages suites =
    let compiled =
      codes "e2e" ∷ codes "golden" ∷ codes "rc" ∷ codes "self-compile" ∷ codes "structural" ∷ [] in
    (if any (λ s. mem_text s compiled) suites then runner_compiler_stages else [])
    ++ (if any (λ s. mem_text s (codes "e2e" ∷ codes "golden" ∷ [])) suites
        then codes "runtime_prepare" ∷ []
        else [])

unfoldable pub texts_eq : List Text → List Text → Bool
unfolding text_eq
texts_eq [] [] = true
texts_eq (a ∷ s) (b ∷ t) = text_eq a b && texts_eq s t
texts_eq _ _ = false

-- `actual == expected[:len(actual)]`
unfoldable pub texts_begin : List Text → List Text → Bool
unfolding text_eq
texts_begin [] t = true
texts_begin (a ∷ s) [] = false
texts_begin (a ∷ s) (b ∷ t) = text_eq a b && texts_begin s t

-- A sequence that is cut short only makes the trace ineligible; any other difference is an error.
unfoldable pub compare_order : List Text → List Text → Problem → Problem → PhaseValidation
unfolding texts_eq texts_begin
compare_order actual expected cut_short mismatch =
    if texts_eq actual expected
    then fine
    else if texts_begin actual expected
    then eligibility (cut_short ∷ [])
    else hard (mismatch ∷ [])

name_of : Option Text → Text
name_of none = []
name_of (some s) = s

-- `actual_suite_order`: the suites of the rows, each run of rows once; `last` is the suite before.
unfoldable pub suite_order_after : Option Text → List Row → List Text
unfolding text_eq name_of
suite_order_after last [] = []
suite_order_after last (row ∷ rows) =
    let rest = suite_order_after row.body.suite rows in
    let name = name_of row.body.suite in if equals name last then rest else name ∷ rest
