-- ===== src/TraceReader/Kinds.antt =====
-- bench/check/run.py: the kinds of rows in which `_classify_runner_phase_rows` finds nothing.
use ring_lang.Common.{
  arith, ℕ, ◌+◌, ◌≡◌, refl, ap, sym, ◌∙◌, All, Bool, true, false, ◌&&◌, ◌||◌, not, ◌⊎◌, inl, inr,
  List, [], ◌∷◌, if◌then◌else◌, Text, codes, text_eq, mem_text, is_empty, append-eq-nil,
}
use ring_lang.Common.Int.{pos, ltb_ℤ}
use ring_lang.PhaseTiming.{Stage, Row}
use ring_lang.TraceReader.{
  is_none, runner_subprocess_outcome_is_valid, runner_summary_outcome_is_valid,
}
use ring_lang.TraceReader.Rows.{
  Problem, setup_scope, bad_cached_runtime, bad_compiler_stage, bad_child, bad_suite_summary,
  bad_runner_summary, bad_combination, incomplete_row, setup_stages, child_stages, child_category,
  problem_if, absent, equals, blank, selected, runtime_cached, setup_problems, combination_problems,
  row_problems, rows_problems, incomplete_rows, topology_safe, field_problems,
}
use ring_lang.TraceReader.Ends.{negated, field_problems-safe}
use ring_lang.TraceReader.Clean.{problem_if-eq-nil, some_problem}

-- What a row can be
pub data RowKind (suites : List Text) (row : Stage) : Type 0 where
  -- a runtime that was not built again
  cached_runtime :
      (text_eq row.stage (codes "runtime_prepare") ≡ true)
      → (absent row.suite ≡ true)
      → (equals (codes "runner") row.case ≡ true)
      → (absent row.command_category ≡ true)
      → (is_none row.exit_code ≡ true)
      → (row.executed ≡ false)
      → ((text_eq row.outcome (codes "cached") || text_eq row.outcome (codes "missing-input"))
          ≡ true)
      → RowKind suites row
  -- a compiler command of the runner
  setup_command :
      (mem_text row.stage setup_stages ≡ true)
      → (absent row.suite ≡ true)
      → (equals (codes "runner") row.case ≡ true)
      → (equals (codes "clang") row.command_category ≡ true)
      → (runner_subprocess_outcome_is_valid row ≡ true)
      → RowKind suites row
  -- a command of a case of a suite
  child_command :
      (mem_text row.stage child_stages ≡ true)
      → (absent row.suite ≡ false)
      → (selected suites row.suite ≡ true)
      → (absent row.case ≡ false)
      → (equals (child_category row.stage) row.command_category ≡ true)
      → (runner_subprocess_outcome_is_valid row ≡ true)
      → RowKind suites row
  -- the residual or the total of a suite
  suite_summary :
      (text_eq row.stage (codes "runner_total") ≡ false)
      → (absent row.suite ≡ false)
      → (absent row.case ≡ true)
      → (absent row.command_category ≡ true)
      → (runner_summary_outcome_is_valid row false ≡ true)
      → RowKind suites row
  -- the residual or the total of the runner
  runner_summary :
      (text_eq row.stage (codes "suite_total") ≡ false)
      → (absent row.suite ≡ true)
      → (equals (codes "runner") row.case ≡ true)
      → (absent row.command_category ≡ true)
      → (runner_summary_outcome_is_valid row true ≡ true)
      → RowKind suites row

choice :
    (b : Bool) (x y : List Problem)
    → (if b then x else y) ≡ []
    → ((b ≡ true) × (x ≡ [])) ⊎ ((b ≡ false) × (y ≡ []))
choice true x y h = inl (refl, h)
choice false x y h = inr (refl, h)

setup_problems-RowKind :
    (suites : List Text) (index : ℕ) (row : Stage)
    → mem_text row.stage setup_stages ≡ true
    → setup_problems index row ≡ []
    → RowKind suites row
unfolding setup_problems runtime_cached
setup_problems-RowKind suites index row stage h =
    let runs = runner_subprocess_outcome_is_valid row in
    let scope = not (absent row.suite) || not (equals (codes "runner") row.case) in
    let (a, b) = append-eq-nil (problem_if scope (setup_scope index)) _ h in
    let scoped = problem_if-eq-nil scope (setup_scope index) a in
    elim (choice (text_eq row.stage (codes "runtime_prepare") && absent row.command_category)
      (problem_if (not (runtime_cached row)) (bad_cached_runtime index))
      (problem_if (not (equals (codes "clang") row.command_category) || not runs)
        (bad_compiler_stage index))
      b) [
        | inl (c, d) ↦
            let e = problem_if-eq-nil (not (runtime_cached row)) (bad_cached_runtime index) d in
            cached_runtime (ground arith) (ground arith) (ground arith) (ground arith)
              (ground arith) (ground arith) (ground arith)
        | inr (c, d) ↦
            let e =
              problem_if-eq-nil (not (equals (codes "clang") row.command_category) || not runs)
                (bad_compiler_stage index) d in
            setup_command stage (ground arith) (ground arith) (ground arith) (ground arith)
      ]

combination_problems-RowKind :
    (suites : List Text) (index : ℕ) (row : Stage)
    → combination_problems suites index row ≡ []
    → RowKind suites row
unfolding combination_problems
combination_problems-RowKind suites index row h =
    let runs = runner_subprocess_outcome_is_valid row in
    let child =
      absent row.suite
      || not (selected suites row.suite)
      || absent row.case
      || blank row.case
      || not (equals (child_category row.stage) row.command_category)
      || not runs in
    let suite_row =
      not (absent row.case)
      || not (absent row.command_category)
      || not (runner_summary_outcome_is_valid row false) in
    let runner_row =
      not (absent row.command_category) || not (runner_summary_outcome_is_valid row true) in
    elim (choice (mem_text row.stage setup_stages) (setup_problems index row) _ h) [
      | inl (s, p) ↦ setup_problems-RowKind suites index row s p
      | inr (s, p) ↦
          elim (choice (mem_text row.stage child_stages) (problem_if child (bad_child index)) _ p) [
            | inl (c, q) ↦
                let e = problem_if-eq-nil child (bad_child index) q in
                child_command c (ground arith) (ground arith) (ground arith) (ground arith)
                  (ground arith)
            | inr (c, q) ↦
                elim (choice
                  (not (text_eq row.stage (codes "runner_total")) && not (absent row.suite))
                  (problem_if suite_row (bad_suite_summary index)) _ q) [
                    | inl (d, r) ↦
                        let e = problem_if-eq-nil suite_row (bad_suite_summary index) r in
                        suite_summary (ground arith) (ground arith) (ground arith) (ground arith)
                          (ground arith)
                    | inr (d, r) ↦
                        elim (choice
                          (not (text_eq row.stage (codes "suite_total"))
                            && absent row.suite
                            && equals (codes "runner") row.case)
                          (problem_if runner_row (bad_runner_summary index))
                          (bad_combination index ∷ []) r) [
                            | inl (f, k) ↦
                                let e = problem_if-eq-nil runner_row (bad_runner_summary index) k in
                                runner_summary (ground arith) (ground arith) (ground arith)
                                  (ground arith) (ground arith)
                            | inr (f, k) ↦ absurd (some_problem k)
                          ]
                  ]
          ]
    ]

-- A row without a message
pub record IsFine (suites : List Text) (row : Row) : Type 0 where
  pub complete : row.body.complete ≡ true
  pub is_chosen : selected suites row.body.suite ≡ true
  pub not_negative : ltb_ℤ row.body.duration_ns (pos 0) ≡ false
  pub has_outcome : is_empty row.body.outcome ≡ false
  pub kind : RowKind suites row.body

pub rows_problems-IsFine :
    (suites : List Text) (index : ℕ) (rows : List Row)
    → rows_problems suites index rows ≡ []
    → incomplete_rows index rows ≡ []
    → All (IsFine suites) rows
unfolding rows_problems row_problems incomplete_rows
rows_problems-IsFine suites index [] h k = tt
rows_problems-IsFine suites index (row ∷ rows) h k =
    let (a, b) =
      append-eq-nil (row_problems suites index row) (rows_problems suites (index + 1) rows) h in
    let (c, d) =
      append-eq-nil (field_problems suites index row)
        (if topology_safe row then combination_problems suites index row.body else []) a in
    let (e, f) =
      append-eq-nil (problem_if (not row.body.complete) (incomplete_row index))
        (incomplete_rows (index + 1) rows) k in
    let (safe, chosen, counted, told) = field_problems-safe suites index row c in
    (
      record {
        complete = negated row.body.complete (problem_if-eq-nil _ (incomplete_row index) e);
        is_chosen = chosen;
        not_negative = counted;
        has_outcome = told;
        kind = combination_problems-RowKind suites index row.body (
            ap (λ (b : Bool). if b then combination_problems suites index row.body else [])
              (sym safe)
            ∙ d);
      },
      rows_problems-IsFine suites (index + 1) rows b f,
    )
