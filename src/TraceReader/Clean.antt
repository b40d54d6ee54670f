-- ===== src/TraceReader/Clean.antt =====
-- bench/check/run.py: what the parts of `_classify_runner_phase_rows` have checked if they find nothing.
use ring_lang.Common.{
  ◌≡◌, refl, ap, sym, ◌∙◌, Bool, true, false, ◌&&◌, not, List, [], ◌∷◌, ◌++◌, Option, none, some,
  if◌then◌else◌, Text, text_eq, text_eq_iff, append-eq-nil, all, any, mem_text, arith, not-eq-false,
  codes, and-eq-true,
}
use ring_lang.Common.Int.{ℤ, int_eq, int_eq_iff, ◌+ℤ◌}
use ring_lang.PhaseTiming.{Row}
use ring_lang.TraceReader.Rows.{
  summary_stages, misplaced_summary, suite_pair_disagrees, suite_accounting, no_suite_tail, Problem,
  problem_if, equals,
}
use ring_lang.TraceReader.Trace.{
  same_exit, same_outcome, PhaseValidation, both, fine, hard, eligibility, unsnoc, behind, texts_eq,
  compare_order, rows_where,
}
use ring_lang.TraceReader.Accounts.{
  suite_found, total_of, counted, suite_totals, suite_tail, suite_ends, suite_account,
  suite_accounts, add_total,
}

-- No problem of either kind.
abbrev pub Clean : PhaseValidation → Type 0
Clean v = (v.hard_errors ≡ []) × (v.eligibility_errors ≡ [])

pub Clean-both : (v w : PhaseValidation) → Clean (both v w) → Clean v × Clean w
Clean-both v w (h, e) =
    let (a, b) = append-eq-nil v.hard_errors w.hard_errors h in
    let (c, d) = append-eq-nil v.eligibility_errors w.eligibility_errors e in ((a, c), (b, d))

pub problem_if-eq-nil : (b : Bool) (p : Problem) → problem_if b p ≡ [] → b ≡ false
problem_if-eq-nil true p h = cc
problem_if-eq-nil false p h = refl

pub some_problem : {p : Problem} {ps : List Problem} → ¬ (p ∷ ps ≡ [])
some_problem h = cc

pub texts_eq-path : (s t : List Text) → texts_eq s t ≡ true → s ≡ t
unfolding texts_eq
texts_eq-path [] [] h = refl
texts_eq-path [] (b ∷ t) h = cc
texts_eq-path (a ∷ s) [] h = cc
texts_eq-path (a ∷ s) (b ∷ t) h =
    let (e, f) = and-eq-true (text_eq a b) (texts_eq s t) h in
    let g = texts_eq-path s t f in let k = (text_eq_iff a b).0 e in λ i. k i ∷ g i

order_tests :
    (b c : Bool) (p q : Problem)
    → Clean (if b then fine else if c then eligibility (p ∷ []) else hard (q ∷ []))
    → b ≡ true
order_tests true c p q h = refl
order_tests false true p q h = absurd (some_problem h.1)
order_tests false false p q h = absurd (some_problem h.0)

-- No problem with an order: it is the expected one.
pub Clean-compare_order :
    (actual expected : List Text) (p q : Problem)
    → Clean (compare_order actual expected p q)
    → actual ≡ expected
unfolding compare_order
Clean-compare_order actual expected p q h =
    texts_eq-path actual expected (order_tests (texts_eq actual expected) _ p q h)

-- The rows that `unsnoc` took apart.
abbrev pub rejoin : Option (List Row × Row) → List Row
rejoin none = []
rejoin (some (front, last)) = front ++ last ∷ []

rejoin-behind : (row : Row) (o : Option (List Row × Row)) → rejoin (behind row o) ≡ row ∷ rejoin o
rejoin-behind row none = refl
rejoin-behind row (some (front, last)) = refl

pub rejoin-unsnoc : (rows : List Row) → rejoin (unsnoc rows) ≡ rows
unfolding unsnoc
rejoin-unsnoc [] = refl
rejoin-unsnoc (row ∷ rows) =
    rejoin-behind row (unsnoc rows) ∙ ap (λ r. row ∷ r) (rejoin-unsnoc rows)

pub unsnoc-some :
    (rows front : List Row) (last : Row)
    → unsnoc rows ≡ some (front, last)
    → rows ≡ front ++ last ∷ []
unsnoc-some rows front last h = sym (rejoin-unsnoc rows) ∙ ap rejoin h

pub same_exit-eq : (a b : Option ℤ) → same_exit a b ≡ true → a ≡ b
unfolding same_exit
same_exit-eq none none h = refl
same_exit-eq (some a) (some b) h = ap some ((int_eq_iff a b).0 h)
same_exit-eq none (some b) h = cc
same_exit-eq (some a) none h = cc

-- Two rows that tell the same ending
pub same_outcome-eq :
    (a b : Row)
    → same_outcome a b ≡ true
    → (a.body.outcome ≡ b.body.outcome) × (a.body.exit_code ≡ b.body.exit_code)
unfolding same_outcome
same_outcome-eq a b h = (
  (text_eq_iff a.body.outcome b.body.outcome).0 (ground arith),
  same_exit-eq a.body.exit_code b.body.exit_code (ground arith),
)

-- The rows of a suite are its children, none of which is a residual or a total, their residual and its total
-- `n`, which tell the same ending, and the children and the residual sum up to the total.
pub record IsBalanced (suite_rows : List Row) (suite : Text) (n : ℤ) : Type 0 where
  pub children : List Row
  pub residual : Row
  pub total : Row
  pub whole :
      rows_where (λ row. equals suite row.body.suite) suite_rows
      ≡ (children ++ residual ∷ []) ++ total ∷ []
  pub residual_stage : text_eq residual.body.stage (codes "orchestration_residual") ≡ true
  pub total_stage : text_eq total.body.stage (codes "suite_total") ≡ true
  pub no_summary : any (λ row. mem_text row.body.stage summary_stages) children ≡ false
  pub same_end :
      (residual.body.outcome ≡ total.body.outcome)
      × (residual.body.exit_code ≡ total.body.exit_code)
  pub is_total : total.body.duration_ns ≡ n
  pub sum : total_of children +ℤ residual.body.duration_ns ≡ n

totals_tests :
    (c b : Bool) (found : PhaseValidation) (p : Problem) (t : ℤ) {n : ℤ}
    → let out : PhaseValidation × Option ℤ =
        if c then (both found (eligibility (problem_if (not b) p)), some t) else (found, none) in
      Clean out.0 → out.1 ≡ some n → (b ≡ true) × (t ≡ n) × Clean found
totals_tests true b found p t h e =
    let (f, g) = Clean-both found (eligibility (problem_if (not b) p)) h in
    (negated b (problem_if-eq-nil (not b) p g.1), cc, f)
  where
    negated : (b : Bool) → not b ≡ false → b ≡ true
    negated true h = refl
    negated false h = cc
totals_tests false b found p t h e = cc

suite_totals-sum :
    (suite : Text) (children : List Row) (residual total : Row) {n : ℤ}
    → Clean (suite_totals suite children residual total).0
    → (suite_totals suite children residual total).1 ≡ some n
    → (total.body.duration_ns ≡ n)
      × (total_of children +ℤ residual.body.duration_ns ≡ n)
      × Clean (suite_found suite children residual total)
unfolding suite_totals
suite_totals-sum suite children residual total h e =
    let accounted = total_of children +ℤ residual.body.duration_ns in
    let (b, t, found) =
      totals_tests (all counted children && counted residual && counted total)
        (int_eq accounted total.body.duration_ns) (suite_found suite children residual total)
        (suite_accounting suite) total.body.duration_ns h e in
    (t, (int_eq_iff accounted total.body.duration_ns).0 b ∙ t, found)

tail_tests :
    (c : Bool) (a : PhaseValidation × Option ℤ) (p : Problem) {n : ℤ}
    → let out : PhaseValidation × Option ℤ = if c then a else (eligibility (p ∷ []), none) in
      Clean out.0 → out.1 ≡ some n → Clean a.0 × (a.1 ≡ some n) × (c ≡ true)
tail_tests true a p h e = (h, e, refl)
tail_tests false a p h e = absurd (some_problem h.1)

suite_tail-IsBalanced :
    (suite_rows : List Row) (suite : Text) (front : List Row) (total : Row)
    (o : Option (List Row × Row)) {n : ℤ}
    → unsnoc front ≡ o
    → unsnoc (rows_where (λ row. equals suite row.body.suite) suite_rows) ≡ some (front, total)
    → Clean (suite_tail suite total o).0
    → (suite_tail suite total o).1 ≡ some n
    → IsBalanced suite_rows suite n
unfolding suite_tail suite_found
suite_tail-IsBalanced suite_rows suite front total none v u h e = absurd (some_problem h.1)
suite_tail-IsBalanced suite_rows suite front total (some (children, residual)) v u h e =
    let (k, l, stages) =
      tail_tests
        (text_eq residual.body.stage (codes "orchestration_residual")
          && text_eq total.body.stage (codes "suite_total"))
        (suite_totals suite children residual total) (no_suite_tail suite) h e in
    let (t, s, found) = suite_totals-sum suite children residual total k l in
    let (first, second) =
      and-eq-true (text_eq residual.body.stage (codes "orchestration_residual"))
        (text_eq total.body.stage (codes "suite_total")) stages in
    let misplaced = any (λ row. mem_text row.body.stage summary_stages) children in
    let agree = same_outcome residual total in
    let (no_summary, same) =
      append-eq-nil (problem_if misplaced (misplaced_summary suite))
        (problem_if (not agree) (suite_pair_disagrees suite)) found.0 in
    let whole =
      unsnoc-some (rows_where (λ row. equals suite row.body.suite) suite_rows) front total u in
    record {
      children = children;
      residual = residual;
      total = total;
      whole = whole ∙ ap (λ r. r ++ total ∷ []) (unsnoc-some front children residual v);
      residual_stage = first;
      total_stage = second;
      no_summary = problem_if-eq-nil misplaced (misplaced_summary suite) no_summary;
      same_end =
          same_outcome-eq residual total
            (not-eq-false agree (problem_if-eq-nil (not agree) (suite_pair_disagrees suite) same));
      is_total = t;
      sum = s;
    }

suite_ends-IsBalanced :
    (suite_rows : List Row) (suite : Text) (o : Option (List Row × Row)) {n : ℤ}
    → unsnoc (rows_where (λ row. equals suite row.body.suite) suite_rows) ≡ o
    → Clean (suite_ends suite o).0
    → (suite_ends suite o).1 ≡ some n
    → IsBalanced suite_rows suite n
unfolding suite_ends
suite_ends-IsBalanced suite_rows suite none u h e = absurd (some_problem h.1)
suite_ends-IsBalanced suite_rows suite (some (front, total)) u h e =
    suite_tail-IsBalanced suite_rows suite front total (unsnoc front) refl u h e

-- Every suite with its total, and each of them balanced.
abbrev pub AllBalanced : List Row → List Text → List ℤ → Type 0
AllBalanced suite_rows [] [] = Unit
AllBalanced suite_rows (suite ∷ suites) (n ∷ ns) =
    IsBalanced suite_rows suite n × AllBalanced suite_rows suites ns
AllBalanced suite_rows _ _ = ⊥

add_total-some :
    (o : Option ℤ) (p : Option (List ℤ)) (ns : List ℤ)
    → add_total o p ≡ some ns
    → (n : ℤ) × (ms : List ℤ) × (o ≡ some n) × (p ≡ some ms) × (ns ≡ n ∷ ms)
unfolding add_total
add_total-some none p ns h = cc
add_total-some (some n) none ns h = cc
add_total-some (some n) (some ms) ns h = (n, ms, refl, refl, cc)

pub suite_accounts-AllBalanced :
    (suite_rows : List Row) (suites : List Text) (ns : List ℤ)
    → Clean (suite_accounts suite_rows suites).0
    → (suite_accounts suite_rows suites).1 ≡ some ns
    → AllBalanced suite_rows suites ns
unfolding suite_accounts suite_account
suite_accounts-AllBalanced suite_rows [] [] h e = tt
suite_accounts-AllBalanced suite_rows [] (n ∷ ns) h e = cc
suite_accounts-AllBalanced suite_rows (suite ∷ suites) ns h e =
    let here = suite_account suite_rows suite in
    let rest = suite_accounts suite_rows suites in
    let (a, b) = Clean-both here.0 rest.0 h in
    let (n, ms, p, q, r) = add_total-some here.1 rest.1 ns e in
    rw r (
      suite_ends-IsBalanced suite_rows suite
          (unsnoc (rows_where (λ row. equals suite row.body.suite) suite_rows)) refl a p,
      suite_accounts-AllBalanced suite_rows suites ms b q,
    )
