-- ===== src/PhaseTiming/Accounting.antt =====
-- The stages do not overlap: what the rows report adds up to the totals.
use ring_lang.Common.{
  Bool, true, false, ◌||◌, List, [], ◌∷◌, ◌++◌, ◌≡◌, refl, Option, none, some, arith, Text,
  if◌then◌else◌, codes, text_eq, ◌∙◌, sym, ap,
}
use ring_lang.Common.Int.{
  zero-+ℤ, +ℤ-clamp, +ℤ_right_comm, +ℤ-zero, clamp_nonneg, +ℤ_assoc, ℤ, pos, ◌+ℤ◌, ◌-ℤ◌, ◌≤ℤ◌,
  clamp,
}
use ring_lang.PhaseTiming.{
  Stage, Row, PhaseTimingTrace, SubprocessEnd, Ending, emit, account_child, record_stage,
  run_subprocess, close_suite, finish, child_of, subprocess_stage, returned, summary_stage,
  suite_outcome,
}

-- The rows that repeat other rows' time.
abbrev pub is_total : Row → Bool
is_total r =
    text_eq r.body.stage (codes "suite_total") || text_eq r.body.stage (codes "runner_total")

-- The time of all rows but the totals.
abbrev pub stage_time : List Row → ℤ
stage_time [] = pos 0
stage_time (r ∷ rs) = (if is_total r then pos 0 else r.body.duration_ns) +ℤ stage_time rs

stage_time-append :
    (rs : List Row) (r : Row)
    → stage_time (rs ++ r ∷ [])
      ≡ stage_time rs +ℤ (if is_total r then pos 0 else r.body.duration_ns)
stage_time-append [] r = +ℤ-zero _ ∙ sym (zero-+ℤ _)
stage_time-append (x ∷ rs) r = rw (stage_time-append rs r) (sym (+ℤ_assoc _ _ _))

-- All time that the rows report is accounted to the runner or to the suite that is entered.
abbrev pub IsAccounted : PhaseTimingTrace → Type 0
IsAccounted t = stage_time t.stream ≡ t.runner_accounted_ns +ℤ child_of t.suite_state

abbrev pub IsStage : Text → Type 0
IsStage name =
    (text_eq name (codes "suite_total") ≡ false) × (text_eq name (codes "runner_total") ≡ false)

account_child-stream :
    (suite : Option Text) (d : ℤ) (t : PhaseTimingTrace)
    → (account_child suite d t).stream ≡ t.stream
unfolding account_child
account_child-stream suite d t = ground arith

pub account_child-total :
    (suite : Option Text) (d : ℤ) (t : PhaseTimingTrace)
    → (account_child suite d t).runner_accounted_ns
        +ℤ child_of (account_child suite d t).suite_state
      ≡ t.runner_accounted_ns +ℤ child_of t.suite_state +ℤ d
unfolding account_child
account_child-total suite d t = ground (
  arith,
  +ℤ_assoc t.runner_accounted_ns (child_of t.suite_state) d,
  +ℤ_right_comm t.runner_accounted_ns d (child_of t.suite_state),
)

emit-stage_time :
    (e : Stage) (t : PhaseTimingTrace)
    → IsStage e.stage
    → pos 0 ≤ℤ e.duration_ns
    → stage_time (emit e t).stream ≡ stage_time t.stream +ℤ e.duration_ns
unfolding emit
emit-stage_time e t named long =
    stage_time-append t.stream _ ∙ rw (named.0, named.1, clamp_nonneg _ long)

-- A stage with a name of its own and a duration that is not negative keeps the account.
pub record_stage-IsAccounted :
    (e : Stage) (t : PhaseTimingTrace)
    → IsStage e.stage
    → pos 0 ≤ℤ e.duration_ns
    → IsAccounted t
    → IsAccounted (record_stage e t)
unfolding record_stage
record_stage-IsAccounted e t named long h =
    let t' = account_child e.suite e.duration_ns t in
    emit-stage_time e t' named long
    ∙ ap (λ rs. stage_time rs +ℤ e.duration_ns) (account_child-stream e.suite e.duration_ns t)
    ∙ ap (λ a. a +ℤ e.duration_ns) h
    ∙ sym (account_child-total e.suite e.duration_ns t)

subprocess_stage-shape :
    (name : Text) (suite case : Option Text) (category : Text) (d : ℤ) (end : SubprocessEnd)
    → ((subprocess_stage name suite case category d end).stage ≡ name)
      × ((subprocess_stage name suite case category d end).duration_ns ≡ d)
unfolding subprocess_stage
subprocess_stage-shape name suite case category d (returned code) = (refl, refl)
subprocess_stage-shape name suite case category d end = (refl, refl)

-- A subprocess keeps the account, however it ends: if its stage has a name of its own and the clock
-- did not run backwards.
pub run_subprocess-IsAccounted :
    (name : Text) (suite case : Option Text) (category : Text) (started ended : ℤ)
    (end : SubprocessEnd) (t : PhaseTimingTrace)
    → IsStage name
    → pos 0 ≤ℤ ended -ℤ started
    → IsAccounted t
    → IsAccounted (run_subprocess name suite case category started ended end t).1
unfolding run_subprocess
run_subprocess-IsAccounted name suite case category started ended end t named long h =
    let d = ended -ℤ started in
    let e = subprocess_stage name suite case category d end in
    let shape = subprocess_stage-shape name suite case category d end in
    let t' = account_child suite d t in
    emit-stage_time e t' (rw shape.0 named) (rw shape.1 long)
    ∙ ap (λ x. stage_time t'.stream +ℤ x) shape.1
    ∙ ap (λ rs. stage_time rs +ℤ d) (account_child-stream suite d t)
    ∙ ap (λ a. a +ℤ d) h
    ∙ sym (account_child-total suite d t)

emit_total-stage_time :
    (e : Stage) (t : PhaseTimingTrace)
    → (text_eq e.stage (codes "suite_total") || text_eq e.stage (codes "runner_total")) ≡ true
    → stage_time (emit e t).stream ≡ stage_time t.stream
unfolding emit
emit_total-stage_time e t total = stage_time-append t.stream _ ∙ rw total (+ℤ-zero _)

residual_named : IsStage (codes "orchestration_residual")
unfolding text_eq
residual_named = (refl, refl)

totals_named :
    ((text_eq (codes "suite_total") (codes "suite_total")
        || text_eq (codes "suite_total") (codes "runner_total"))
      ≡ true)
    × ((text_eq (codes "runner_total") (codes "suite_total")
          || text_eq (codes "runner_total") (codes "runner_total"))
        ≡ true)
unfolding text_eq
totals_named = (refl, refl)

-- The residual of a suite or of the runner fills the gap that its stages leave.
fills :
    (accounted child total : ℤ)
    → child ≤ℤ total
    → accounted +ℤ child +ℤ clamp (total -ℤ child) ≡ accounted +ℤ total
fills accounted child total fits =
    +ℤ_assoc accounted child _ ∙ ap (λ x. accounted +ℤ x) (+ℤ-clamp total child fits)

-- The end of a suite keeps the account, whatever the callback's end, if the suite lasted as long as
-- its stages: the residual row fills the rest of the suite's time.
pub close_suite-IsAccounted :
    (name : Text) (started ended : ℤ) (ending : Ending) (t : PhaseTimingTrace)
    → child_of t.suite_state ≤ℤ ended -ℤ started
    → IsAccounted t
    → IsAccounted (close_suite name started ended ending t)
unfolding close_suite
close_suite-IsAccounted name started ended ending t fits h =
    let d = ended -ℤ started in
    let (complete, outcome, exit_code) = suite_outcome ending in
    let t₁ = record t { suite_state = none } in
    let residual =
      summary_stage (some name) none (codes "orchestration_residual")
        (clamp (d -ℤ child_of t.suite_state)) complete outcome exit_code in
    let total = summary_stage (some name) none (codes "suite_total") d complete outcome exit_code in
    emit_total-stage_time total (emit residual t₁) totals_named.0
    ∙ emit-stage_time residual t₁ residual_named (omega arith)
    ∙ ap (λ a. a +ℤ clamp (d -ℤ child_of t.suite_state)) h
    ∙ fills t.runner_accounted_ns (child_of t.suite_state) d fits
    ∙ sym (+ℤ-zero _)

-- When the runner finishes outside every suite, no sooner than its stages did, the rows but the
-- totals, with the runner's own residual, add up to the time since the trace was opened.
pub finish-stage_time :
    (now : ℤ) (complete : Bool) (outcome : Text) (exit_code : Option ℤ) (t : PhaseTimingTrace)
    → t.finished ≡ false
    → t.suite_state ≡ none
    → t.runner_accounted_ns ≤ℤ now -ℤ t.runner_started_ns
    → IsAccounted t
    → stage_time (finish now complete outcome exit_code t).stream ≡ now -ℤ t.runner_started_ns
unfolding finish
finish-stage_time now complete outcome exit_code t more outside fits h =
    let d = now -ℤ t.runner_started_ns in
    let t₁ = record t { finished = true } in
    let residual =
      summary_stage none (some (codes "runner")) (codes "orchestration_residual")
        (clamp (d -ℤ t.runner_accounted_ns)) complete outcome exit_code in
    let total =
      summary_stage none (some (codes "runner")) (codes "runner_total") d complete outcome
        exit_code in
    let all : stage_time t.stream ≡ t.runner_accounted_ns =
      h ∙ ap (λ o. t.runner_accounted_ns +ℤ child_of o) outside ∙ +ℤ-zero _ in
    rw more (
      emit_total-stage_time total (emit residual t₁) totals_named.1
      ∙ emit-stage_time residual t₁ residual_named (omega arith)
      ∙ ap (λ a. a +ℤ clamp (d -ℤ t.runner_accounted_ns)) all
      ∙ +ℤ-clamp d t.runner_accounted_ns fits)
