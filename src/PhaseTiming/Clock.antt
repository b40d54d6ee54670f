-- ===== src/PhaseTiming/Clock.antt =====
-- tests/run_tests.py: histories of a `PhaseTimingTrace` with the clock, in which the time adds up.
use mathlib.Core.Path.{subst}
use ring_lang.Common.{
  arith, Bool, true, ◌≡◌, refl, Option, none, some, Text, text_eq_iff, ap, sym, ◌∙◌,
}
use ring_lang.Common.Int.{ℤ, pos, ◌+ℤ◌, ◌-ℤ◌, ◌≤ℤ◌, int_laws}
use ring_lang.PhaseTiming.{
  Stage, PhaseTimingTrace, SuitePhaseState, SubprocessEnd, Ending, start, current_suite, emit,
  account_child, record_stage, run_subprocess, close_suite, run_suite_in, run_suite, finish,
  is_suite, child_of,
}
use ring_lang.PhaseTiming.Accounting.{
  IsAccounted, IsStage, stage_time, account_child-total, record_stage-IsAccounted,
  run_subprocess-IsAccounted, close_suite-IsAccounted, finish-stage_time,
}
use ring_lang.PhaseTiming.Sequence.{account_child-suite, run_suite_in-suite}

-- The time of a stage goes to the suite that is entered, if there is one.
abbrev pub GoesTo : Option Text → Option SuitePhaseState → Type 0
GoesTo suite none = Unit
GoesTo suite (some s) = is_suite suite s.name ≡ true

-- The current suite is the one that a stage's time goes to.
pub current_suite-GoesTo :
    (t : PhaseTimingTrace) {name : Text}
    → current_suite t ≡ some name
    → GoesTo (some name) t.suite_state
unfolding current_suite
current_suite-GoesTo t {name} h = entered t.suite_state h
  where
    entered :
        (o : Option SuitePhaseState)
        → (elim o [ none ↦ none | some s ↦ some s.name ]) ≡ some name
        → GoesTo (some name) o
    entered none h = tt
    entered (some s) h = (text_eq_iff name s.name).1 cc

-- What the callers do between the clock readings `a` and `b`. A command runs from one to the other; a recorded
-- stage took no longer than that; the callback of a suite is any such code, in that suite.
pub data Runs : ℤ → ℤ → PhaseTimingTrace → PhaseTimingTrace → Type 0 where
  waits : {a b : ℤ} → a ≤ℤ b → (t : PhaseTimingTrace) → Runs a b t t
  then_ : {a b c : ℤ} {t u v : PhaseTimingTrace} → Runs a b t u → Runs b c u v → Runs a c t v
  records :
      {a b : ℤ} (t : PhaseTimingTrace) (e : Stage)
      → IsStage e.stage
      → pos 0 ≤ℤ e.duration_ns
      → e.duration_ns ≤ℤ b -ℤ a
      → GoesTo e.suite t.suite_state
      → Runs a b t (record_stage e t)
  commands :
      {a b : ℤ} (t : PhaseTimingTrace) (name : Text) (suite case : Option Text) (category : Text)
      (end : SubprocessEnd)
      → IsStage name
      → pos 0 ≤ℤ b -ℤ a
      → GoesTo suite t.suite_state
      → Runs a b t (run_subprocess name suite case category a b end t).1
  suites :
      {a b : ℤ} (t : PhaseTimingTrace) (name : Text)
      (callback : PhaseTimingTrace → Ending × PhaseTimingTrace)
      → a ≤ℤ b
      → ((u : PhaseTimingTrace) → current_suite u ≡ some name → Runs a b u (callback u).1)
      → Runs a b t (run_suite name a b callback t).1

-- All time that is accounted
abbrev pub accounted : PhaseTimingTrace → ℤ
accounted t = t.runner_accounted_ns +ℤ child_of t.suite_state

-- What such a run keeps: the account, the suite, what the runner has outside of it, and that no more time is
-- accounted than went by.
pub record Keeps (a b : ℤ) (t u : PhaseTimingTrace) : Type 0 where
  pub account : IsAccounted t → IsAccounted u
  pub forward : a ≤ℤ b
  pub no_more : accounted u +ℤ a ≤ℤ accounted t +ℤ b
  pub suite : current_suite u ≡ current_suite t
  pub outside :
      (name : Text) → current_suite t ≡ some name → u.runner_accounted_ns ≡ t.runner_accounted_ns
  pub started : u.runner_started_ns ≡ t.runner_started_ns
  pub finished : u.finished ≡ t.finished

account_child-kept :
    (suite : Option Text) (d : ℤ) (t : PhaseTimingTrace)
    → ((account_child suite d t).runner_started_ns ≡ t.runner_started_ns)
      × ((account_child suite d t).finished ≡ t.finished)
unfolding account_child
account_child-kept suite d t = ground arith

entered-none :
    (t : PhaseTimingTrace) {name : Text} → t.suite_state ≡ none → current_suite t ≡ some name → ⊥
unfolding current_suite
entered-none t e c = no_suite (sym (ap name_in e) ∙ c)
  where
    name_in : Option SuitePhaseState → Option Text
    name_in none = none
    name_in (some s) = some s.name

    no_suite : {n : Text} → ¬ (◌≡◌ {A = Option Text} none (some n))
    no_suite h = cc

account_child-outside :
    (suite : Option Text) (d : ℤ) (t : PhaseTimingTrace) (o : Option SuitePhaseState)
    → t.suite_state ≡ o
    → GoesTo suite o
    → (name : Text) → current_suite t ≡ some name
    → (account_child suite d t).runner_accounted_ns ≡ t.runner_accounted_ns
unfolding account_child current_suite
account_child-outside suite d t none e g name c = absurd (entered-none t e c)
account_child-outside suite d t (some s) e g name c = rw (e, g)

adds : (a b d x : ℤ) → d ≤ℤ b -ℤ a → x +ℤ d +ℤ a ≤ℤ x +ℤ b
adds a b d x h = omega int_laws

within : (a b d x y : ℤ) → y ≡ x +ℤ d → d ≤ℤ b -ℤ a → y +ℤ a ≤ℤ x +ℤ b
within a b d x y e h = rw e (adds a b d x h)

left_over : (a b x y c : ℤ) → y ≡ x → y +ℤ c +ℤ a ≤ℤ x +ℤ pos 0 +ℤ b → c ≤ℤ b -ℤ a
left_over a b x y c e h = left y (subst (λ z. y +ℤ c +ℤ a ≤ℤ z +ℤ pos 0 +ℤ b) (sym e) h)
  where
    left : (x : ℤ) → x +ℤ c +ℤ a ≤ℤ x +ℤ pos 0 +ℤ b → c ≤ℤ b -ℤ a
    left x h = omega int_laws

closed : (a b x y o : ℤ) → y ≡ x → o ≡ pos 0 → y +ℤ (b -ℤ a) +ℤ pos 0 +ℤ a ≤ℤ x +ℤ o +ℤ b
closed a b x y o e f = rw (e, f) (omega int_laws)

record_stage-Keeps :
    (a b : ℤ) (t : PhaseTimingTrace) (e : Stage)
    → IsStage e.stage
    → pos 0 ≤ℤ e.duration_ns
    → e.duration_ns ≤ℤ b -ℤ a
    → GoesTo e.suite t.suite_state
    → Keeps a b t (record_stage e t)
unfolding record_stage emit current_suite
record_stage-Keeps a b t e named long short goes =
    let kept = account_child-kept e.suite e.duration_ns t in
    record {
      account = record_stage-IsAccounted e t named long;
      forward = omega int_laws;
      no_more =
          within a b e.duration_ns (accounted t) _ (account_child-total e.suite e.duration_ns t)
            short;
      suite = account_child-suite e.suite e.duration_ns t;
      outside = account_child-outside e.suite e.duration_ns t t.suite_state refl goes;
      started = kept.0;
      finished = kept.1;
    }

run_subprocess-Keeps :
    (a b : ℤ) (t : PhaseTimingTrace) (name : Text) (suite case : Option Text) (category : Text)
    (end : SubprocessEnd)
    → IsStage name
    → pos 0 ≤ℤ b -ℤ a
    → GoesTo suite t.suite_state
    → Keeps a b t (run_subprocess name suite case category a b end t).1
unfolding run_subprocess emit current_suite
run_subprocess-Keeps a b t name suite case category end named long goes =
    let kept = account_child-kept suite (b -ℤ a) t in
    record {
      account = run_subprocess-IsAccounted name suite case category a b end t named long;
      forward = omega int_laws;
      no_more =
          within a b (b -ℤ a) (accounted t) _ (account_child-total suite (b -ℤ a) t)
            (omega int_laws);
      suite = account_child-suite suite (b -ℤ a) t;
      outside = account_child-outside suite (b -ℤ a) t t.suite_state refl goes;
      started = kept.0;
      finished = kept.1;
    }

then-Keeps : (a b c : ℤ) (t u v : PhaseTimingTrace) → Keeps a b t u → Keeps b c u v → Keeps a c t v
then-Keeps a b c t u v k l = record {
  account = λ h. l.account (k.account h);
  forward = let p = k.forward in let q = l.forward in omega int_laws;
  no_more = let p = k.no_more in let q = l.no_more in omega int_laws;
  suite = l.suite ∙ k.suite;
  outside = λ name h. l.outside name (k.suite ∙ h) ∙ k.outside name h;
  started = l.started ∙ k.started;
  finished = l.finished ∙ k.finished;
}

-- The end of a suite, whose stages took no longer than it did.
run_suite_in-Keeps :
    (a b : ℤ) (o : Option SuitePhaseState) (t : PhaseTimingTrace) (name : Text)
    (callback : PhaseTimingTrace → Ending × PhaseTimingTrace)
    → t.suite_state ≡ o
    → a ≤ℤ b
    → ((u : PhaseTimingTrace) → current_suite u ≡ some name → Keeps a b u (callback u).1)
    → Keeps a b t (run_suite_in o name a b callback t).1
unfolding run_suite_in close_suite emit current_suite
run_suite_in-Keeps a b (some s) t name callback e forward keeps = record {
  account = λ h. h;
  forward = forward;
  no_more = omega int_laws;
  suite = refl;
  outside = λ n h. refl;
  started = refl;
  finished = refl;
}
run_suite_in-Keeps a b none t name callback e forward keeps =
    let state : SuitePhaseState = record {
      name = name;
      started_ns = a;
      child_duration_ns = pos 0;
    } in
    let inside = record t { suite_state = some state } in
    let r = callback inside in
    let k = keeps inside refl in
    let same = k.outside name refl in
    record {
      account = λ h.
          close_suite-IsAccounted name a b r.0 r.1
            (left_over a b t.runner_accounted_ns r.1.runner_accounted_ns (child_of r.1.suite_state)
              same k.no_more)
            (k.account (h ∙ ap (λ o. t.runner_accounted_ns +ℤ child_of o) e));
      forward = forward;
      no_more =
          closed a b t.runner_accounted_ns r.1.runner_accounted_ns (child_of t.suite_state) same
            (ap child_of e);
      suite = run_suite_in-suite none name a b callback t e;
      outside = λ n h. absurd (entered-none t e h);
      started = k.started;
      finished = k.finished;
    }

Runs-Keeps : {a b : ℤ} {t u : PhaseTimingTrace} → Runs a b t u → Keeps a b t u
unfolding run_suite
Runs-Keeps (waits forward t) = record {
  account = λ h. h;
  forward = forward;
  no_more = omega int_laws;
  suite = refl;
  outside = λ n h. refl;
  started = refl;
  finished = refl;
}
Runs-Keeps {a = a} {b = c} {t = t} {u = v} (then_ {b = b} {u = u} p q) =
    then-Keeps a b c t u v (Runs-Keeps p) (Runs-Keeps q)
Runs-Keeps {a = a} {b = b} (records t e named long short goes) =
    record_stage-Keeps a b t e named long short goes
Runs-Keeps {a = a} {b = b} (commands t name suite case category end named long goes) =
    run_subprocess-Keeps a b t name suite case category end named long goes
Runs-Keeps {a = a} {b = b} (suites t name callback forward steps) =
    run_suite_in-Keeps a b t.suite_state t name callback refl forward
      (λ u inside. Runs-Keeps (steps u inside))

start-IsAccounted : (now : ℤ) → IsAccounted (start now)
unfolding start ◌+ℤ◌
start-IsAccounted now = refl

not_entered : (t : PhaseTimingTrace) → current_suite t ≡ none → t.suite_state ≡ none
unfolding current_suite
not_entered t h = left t.suite_state h
  where
    left :
        (o : Option SuitePhaseState)
        → (elim o [ none ↦ none | some s ↦ some s.name ]) ≡ none
        → o ≡ none
    left none h = refl
    left (some s) h = cc

fits : (a b r o : ℤ) → o ≡ pos 0 → r +ℤ o +ℤ a ≤ℤ pos 0 +ℤ pos 0 +ℤ b → r ≤ℤ b -ℤ a
fits a b r o e h = left (subst (λ z. r +ℤ z +ℤ a ≤ℤ pos 0 +ℤ pos 0 +ℤ b) e h)
  where
    left : r +ℤ pos 0 +ℤ a ≤ℤ pos 0 +ℤ pos 0 +ℤ b → r ≤ℤ b -ℤ a
    left k = omega int_laws

-- Where the trace is opened at the clock reading `a` and finished at `b`, and the runner recorded stages, ran
-- commands and ran suites in between, the callbacks doing the same, the rows but the totals add up
-- to `b - a`, however the commands and the callbacks ended. That holds where the clock never runs backwards, a recorded stage is no longer than the
-- time that went by, no stage is named as a total, and every stage in a suite is given to that
-- suite.
pub Runs-stage_time :
    (a b : ℤ) (complete : Bool) (outcome : Text) (exit_code : Option ℤ) {t : PhaseTimingTrace}
    → Runs a b (start a) t
    → stage_time (finish b complete outcome exit_code t).stream ≡ b -ℤ a
unfolding start current_suite
Runs-stage_time a b complete outcome exit_code {t} p =
    let k = Runs-Keeps p in
    let outside = not_entered t k.suite in
    let began : t.runner_started_ns ≡ a = k.started in
    finish-stage_time b complete outcome exit_code t k.finished outside
      (subst (λ z. t.runner_accounted_ns ≤ℤ b -ℤ z) (sym began)
        (fits a b t.runner_accounted_ns (child_of t.suite_state) (ap child_of outside) k.no_more))
      (k.account (start-IsAccounted a))
    ∙ ap (λ z. b -ℤ z) began
