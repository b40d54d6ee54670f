-- ===== src/PhaseTiming/Sequence.antt =====
-- Every history of a trace: the rows are numbered 1, 2, … in the order written, and a suite that
-- was entered is left again, however its callback ends.
use ring_lang.Common.{
  ℕ, ◌+◌, Bool, List, [], ◌∷◌, ◌++◌, ◌≡◌, refl, Option, none, some, arith, Text, ◌∙◌, inl, inr,
  Bool-cases,
}
use ring_lang.Common.Int.{ℤ, pos, ◌-ℤ◌}
use ring_lang.PhaseTiming.{
  Stage, Row, PhaseTimingTrace, SuitePhaseState, SubprocessEnd, Ending, start, current_suite, emit,
  account_child, record_stage, run_subprocess, close_suite, run_suite_in, run_suite, finish,
}

-- What the callers can do with a trace. The callback of a suite is any code that uses the trace by
-- these same calls, whatever trace it is given.
pub data Steps : PhaseTimingTrace → PhaseTimingTrace → Type 0 where
  here : (t : PhaseTimingTrace) → Steps t t
  then_ : {t u v : PhaseTimingTrace} → Steps t u → Steps u v → Steps t v
  records : (t : PhaseTimingTrace) (e : Stage) → Steps t (record_stage e t)
  runs :
      (t : PhaseTimingTrace) (name : Text) (suite case : Option Text) (category : Text) (a b : ℤ)
      (end : SubprocessEnd)
      → Steps t (run_subprocess name suite case category a b end t).1
  enters :
      (t : PhaseTimingTrace) (name : Text) (a b : ℤ)
      (callback : PhaseTimingTrace → Ending × PhaseTimingTrace)
      → ((u : PhaseTimingTrace) → Steps u (callback u).1)
      → Steps t (run_suite name a b callback t).1
  finishes :
      (t : PhaseTimingTrace) (now : ℤ) (complete : Bool) (outcome : Text) (exit_code : Option ℤ)
      → Steps t (finish now complete outcome exit_code t)

-- The rows carry the numbers from `k + 1` on, and the last one is `n`.
abbrev pub NumberedFrom : ℕ → ℕ → List Row → Type 0
NumberedFrom k n [] = n ≡ k
NumberedFrom k n (r ∷ rs) = (r.sequence ≡ k + 1) × NumberedFrom (k + 1) n rs

abbrev pub IsNumbered : PhaseTimingTrace → Type 0
IsNumbered t = NumberedFrom 0 t.sequence t.stream

NumberedFrom-append :
    (k n : ℕ) (rs : List Row) (r : Row)
    → NumberedFrom k n rs
    → r.sequence ≡ n + 1
    → NumberedFrom k (n + 1) (rs ++ r ∷ [])
NumberedFrom-append k n [] r h e = ground arith
NumberedFrom-append k n (x ∷ rs) r h e = (h.0, NumberedFrom-append (k + 1) n rs r h.1 e)

emit-IsNumbered : (e : Stage) (t : PhaseTimingTrace) → IsNumbered t → IsNumbered (emit e t)
unfolding emit
emit-IsNumbered e t h = NumberedFrom-append 0 t.sequence t.stream _ h refl

account_child-same :
    (suite : Option Text) (d : ℤ) (t : PhaseTimingTrace)
    → ((account_child suite d t).stream ≡ t.stream)
      × ((account_child suite d t).sequence ≡ t.sequence)
unfolding account_child
account_child-same suite d t = ground arith

account_child-IsNumbered :
    (suite : Option Text) (d : ℤ) (t : PhaseTimingTrace)
    → IsNumbered t
    → IsNumbered (account_child suite d t)
account_child-IsNumbered suite d t h =
    rw ((account_child-same suite d t).0, (account_child-same suite d t).1) h

close_suite-IsNumbered :
    (name : Text) (a b : ℤ) (ending : Ending) (t : PhaseTimingTrace)
    → IsNumbered t
    → IsNumbered (close_suite name a b ending t)
unfolding close_suite
close_suite-IsNumbered name a b ending t h =
    NumberedFrom-append 0 (t.sequence + 1) _ _ (NumberedFrom-append 0 t.sequence t.stream _ h refl)
      refl

run_suite_in-IsNumbered :
    (o : Option SuitePhaseState) (name : Text) (a b : ℤ)
    (callback : PhaseTimingTrace → Ending × PhaseTimingTrace) (t : PhaseTimingTrace)
    → ((u : PhaseTimingTrace) → IsNumbered u → IsNumbered (callback u).1)
    → IsNumbered t
    → IsNumbered (run_suite_in o name a b callback t).1
unfolding run_suite_in
run_suite_in-IsNumbered (some s) name a b callback t keeps h = h
run_suite_in-IsNumbered none name a b callback t keeps h =
    let state : SuitePhaseState = record {
      name = name;
      started_ns = a;
      child_duration_ns = pos 0;
    } in
    let r = callback (record t { suite_state = some state }) in
    close_suite-IsNumbered name a b r.0 r.1 (keeps (record t { suite_state = some state }) h)

finish-IsNumbered :
    (now : ℤ) (complete : Bool) (outcome : Text) (exit_code : Option ℤ) (t : PhaseTimingTrace)
    → IsNumbered t
    → IsNumbered (finish now complete outcome exit_code t)
unfolding finish
finish-IsNumbered now complete outcome exit_code t h = elim (Bool-cases t.finished) [
  | inl done ↦ rw done h
  | inr more ↦ rw more (
      NumberedFrom-append 0 (t.sequence + 1) _ _
        (NumberedFrom-append 0 t.sequence t.stream _ h refl) refl)
]

Steps-IsNumbered : {t u : PhaseTimingTrace} → Steps t u → IsNumbered t → IsNumbered u
unfolding record_stage run_subprocess run_suite
Steps-IsNumbered (here t) h = h
Steps-IsNumbered (then_ p q) h = Steps-IsNumbered q (Steps-IsNumbered p h)
Steps-IsNumbered (records t e) h =
    NumberedFrom-append 0 _ _ _ (account_child-IsNumbered e.suite e.duration_ns t h) refl
Steps-IsNumbered (runs t name suite case category a b end) h =
    NumberedFrom-append 0 _ _ _ (account_child-IsNumbered suite (b -ℤ a) t h) refl
Steps-IsNumbered (enters t name a b callback steps) h =
    run_suite_in-IsNumbered t.suite_state name a b callback t (λ u. Steps-IsNumbered (steps u)) h
Steps-IsNumbered (finishes t now complete outcome exit_code) h =
    finish-IsNumbered now complete outcome exit_code t h

-- Whatever the runner does with a new trace, the rows of the stream are numbered 1, 2, 3, … in the
-- order in which they were written, and `_sequence` is the number of the last one.
pub Steps-start-IsNumbered : (now : ℤ) (t : PhaseTimingTrace) → Steps (start now) t → IsNumbered t
unfolding start
Steps-start-IsNumbered now t p = Steps-IsNumbered p refl

pub account_child-suite :
    (suite : Option Text) (d : ℤ) (t : PhaseTimingTrace)
    → current_suite (account_child suite d t) ≡ current_suite t
unfolding account_child current_suite
account_child-suite suite d t = ground arith

pub run_suite_in-suite :
    (o : Option SuitePhaseState) (name : Text) (a b : ℤ)
    (callback : PhaseTimingTrace → Ending × PhaseTimingTrace) (t : PhaseTimingTrace)
    → t.suite_state ≡ o
    → current_suite (run_suite_in o name a b callback t).1 ≡ current_suite t
unfolding run_suite_in close_suite current_suite
run_suite_in-suite (some s) name a b callback t e = refl
run_suite_in-suite none name a b callback t e = rw e

finish-suite :
    (now : ℤ) (complete : Bool) (outcome : Text) (exit_code : Option ℤ) (t : PhaseTimingTrace)
    → current_suite (finish now complete outcome exit_code t) ≡ current_suite t
unfolding finish current_suite
finish-suite now complete outcome exit_code t = ground arith

-- Every call leaves the trace in the suite in which it found it: a suite that a call enters is left
-- again, also when the callback raises, and no call leaves the suite around it.
pub Steps-suite : {t u : PhaseTimingTrace} → Steps t u → current_suite u ≡ current_suite t
unfolding record_stage run_subprocess run_suite current_suite
Steps-suite (here t) = refl
Steps-suite (then_ p q) = Steps-suite q ∙ Steps-suite p
Steps-suite (records t e) = account_child-suite e.suite e.duration_ns t
Steps-suite (runs t name suite case category a b end) = account_child-suite suite (b -ℤ a) t
Steps-suite (enters t name a b callback steps) =
    run_suite_in-suite t.suite_state name a b callback t refl
Steps-suite (finishes t now complete outcome exit_code) =
    finish-suite now complete outcome exit_code t
