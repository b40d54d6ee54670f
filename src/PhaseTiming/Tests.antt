-- ===== src/PhaseTiming/Tests.antt =====
-- A short run of the test runner, and the theorems at it.
use ring_lang.Common.{[], ◌∷◌, ◌≡◌, refl, none, some, codes, arith, true, false, text_eq, map}
use ring_lang.Common.Int.{◌≤ℤ◌, pos, ◌+ℤ◌, ◌-ℤ◌}
use ring_lang.PhaseTiming.{
  Ending, child_of, child_of, PhaseTimingTrace, Stage, stage_of, start, current_suite, record_stage,
  run_subprocess, run_suite, finish, close_suite, returned, completes,
}
use ring_lang.PhaseTiming.Sequence
use ring_lang.PhaseTiming.Sequence.{
  Steps, runs, enters, finishes, IsNumbered, Steps-start-IsNumbered, Steps-suite,
}
use ring_lang.PhaseTiming.Accounting.{
  IsAccounted, IsStage, stage_time, record_stage-IsAccounted, run_subprocess-IsAccounted,
  close_suite-IsAccounted,
}
use ring_lang.PhaseTiming.Clock.{
  Runs, waits, then_, records, commands, suites, GoesTo, current_suite-GoesTo, Runs-stage_time,
}
use ring_lang.PhaseTiming.Suites.{finish-finish}

abbrev prepare : Stage
prepare =
    stage_of (codes "compile_anchor") none (some (codes "runner")) (codes "clang") (pos 5) true true
      (codes "success") (some (pos 0))

-- A suite at time 10, one build from 12 to 17, closed at 20; the runner ends at 30.
abbrev prepared : PhaseTimingTrace
prepared = record_stage prepare (start (pos 0))

abbrev build : PhaseTimingTrace → Ending × PhaseTimingTrace
build t =
    run_subprocess (codes "ring_build") (some (codes "e2e")) (some (codes "x.ring")) (codes "ring")
      (pos 12) (pos 17) (returned (pos 0)) t

abbrev suited : PhaseTimingTrace
suited = (run_suite (codes "e2e") (pos 10) (pos 20) build prepared).1

abbrev ended : PhaseTimingTrace
ended = finish (pos 30) true (codes "success") (some (pos 0)) suited

durations :
    map (λ r. r.body.duration_ns) ended.stream
    ≡ pos 5 ∷ pos 5 ∷ pos 5 ∷ pos 10 ∷ pos 15 ∷ pos 30 ∷ []
unfolding finish run_suite run_subprocess record_stage start text_eq ◌+ℤ◌ ◌-ℤ◌ close_suite
durations = refl

history : Steps (start (pos 0)) ended
history = Sequence.then_ (Sequence.records (start (pos 0)) prepare) (
    Sequence.then_
      (enters prepared (codes "e2e") (pos 10) (pos 20) build (λ u.
        runs u (codes "ring_build") (some (codes "e2e")) (some (codes "x.ring")) (codes "ring")
          (pos 12) (pos 17) (returned (pos 0))))
      (finishes suited (pos 30) true (codes "success") (some (pos 0))))

Steps-start-IsNumbered_example : IsNumbered ended
Steps-start-IsNumbered_example = Steps-start-IsNumbered (pos 0) ended history

Steps-suite_example : current_suite ended ≡ current_suite (start (pos 0))
Steps-suite_example = Steps-suite history

start-IsAccounted : IsAccounted (start (pos 0))
unfolding start ◌+ℤ◌
start-IsAccounted = refl

prepare_IsStage : IsStage prepare.stage
unfolding text_eq
prepare_IsStage = (refl, refl)

prepared-IsAccounted : IsAccounted prepared
prepared-IsAccounted =
    record_stage-IsAccounted prepare (start (pos 0)) prepare_IsStage (omega arith) start-IsAccounted

-- Inside the suite.
abbrev inside : PhaseTimingTrace
inside = record prepared {
  suite_state =
      some (record { name = codes "e2e"; started_ns = pos 10; child_duration_ns = pos 0 });
}

inside-IsAccounted : IsAccounted inside
unfolding record_stage start ◌+ℤ◌ text_eq
inside-IsAccounted = refl

build_IsStage : IsStage (codes "ring_build")
unfolding text_eq
build_IsStage = (refl, refl)

build_positive : pos 0 ≤ℤ pos 17 -ℤ pos 12
unfolding ◌-ℤ◌
build_positive = omega arith

run_subprocess-IsAccounted_example : IsAccounted (build inside).1
run_subprocess-IsAccounted_example =
    run_subprocess-IsAccounted (codes "ring_build") (some (codes "e2e")) (some (codes "x.ring"))
      (codes "ring") (pos 12) (pos 17) (returned (pos 0)) inside build_IsStage build_positive
      inside-IsAccounted

build_fits : child_of (build inside).1.suite_state ≤ℤ pos 20 -ℤ pos 10
unfolding run_subprocess record_stage start ◌+ℤ◌ ◌-ℤ◌ text_eq
build_fits = omega arith

close_suite-IsAccounted_example :
    IsAccounted (close_suite (codes "e2e") (pos 10) (pos 20) completes (build inside).1)
close_suite-IsAccounted_example =
    close_suite-IsAccounted (codes "e2e") (pos 10) (pos 20) completes (build inside).1 build_fits
      run_subprocess-IsAccounted_example

-- The same run, with the clock
build-Runs :
    (u : PhaseTimingTrace)
    → current_suite u ≡ some (codes "e2e")
    → Runs (pos 10) (pos 20) u (build u).1
build-Runs u inside = then_ {b = pos 12} (waits (omega arith) u) (
    then_ {b = pos 17}
      (commands u (codes "ring_build") (some (codes "e2e")) (some (codes "x.ring")) (codes "ring")
        (returned (pos 0)) build_IsStage build_positive (current_suite-GoesTo u inside))
      (waits (omega arith) (build u).1))

prepare_short : (pos 0 ≤ℤ prepare.duration_ns) × (prepare.duration_ns ≤ℤ pos 10 -ℤ pos 0)
unfolding ◌-ℤ◌
prepare_short = (omega arith, omega arith)

prepare_goes : GoesTo prepare.suite (start (pos 0)).suite_state
unfolding start
prepare_goes = tt

timed_history : Runs (pos 0) (pos 30) (start (pos 0)) suited
timed_history =
    then_ {b = pos 10}
      (records (start (pos 0)) prepare prepare_IsStage prepare_short.0 prepare_short.1 prepare_goes)
      (then_ {b = pos 20} (suites prepared (codes "e2e") build (omega arith) build-Runs)
        (waits (omega arith) suited))

Runs-stage_time_example : stage_time ended.stream ≡ pos 30 -ℤ pos 0
Runs-stage_time_example =
    Runs-stage_time (pos 0) (pos 30) true (codes "success") (some (pos 0)) timed_history

finish-finish_example : finish (pos 40) false (codes "failure") (some (pos 1)) ended ≡ ended
finish-finish_example =
    finish-finish (pos 30) (pos 40) true false (codes "success") (codes "failure") (some (pos 0))
      (some (pos 1)) suited
