-- ===== src/PhaseTiming/Suites.antt =====
-- How the trace ends: `finish` writes its rows once.
use ring_lang.Common.{Bool, true, Option, ◌≡◌, arith, Text}
use ring_lang.Common.Int.{ℤ}
use ring_lang.PhaseTiming.{PhaseTimingTrace, finish}

finish_done :
    (now : ℤ) (complete : Bool) (outcome : Text) (exit_code : Option ℤ) (t : PhaseTimingTrace)
    → t.finished ≡ true
    → finish now complete outcome exit_code t ≡ t
unfolding finish
finish_done now complete outcome exit_code t done = rw done

finish-finished :
    (now : ℤ) (complete : Bool) (outcome : Text) (exit_code : Option ℤ) (t : PhaseTimingTrace)
    → (finish now complete outcome exit_code t).finished ≡ true
unfolding finish
finish-finished now complete outcome exit_code t = ground arith

-- The second call of `finish` changes nothing, whatever its arguments: the runner's residual and
-- total are written once.
pub finish-finish :
    (now now' : ℤ) (complete complete' : Bool) (outcome outcome' : Text)
    (exit_code exit_code' : Option ℤ) (t : PhaseTimingTrace)
    → finish now' complete' outcome' exit_code' (finish now complete outcome exit_code t)
      ≡ finish now complete outcome exit_code t
finish-finish now now' complete complete' outcome outcome' exit_code exit_code' t =
    finish_done now' complete' outcome' exit_code' _
      (finish-finished now complete outcome exit_code t)
