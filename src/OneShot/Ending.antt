-- ===== src/OneShot/Ending.antt =====
-- `.agents/scripts/one_shot_gate.py`: the tests of the ending of a child, as propositions.
use ring_lang.Common.{
  ◌≡◌, refl, Bool, true, false, not, List, [], ◌∷◌, Text, codes, ok, raise_if, >>=-eq-ok,
  raise_if-eq-ok, not-eq-false, All,
}
use ring_lang.Common.Json.{Members, get_member}
use ring_lang.OneShot.Values.{
  violation, under, Failure, Checked, each, is_bool, is_int, is_text_or_null,
}
use ring_lang.OneShot.Receipts.{or_null}
use ring_lang.OneShot.Outcome.{check_ending, flag_keys, error_keys}

-- The tests of the ending of a child
pub record Ending (child : Members) : Type 0 where
  pub exit_code : or_null is_int (get_member (codes "exit_code") child) ≡ true
  pub timed_out : is_bool (get_member (codes "timed_out") child) ≡ true
  pub memory_limit_hit : is_bool (get_member (codes "memory_limit_hit") child) ≡ true
  pub process_limit_hit : is_bool (get_member (codes "process_limit_hit") child) ≡ true
  pub output_limit_hit : is_bool (get_member (codes "output_limit_hit") child) ≡ true
  pub launch_error : is_text_or_null (get_member (codes "launch_error") child) ≡ true
  pub pipe_error : is_text_or_null (get_member (codes "pipe_error") child) ≡ true
  pub thread_error : is_text_or_null (get_member (codes "thread_error") child) ≡ true
  pub infrastructure_error :
      is_text_or_null (get_member (codes "infrastructure_error") child) ≡ true

pub only : {check : Checked (Unit {0})} (done : Unit {0}) → check ≡ ok done → check ≡ ok tt
only tt h = h

pub each-All :
    (keys : List Text) (check : Text → Checked (Unit {0}))
    → each keys check ≡ ok tt
    → All (λ key. check key ≡ ok tt) keys
unfolding each
each-All [] check h = tt
each-All (key ∷ keys) check h =
    let (done, first, rest) = >>=-eq-ok (check key) _ h in
    (only done first, each-All keys check rest)

pub passed : (b : Bool) (e : Failure) → raise_if (not b) e ≡ ok tt → b ≡ true
passed true e h = refl
passed false e h = cc

pub check_ending-Ending : (child : Members) → check_ending child ≡ ok tt → Ending child
unfolding check_ending
check_ending-Ending child h =
    let (exited, h1) =
      raise_if-eq-ok (not (or_null is_int (get_member (codes "exit_code") child))) _ _ h in
    let (done, flags, errors) =
      >>=-eq-ok
        (each flag_keys (λ key.
          raise_if (not (is_bool (get_member key child))) (under key (violation "is not boolean"))))
        _ h1 in
    let (f, (g, (i, (j, last)))) =
      each-All flag_keys
        (λ key.
          raise_if (not (is_bool (get_member key child))) (under key (violation "is not boolean")))
        (only done flags) in
    let (k, (l, (m, (n, end_)))) =
      each-All error_keys
        (λ key.
          raise_if (not (is_text_or_null (get_member key child)))
            (under key (violation "is invalid")))
        errors in
    record {
      exit_code = not-eq-false _ exited;
      timed_out = passed _ _ f;
      memory_limit_hit = passed _ _ g;
      process_limit_hit = passed _ _ i;
      output_limit_hit = passed _ _ j;
      launch_error = passed _ _ k;
      pipe_error = passed _ _ l;
      thread_error = passed _ _ m;
      infrastructure_error = passed _ _ n;
    }

pub Ending-check : (child : Members) → Ending child → check_ending child ≡ ok tt
unfolding check_ending each get_member
Ending-check child e = rw (
  e.exit_code, e.timed_out, e.memory_limit_hit, e.process_limit_hit, e.output_limit_hit,
  e.launch_error, e.pipe_error, e.thread_error, e.infrastructure_error,
)
