-- ===== src/OneShot/Ends.antt =====
-- `.agents/scripts/one_shot_gate.py`: every run of a prepared attempt ends with a verdict.
use mathlib.Core.Path.{subst}
use ring_lang.Common.{
  arith, ◌≡◌, refl, ap, ◌∙◌, Bool, true, false, ◌||◌, Option, none, some, if◌then◌else◌, Text,
  codes, ok, err, >>=-eq-ok,
}
use ring_lang.Common.Int.{ℤ}
use ring_lang.Common.Json.{Json, Members, member, no_members}
use ring_lang.Common.Regex.{fullmatch}
use ring_lang.OneShot.Values.{Failure, Checked, hex_64_re}
use ring_lang.OneShot.Receipts.{AttemptChain, chain_receipt}
use ring_lang.OneShot.Outcome.{members_in}
use ring_lang.OneShot.Verdict.{validate_verdict}
use ring_lang.OneShot.Spec.{
  OneShotSpec, PreparedAttempt, prepare_attempt, chain_member, is_given, is_chained,
}
use ring_lang.OneShot.Execute.{Folder, exists}
use ring_lang.OneShot.Run.{
  Surroundings, Judgement, execute, run_attempt, check_tool, judge, make_verdict, verdict_value,
  is_written,
}
use ring_lang.OneShot.Prepared.{chain_receipt-valid}
use ring_lang.OneShot.Inversion.{ok-eq}
use ring_lang.OneShot.Kept.{IsGood, check_outcome-IsGood, check_tool-IsGood}
use ring_lang.OneShot.Ending.{check_ending-Ending}
use ring_lang.OneShot.Written.{Attempted, plain-valid, chained-valid, judge-text}
use ring_lang.OneShot.Fallback.{Caps}
use ring_lang.OneShot.Sealing.{IsSealable, seal_outcome-ok}
use ring_lang.OneShot.Attempted.{IsReady, prepare_attempt-IsReady}
use ring_lang.OneShot.Receipts.{Limits}
use ring_lang.OneShot.Values.{is_text_or_null}

given-valid :
    (world : Surroundings) (limits : Limits) (gate_id : Text) (attempt outcome : Members)
    (judgement : Judgement) (chain : Option AttemptChain) {added : Members}
    → Attempted limits attempt
    → IsGood limits outcome
    → fullmatch hex_64_re world.attempt_sha256 ≡ true
    → is_text_or_null judgement.error ≡ true
    → chain_member chain ≡ ok added
    → (verdict : Members) × (validate_verdict
          (verdict_value world (is_given chain) gate_id attempt outcome judgement added)
        ≡ ok verdict)
unfolding chain_member
given-valid world limits gate_id attempt outcome judgement none a g hashed told h = (
  _,
  subst
      (λ (m : Members).
        validate_verdict (verdict_value world false gate_id attempt outcome judgement m)
        ≡ ok (members_in (verdict_value world false gate_id attempt outcome judgement no_members)))
      (ok-eq h) (plain-valid world limits gate_id attempt outcome judgement a g hashed told),
)
given-valid world limits gate_id attempt outcome judgement (some chain) a g hashed told h =
    let (receipt, made, same) = >>=-eq-ok (chain_receipt chain) _ h in
    let (checked, valid) = chain_receipt-valid chain made in
    let verdict = members_in (
      verdict_value world true gate_id attempt outcome judgement
        (member (codes "chain") receipt no_members)) in
    (
      verdict,
      subst
          (λ (m : Members).
            validate_verdict (verdict_value world true gate_id attempt outcome judgement m)
            ≡ ok verdict)
          (ok-eq same)
          (chained-valid world limits gate_id attempt outcome judgement a g hashed told receipt
            valid),
    )

make_verdict-ok :
    (world : Surroundings) (self : PreparedAttempt) (outcome : Members)
    → IsReady self
    → IsGood self.spec.limits outcome
    → fullmatch hex_64_re world.attempt_sha256 ≡ true
    → (verdict : Json) × (make_verdict world self.spec self.attempt outcome
          (judge world self.spec outcome)
        ≡ ok verdict)
unfolding make_verdict
make_verdict-ok world self outcome r g hashed =
    let judgement = judge world self.spec outcome in
    let (checked, valid) =
      given-valid world self.spec.limits self.spec.gate_id self.attempt outcome judgement
        self.spec.chain r.attempted g hashed
        (judge-text world self.spec outcome (check_ending-Ending outcome g.ending_valid))
        r.chain_given in
    (
      verdict_value world (is_chained self.spec) self.spec.gate_id self.attempt outcome judgement
          r.chain,
      rw (r.chain_given, valid),
    )

-- The run's result: a verdict that is written
abbrev pub EndsWithVerdict : Surroundings → PreparedAttempt → Folder → Type 0
EndsWithVerdict world self root =
    (verdict : Json) × (after : Folder) × ((execute world self root).1 ≡ ok (verdict, after))
    × (after.verdict ≡ some verdict)

run_attempt-ok :
    (world : Surroundings) (self : PreparedAttempt) (root : Folder) (r : IsReady self)
    (caps : Caps self.spec.limits)
    → IsSealable self.spec.limits caps (world.adapter root).0
    → fullmatch hex_64_re world.attempt_sha256 ≡ true
    → fullmatch hex_64_re world.empty_sha256 ≡ true
    → (verdict : Json) × (after : Folder) × (run_attempt world self root ≡ ok (verdict, after))
      × (after.verdict ≡ some verdict)
unfolding run_attempt
run_attempt-ok world self root r caps s hashed hex =
    let (c, sealed, called, sealing, (value, checked, kept)) =
      seal_outcome-ok world self.spec caps hex root s in
    let good = check_outcome-IsGood self.spec value sealed.2 checked in
    let outcome = check_tool world self.attempt sealed.1 sealed.0 in
    let (verdict, made) =
      make_verdict-ok world self outcome r
        (check_tool-IsGood world self.attempt sealed.1 sealed.0 self.spec.limits good) hashed in
    (
      verdict,
      record sealed.2 { verdict = some verdict },
      rw (called, sealing, made, kept.unjudged),
      refl,
    )

started :
    {A : Type 0} (executed used : Bool) (before after : PreparedAttempt) (e f : Failure)
    (run : Checked A)
    → executed ≡ false
    → used ≡ false
    → (if◌then◌else◌ {A = PreparedAttempt × Checked A} executed
        (before, err e)
        (after, (if used then err f else run))).1
      ≡ run
started true used before after e f run h k = cc
started false true before after e f run h k = cc
started false false before after e f run h k = refl

unused : (a b c : Bool) → a ≡ false → b ≡ false → c ≡ false → (a || b || c) ≡ false
unused a b c h k l = ground arith

execute_fresh :
    (world : Surroundings) (self : PreparedAttempt) (root : Folder)
    → self.executed ≡ false
    → root.verdict ≡ none
    → exists root.stdout ≡ false
    → exists root.stderr ≡ false
    → (execute world self root).1 ≡ run_attempt world self root
unfolding execute
execute_fresh world self root a b c d =
    started self.executed (is_written root.verdict || exists root.stdout || exists root.stderr) self
      (record self { executed = true }) _ _ (run_attempt world self root) a
      (unused (is_written root.verdict) (exists root.stdout) (exists root.stderr) (ap is_written b)
        c d)

-- A run of a prepared attempt, in a directory with no verdict and no raw file, ends with a verdict that is
-- written there, whatever the adapter returns or raises, whatever the validator of the result says, and
-- whatever became of the tool. That holds where the adapter leaves no verdict, each raw file missing or
-- regular, flushed, within its cap and with a hash in hexadecimal, and where the hashes of the attempt and of
-- no bytes are such hashes.
pub execute-ends :
    (float_of : ℤ → Text) (is_windows : Bool) (hex : Text) (created : ℤ) (spec : OneShotSpec)
    (world : Surroundings) (root : Folder) (self : PreparedAttempt) (caps : Caps spec.limits)
    → prepare_attempt float_of is_windows hex created spec ≡ ok self
    → root.verdict ≡ none
    → exists root.stdout ≡ false
    → exists root.stderr ≡ false
    → IsSealable spec.limits caps (world.adapter root).0
    → fullmatch hex_64_re world.attempt_sha256 ≡ true
    → fullmatch hex_64_re world.empty_sha256 ≡ true
    → EndsWithVerdict world self root
execute-ends float_of is_windows hex created spec world root self caps ready a b c s hashed
      none_hashed =
    let (same, r) = prepare_attempt-IsReady float_of is_windows hex created spec ready in
    subst
      (λ (t : OneShotSpec).
        (k : Caps t.limits)
        → IsSealable t.limits k (world.adapter root).0
        → EndsWithVerdict world self root)
      same
      (λ k t.
        let (verdict, after, run, stored) =
          run_attempt-ok world self root r k t hashed none_hashed in
        (verdict, after, execute_fresh world self root r.fresh a b c ∙ run, stored))
      caps s
