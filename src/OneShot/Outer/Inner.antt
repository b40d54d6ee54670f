-- ===== src/OneShot/Outer/Inner.antt =====
-- `.agents/scripts/one_shot_gate.py`: what an outer success that passes says of the inner attempt.
use mathlib.Core.Path.{subst}
use ring_lang.Common.{
  arith, ap, sym, not-eq-false, ◌≡◌, true, not, Text, codes, ok, >>=-eq-ok, raise_if-eq-ok,
}
use ring_lang.Common.Json.{Json, Members, get_member, is_str}
use ring_lang.OneShot.Values.{strict_keys}
use ring_lang.OneShot.Execution.{validate_attempt}
use ring_lang.OneShot.Audit.{audit_attempt}
use ring_lang.OneShot.Outcome.{members_in, get_inner}
use ring_lang.OneShot.Inversion.{strict_keys-object}
use ring_lang.OneShot.Proven.{Holds, audit_attempt-Complete}
use ring_lang.OneShot.Success.{ProvesSuccess, audit_attempt-success}
use ring_lang.OneShot.Outer.{Platform}
use ring_lang.OneShot.Outer.Audit.{
  OuterEvidence, inner_keys, check_inner_attempt, is_chain_of, audit_value, equal,
}
use ring_lang.OneShot.Outer.Check.{check_receipts, check_inner, audit_returns}
use ring_lang.OneShot.Outer.Inversion.{
  Claims, complete-success, check_status-success, check_inner_attempt-chain, check_receipts-given,
}

-- The chain of an inner attempt names the outer one, the hash of its bytes and its plan.
pub record IsChained (platform : Platform) (attempt : Members) (sha256 : Text)
    (inner_attempt : Members) : Type 0 where
  pub names_attempt :
      equal platform
        (get_inner (codes "chain") (codes "outer_attempt_id") inner_attempt)
        (get_member (codes "attempt_id") attempt)
      ≡ true
  pub names_sha256 :
      is_str sha256 (get_inner (codes "chain") (codes "outer_attempt_sha256") inner_attempt) ≡ true
  pub names_plan :
      equal platform (get_inner (codes "chain") (codes "plan_sha256") inner_attempt) (
        get_member
          (codes "sha256")
          (members_in (get_inner (codes "delivery") (codes "plan") attempt)))
      ≡ true

is_chain_of-IsChained :
    (platform : Platform) (attempt : Members) (sha256 : Text) (inner_attempt : Members)
    → is_chain_of platform attempt sha256 inner_attempt ≡ true
    → IsChained platform attempt sha256 inner_attempt
unfolding is_chain_of
is_chain_of-IsChained platform attempt sha256 inner_attempt h = record {
  names_attempt = ground arith;
  names_sha256 = ground arith;
  names_plan = ground arith;
}

-- The inner attempt, with the chain from the outer one, and the record of it in the outer verdict
pub record InnerHolds (platform : Platform) (e : OuterEvidence) (attempt : Members) (sha256 : Text)
    (stored_record : Json) : Type 0 where
  pub proves : ProvesSuccess e.inner
  pub inner_attempt : Members
  pub inner_sha256 : Text
  pub inner_holds : Holds validate_attempt e.inner.attempt inner_attempt inner_sha256
  pub chained : IsChained platform attempt sha256 inner_attempt
  pub stored_audit :
      equal platform
        (get_member (codes "audit") (members_in stored_record))
        (audit_value e.inner_text e.message (audit_attempt platform.float_is e.inner))
      ≡ true

pub check_inner-InnerHolds :
    (platform : Platform) (e : OuterEvidence) (attempt verdict : Members) (sha256 : Text)
    (value : Json) {done : Unit {0}}
    → check_inner platform e attempt sha256 verdict value ≡ ok done
    → Claims (codes "status") (codes "success") verdict
    → InnerHolds platform e attempt sha256 value
unfolding check_inner
check_inner-InnerHolds platform e attempt verdict sha256 value h s =
    let actual = audit_attempt platform.float_is e.inner in
    let (inner, keys, h1) = >>=-eq-ok (strict_keys value inner_keys) _ h in
    let (a, h2) =
      raise_if-eq-ok (not (is_str (codes "inner") (get_member (codes "evidence_dir") inner))) _ _
        h1 in
    let (b, returned, h3) = >>=-eq-ok (audit_returns actual) _ h2 in
    let (c, receipts, h4) = >>=-eq-ok (check_receipts platform e inner) _ h3 in
    let (d, h5) =
      raise_if-eq-ok
        (not (
          is_str (platform.json_sha256 (get_member (codes "audit") inner))
            (get_member (codes "audit_sha256") inner)))
        _ _ h4 in
    let (same, h6) =
      raise_if-eq-ok
        (not (
          equal platform (get_member (codes "audit") inner)
            (audit_value e.inner_text e.message actual)))
        _ _ h5 in
    let (f, chained, h7) = >>=-eq-ok (check_inner_attempt platform e attempt sha256 inner) _ h6 in
    let (whole, not_failed) = check_status-success verdict actual h7 s in
    let held = audit_attempt-Complete platform.float_is e.inner whole in
    let (loaded, at, valid) = held.attempt_holds in
    record {
      proves =
          audit_attempt-success platform.float_is e.inner whole
            (complete-success platform.float_is e.inner whole not_failed);
      inner_attempt = held.attempt;
      inner_sha256 = held.attempt_sha256;
      inner_holds = held.attempt_holds;
      chained = is_chain_of-IsChained platform attempt sha256 held.attempt (
          check_inner_attempt-chain platform e attempt inner held.attempt sha256 held.attempt_sha256
            chained (check_receipts-given platform e inner loaded held.attempt_sha256 receipts at)
            held.attempt_holds);
      stored_audit =
          subst
            (λ (ms : Members).
              equal platform (get_member (codes "audit") ms)
                (audit_value e.inner_text e.message actual)
              ≡ true)
            (sym (ap members_in (strict_keys-object value inner_keys keys).0))
            (not-eq-false _ same);
    }
