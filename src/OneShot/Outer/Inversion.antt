-- ===== src/OneShot/Outer/Inversion.antt =====
-- `.agents/scripts/one_shot_gate.py`: what an outer verdict that `audit_outer` accepts says of the inner one.
use mathlib.Core.Path.{subst}
use ring_lang.Common.{
  arith, ◌≡◌, refl, ap, sym, ◌∙◌, Bool, true, false, ◌&&◌, ◌||◌, not, if◌then◌else◌, Text, codes,
  text_eq, ok, ◌>>◌, raise_if, >>=-eq-ok, raise_if-eq-ok, not-eq-false, and-eq-true,
}
use ring_lang.Common.Int.{ℤ}
use ring_lang.Common.Json.{Json, null, array, object, Members, get_member, is_str}
use ring_lang.OneShot.Values.{
  Failure, Checked, is_null, strict_keys, is_number, matches, attempt_id_re, hex_64_re,
}
use ring_lang.OneShot.Execution.{validate_attempt, contract_version}
use ring_lang.OneShot.Verdict.{
  validate_verdict, validate_verdict_as, check_verdict_facts, check_verdict_receipts, verdict_keys,
  chained_verdict_keys, verdict_schema,
}
use ring_lang.OneShot.Verdicts.{is_str-eq}
use ring_lang.OneShot.Inversion.{checked-ok, ok-eq, validate_attempt-object}
use ring_lang.OneShot.Equal.{same_json}
use ring_lang.OneShot.Audit.{audit_attempt}
use ring_lang.OneShot.Evidence.{
  StoredJson, stored, Evidence, Audit, AuditState, nothing, incomplete, complete, crashed,
  is_complete,
}
use ring_lang.OneShot.Proven.{Holds, audit_attempt-Complete}
use ring_lang.OneShot.Outer.{Platform}
use ring_lang.OneShot.Outer.Audit.{
  OuterEvidence, is_single, file_of, outer_file_receipt, check_inner_attempt, loaded_in, members_or,
  is_chain_of, equal,
}
use ring_lang.OneShot.Outer.Check.{check_status, check_claim, check_receipts}

-- The status and the class that a document claims
abbrev pub Claims : Text → Text → Members → Type 0
Claims name s ms = is_str s (get_member name ms) ≡ true

success-not_failure :
    (x : Json) → is_str (codes "success") x ≡ true → is_str (codes "failure") x ≡ false
unfolding is_str text_eq
success-not_failure x h = rw (is_str-eq (codes "success") x h)

either : (a b : Bool) → (a || b) ≡ true → b ≡ false → a ≡ true
either a b h k = ground arith

-- A verdict whose members pass has one of two statuses.
check_verdict_facts-status :
    (chained : Bool) (verdict : Members) {done : Unit {0}}
    → check_verdict_facts chained verdict ≡ ok done
    → (is_str (codes "success") (get_member (codes "status") verdict)
        || is_str (codes "failure") (get_member (codes "status") verdict))
      ≡ true
unfolding check_verdict_facts
check_verdict_facts-status chained verdict found =
    let of = λ (name : Text). get_member name verdict in
    let (a, h1) =
      raise_if-eq-ok (not (is_str (verdict_schema chained) (of (codes "schema")))) _ _ found in
    let (b, h2) =
      raise_if-eq-ok (not (is_number (contract_version chained) (of (codes "contract_version")))) _
        _ h1 in
    let (c, h3) = raise_if-eq-ok (not (matches attempt_id_re (of (codes "attempt_id")))) _ _ h2 in
    let (d, h4) = raise_if-eq-ok (not (matches hex_64_re (of (codes "attempt_sha256")))) _ _ h3 in
    let status =
      is_str (codes "success") (of (codes "status"))
      || is_str (codes "failure") (of (codes "status")) in
    let (one, h5) = raise_if-eq-ok (not status) _ _ h4 in not-eq-false status one

validate_verdict-status :
    (value : Json) {ms : Members}
    → validate_verdict value ≡ ok ms
    → (is_str (codes "success") (get_member (codes "status") ms)
        || is_str (codes "failure") (get_member (codes "status") ms))
      ≡ true
unfolding validate_verdict validate_verdict_as
validate_verdict-status (object ns) h =
    let chained = is_str (codes "ring.one-shot.verdict.v2") (get_member (codes "schema") ns) in
    let (verdict, keys, rest) =
      >>=-eq-ok (strict_keys (object ns) (if chained then chained_verdict_keys else verdict_keys)) _
        h in
    let (facts, found, more) = >>=-eq-ok (check_verdict_facts chained verdict) _ rest in
    let (done, same) = checked-ok (check_verdict_receipts chained verdict) verdict more in
    subst
      (λ (m : Members).
        (is_str (codes "success") (get_member (codes "status") m)
          || is_str (codes "failure") (get_member (codes "status") m))
        ≡ true)
      same (check_verdict_facts-status chained verdict found)
validate_verdict-status (array xs) h = cc
validate_verdict-status _ h = cc

is_complete-eq : (state : AuditState) → is_complete state ≡ true → state ≡ complete
is_complete-eq complete h = refl
is_complete-eq nothing h = cc
is_complete-eq incomplete h = cc
is_complete-eq crashed h = cc

-- A complete audit that reports no failure reports success.
pub complete-success :
    (float_is : Text → ℤ → Bool) (evidence : Evidence)
    → (audit_attempt float_is evidence).state ≡ complete
    → is_str (codes "failure") (audit_attempt float_is evidence).status ≡ false
    → is_str (codes "success") (audit_attempt float_is evidence).status ≡ true
complete-success float_is evidence h k =
    let c = audit_attempt-Complete float_is evidence h in
    let (loaded, at, valid) = c.verdict_holds in
    let (value, read, accepted) = >>=-eq-ok loaded _ valid in
    let not_failed : is_str (codes "failure") (get_member (codes "status") c.verdict) ≡ false =
      subst (λ (a : Audit). is_str (codes "failure") a.status ≡ false) c.reported k in
    subst (λ (a : Audit). is_str (codes "success") a.status ≡ true) (sym c.reported)
      (either _ _ (validate_verdict-status value accepted) not_failed)

status_passes :
    (whole failed pair success : Bool) (e f : Failure) (rest : Checked (Unit {0})) {done : Unit {0}}
    → (if whole then (raise_if (failed && not pair) e >> rest) else raise_if success f) ≡ ok done
    → success ≡ true
    → pair ≡ false
    → (whole ≡ true) × (failed ≡ false)
status_passes true false pair success e f rest h s p = (refl, refl)
status_passes true true true success e f rest h s p = cc
status_passes true true false success e f rest h s p = cc
status_passes false failed pair true e f rest h s p = cc
status_passes false failed pair false e f rest h s p = cc

no_pair : (a b : Bool) → a ≡ false → (a && b) ≡ false
no_pair a b h = ground arith

-- An outer success that passes has a complete and successful inner audit.
pub check_status-success :
    (verdict : Members) (actual : Audit) {done : Unit {0}}
    → check_status verdict actual ≡ ok done
    → Claims (codes "status") (codes "success") verdict
    → (actual.state ≡ complete) × (is_str (codes "failure") actual.status ≡ false)
unfolding check_status
check_status-success verdict actual h s =
    let status = get_member (codes "status") verdict in
    let (whole, not_failed) =
      status_passes (is_complete actual.state) (is_str (codes "failure") actual.status)
        (is_str (codes "failure") status
          && is_str (codes "inner_failure") (get_member (codes "classification") verdict))
        (is_str (codes "success") status) _ _ _ h s
        (no_pair (is_str (codes "failure") status) _ (success-not_failure status s)) in
    (is_complete-eq actual.state whole, not_failed)

claimed : (s c n l : Bool) → (s && not (c && n && l)) ≡ false → s ≡ true → (c && n && l) ≡ true
claimed s c n l h k = ground arith

-- An outer success that passes has the class of one, no error and one handshake.
pub check_claim-success :
    (verdict : Members) {done : Unit {0}}
    → check_claim verdict ≡ ok done
    → Claims (codes "status") (codes "success") verdict
    → Claims (codes "classification") (codes "success") verdict
      × (is_null (get_member (codes "error") verdict) ≡ true)
      × (is_single (get_member (codes "cleanup_handshakes") verdict) ≡ true)
unfolding check_claim
check_claim-success verdict h s =
    let class = is_str (codes "success") (get_member (codes "classification") verdict) in
    let silent = is_null (get_member (codes "error") verdict) in
    let single = is_single (get_member (codes "cleanup_handshakes") verdict) in
    let status = is_str (codes "success") (get_member (codes "status") verdict) in
    let (valid, rest) = raise_if-eq-ok (status && not (class && silent && single)) _ _ h in
    let (both, one) =
      and-eq-true (class && silent) single (claimed status class silent single valid s) in
    let (a, b) = and-eq-true class silent both in (a, b, one)

same_json-not_null :
    (float_is : Text → ℤ → Bool) (x : Json) (ms : Members)
    → same_json float_is x (object ms) ≡ true
    → is_null x ≡ false
unfolding same_json
same_json-not_null float_is null ms h = cc
same_json-not_null float_is (array xs) ms h = refl
same_json-not_null float_is (object ns) ms h = refl
same_json-not_null float_is _ ms h = refl

pub else_of :
    (b : Bool) (x : Checked (Unit {0})) {done : Unit {0}}
    → (if b then ok tt else x) ≡ ok done
    → b ≡ false
    → x ≡ ok done
else_of false x h k = h
else_of true x h k = cc

read_value :
    (document : StoredJson) (loaded : Checked Json) (sha256 : Text) {found : Json}
    → document ≡ stored loaded sha256
    → loaded_in document ≡ ok found
    → loaded ≡ ok found
read_value document loaded sha256 at h = sym (ap loaded_in at) ∙ h

-- An inner attempt that stands in the directory has passed the test of its chain.
pub check_inner_attempt-chain :
    (platform : Platform) (e : OuterEvidence) (attempt inner ms : Members)
    (sha256 inner_sha256 : Text) {done : Unit {0}}
    → check_inner_attempt platform e attempt sha256 inner ≡ ok done
    → is_null (get_member (codes "attempt") inner) ≡ false
    → Holds validate_attempt e.inner.attempt ms inner_sha256
    → is_chain_of platform attempt sha256 ms ≡ true
unfolding check_inner_attempt
check_inner_attempt-chain platform e attempt inner ms sha256 inner_sha256 h given
      (loaded, at, valid) =
    let (found, read, h1) =
      >>=-eq-ok (loaded_in e.inner.attempt) _
        (else_of (is_null (get_member (codes "attempt") inner)) _ h given) in
    let (value, same, accepted) = >>=-eq-ok loaded _ valid in
    let is_object : found ≡ object ms =
      ok-eq (sym (read_value e.inner.attempt loaded inner_sha256 at read) ∙ same)
      ∙ validate_attempt-object value accepted in
    let (members, are, h2) = >>=-eq-ok (members_or found) _ h1 in
    let (chain, h3) = raise_if-eq-ok (not (is_chain_of platform attempt sha256 members)) _ _ h2 in
    subst (λ (m : Members). is_chain_of platform attempt sha256 m ≡ true)
      (sym (ok-eq (sym (ap members_or is_object) ∙ are))) (not-eq-false _ chain)

-- The receipt of an inner attempt that stands in the directory
pub check_receipts-given :
    (platform : Platform) (e : OuterEvidence) (inner : Members) (loaded : Checked Json)
    (sha256 : Text) {done : Unit {0}}
    → check_receipts platform e inner ≡ ok done
    → e.inner.attempt ≡ stored loaded sha256
    → is_null (get_member (codes "attempt") inner) ≡ false
unfolding check_receipts outer_file_receipt
check_receipts-given platform e inner loaded sha256 h at =
    let receipt =
      λ (d : StoredJson). outer_file_receipt (codes "attempt.json") (file_of d e.attempt_size) in
    let attempt = get_member (codes "attempt") inner in
    let (same, rest) =
      raise_if-eq-ok (not (equal platform attempt (receipt e.inner.attempt))) _ _ h in
    same_json-not_null platform.float_is attempt _ (
      subst (λ (d : StoredJson). equal platform attempt (receipt d) ≡ true) at
        (not-eq-false _ same))
