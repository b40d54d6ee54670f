-- ===== src/OneShot/Outer/Success.antt =====
-- `.agents/scripts/one_shot_gate.py`: what a successful outer audit proves.
use ring_lang.OneShot.Outer.Inner.{InnerHolds}
use ring_lang.Common.{◌≡◌, true, Text, codes}
use ring_lang.Common.Json.{Json, Members, get_member, is_str}
use ring_lang.OneShot.Values.{is_null, strict_keys}
use ring_lang.OneShot.Proven.{Holds}
use ring_lang.OneShot.Outer.{Platform, validate_outer_attempt}
use ring_lang.OneShot.Outer.Audit.{OuterEvidence, outer_verdict_keys, is_single}
use ring_lang.OneShot.Outer.Inversion.{Claims}

-- The verdict of the transaction: the document that was read, what it claims, and the inner attempt
pub record OuterHolds (platform : Platform) (e : OuterEvidence) (attempt : Members) (sha256 : Text)
    (verdict : Members) : Type 0 where
  pub verdict_sha256 : Text
  pub verdict_holds :
      Holds
        (λ (value : Json). strict_keys value outer_verdict_keys)
        e.verdict
        verdict
        verdict_sha256
  pub succeeded : Claims (codes "status") (codes "success") verdict
  pub names_attempt : is_str sha256 (get_member (codes "attempt_sha256") verdict) ≡ true
  pub classified : Claims (codes "classification") (codes "success") verdict
  pub no_error : is_null (get_member (codes "error") verdict) ≡ true
  pub one_cleanup : is_single (get_member (codes "cleanup_handshakes") verdict) ≡ true
  pub inner_holds : InnerHolds platform e attempt sha256 (get_member (codes "inner") verdict)

-- What a successful audit of a transaction proves
abbrev pub ProvesOuter : Platform → OuterEvidence → Type 0
ProvesOuter platform e =
    (attempt : Members) × (verdict : Members) × (sha256 : Text) × Holds
      (validate_outer_attempt platform) e.attempt attempt sha256
    × OuterHolds platform e attempt sha256 verdict
