-- ===== src/OneShot/Bounds.antt =====
-- `.agents/scripts/one_shot_gate.py`: the sizes in the record of a stream.
use ring_lang.Common.{
  arith, ◌≡◌, refl, Bool, true, false, not, [], ◌∷◌, Text, codes, ok, raise_if, >>=-eq-ok,
  raise_if-eq-ok, not-eq-false,
}
use mathlib.Core.Path.{subst}
use ring_lang.Common.Int.{ℤ, ltb_ℤ, int_eq, int_eq_iff, eq_of_parts}
use ring_lang.Common.Json.{Json, Members, get_member, is_str}
use ring_lang.OneShot.Values.{
  Failure, violation, under, hex_64_re, is_nat, is_bool, is_text_or_null, matches, int_of, truth_of,
  each, strict_keys,
}
use ring_lang.OneShot.Streams.{
  check_sizes, check_truncated, check_stream, validate_stream_record, stream_keys, min_size,
}
use ring_lang.OneShot.Inversion.{checked-ok}
use ring_lang.OneShot.Ending.{passed, only, each-All}

not_raised : (b : Bool) (e : Failure) {done : Unit {0}} → raise_if b e ≡ ok done → b ≡ false
not_raised false e h = refl
not_raised true e h = cc

at_cap :
    (captured seen cap_size : ℤ)
    → captured ≡ cap_size
    → ltb_ℤ seen captured ≡ false
    → captured ≡ min_size seen cap_size
at_cap captured seen cap_size same most =
    ground (arith, eq_of_parts captured seen, eq_of_parts cap_size seen)

under_cap :
    (captured seen cap_size : ℤ)
    → ltb_ℤ cap_size captured ≡ false
    → seen ≡ captured
    → captured ≡ min_size seen cap_size
under_cap captured seen cap_size fits same = ground arith

check_truncated-min :
    (captured seen cap_size : ℤ) {done : Unit {0}}
    → check_truncated captured seen cap_size ≡ ok done
    → captured ≡ min_size seen cap_size
unfolding check_truncated
check_truncated-min captured seen cap_size h =
    let (exact, rest) = raise_if-eq-ok (not (int_eq captured cap_size)) _ _ h in
    at_cap captured seen cap_size ((int_eq_iff captured cap_size).0 (not-eq-false _ exact))
      (not_raised _ _ rest)

check_sizes-min :
    (captured seen cap_size : ℤ) (truncated : Bool) {done : Unit {0}}
    → check_sizes captured seen cap_size truncated ≡ ok done
    → captured ≡ min_size seen cap_size
unfolding check_sizes
check_sizes-min captured seen cap_size true h =
    let (fits, rest) = raise_if-eq-ok (ltb_ℤ cap_size captured) _ _ h in
    check_truncated-min captured seen cap_size rest
check_sizes-min captured seen cap_size false h =
    let (fits, rest) = raise_if-eq-ok (ltb_ℤ cap_size captured) _ _ h in
    under_cap captured seen cap_size fits
      ((int_eq_iff seen captured).0 (not-eq-false (int_eq seen captured) (not_raised _ _ rest)))

-- A record whose file holds the prefix of the stream
abbrev pub IsPrefix : ℤ → Members → Type 0
IsPrefix cap_size record_ =
    (is_nat (get_member (codes "captured_size") record_) ≡ true)
    × (is_nat (get_member (codes "bytes_seen") record_) ≡ true)
    × (int_of (get_member (codes "captured_size") record_)
        ≡ min_size (int_of (get_member (codes "bytes_seen") record_)) cap_size)

check_stream-IsPrefix :
    (path : Text) (cap_size : ℤ) (record_ : Members) {done : Unit {0}}
    → check_stream path cap_size record_ ≡ ok done
    → IsPrefix cap_size record_
unfolding check_stream
check_stream-IsPrefix path cap_size record_ h =
    let of = λ (name : Text). get_member name record_ in
    let (a, h1) = raise_if-eq-ok (not (is_str path (of (codes "path")))) _ _ h in
    let (done, sizes, h2) =
      >>=-eq-ok
        (each (codes "captured_size" ∷ codes "bytes_seen" ∷ codes "cap_bytes" ∷ [])
          λ key. raise_if (not (is_nat (of key))) (under key (violation "is invalid")))
        _ h1 in
    let (captured, (seen, rest)) =
      each-All (codes "captured_size" ∷ codes "bytes_seen" ∷ codes "cap_bytes" ∷ [])
        (λ key. raise_if (not (is_nat (of key))) (under key (violation "is invalid")))
        (only done sizes) in
    let (same, h3) =
      raise_if-eq-ok (not (int_eq (int_of (of (codes "cap_bytes"))) cap_size)) _ _ h2 in
    let (d, h4) = raise_if-eq-ok (not (matches hex_64_re (of (codes "sha256")))) _ _ h3 in
    let (e, flags, h5) =
      >>=-eq-ok
        (each (codes "truncated_at_cap" ∷ codes "fsynced" ∷ [])
          λ key. raise_if (not (is_bool (of key))) (under key (violation "is not boolean")))
        _ h4 in
    let (f, h6) = raise_if-eq-ok (not (is_text_or_null (of (codes "error")))) _ _ h5 in
    (
      passed _ _ captured,
      passed _ _ seen,
      subst
          (λ (c : ℤ).
            int_of (of (codes "captured_size")) ≡ min_size (int_of (of (codes "bytes_seen"))) c)
          ((int_eq_iff (int_of (of (codes "cap_bytes"))) cap_size).0 (not-eq-false _ same))
          (check_sizes-min (int_of (of (codes "captured_size"))) (int_of (of (codes "bytes_seen")))
            (int_of (of (codes "cap_bytes"))) (truth_of (of (codes "truncated_at_cap"))) h6),
    )

-- Where `_validate_stream_record` accepts the record of a stream, its sizes are not negative, and the captured
-- size is the smaller one of the bytes that were seen and the cap that is expected.
pub validate_stream_record-IsPrefix :
    (value : Json) (path : Text) (cap_size : ℤ) {record_ : Members}
    → validate_stream_record value path cap_size ≡ ok record_
    → IsPrefix cap_size record_
unfolding validate_stream_record
validate_stream_record-IsPrefix value path cap_size h =
    let (found, keys, rest) = >>=-eq-ok (strict_keys value stream_keys) _ h in
    let (passes, same) = checked-ok (check_stream path cap_size found) found rest in
    subst (IsPrefix cap_size) same (check_stream-IsPrefix path cap_size found passes)
