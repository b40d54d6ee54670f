-- ===== src/OneShot/Streams.antt =====
-- `.agents/scripts/one_shot_gate.py`: the record of a captured stream, and the sink that captures it.
use ring_lang.Common.{
  ℕ, zero, suc, ◌+◌, ◌-◌, Bool, true, false, ◌&&◌, not, List, [], ◌∷◌, ◌++◌, Option, none, some,
  ltb, ◌==◌, if◌then◌else◌, Text, codes, length, take, drop, ok, ◌>>=◌, ◌>>◌, raise_if,
}
use ring_lang.Common.Int.{ℤ, pos, int_eq, ltb_ℤ}
use ring_lang.Common.Json.{
  Json, null, bool, int, str, object, Members, no_members, member, get_member, is_str,
}
use ring_lang.OneShot.Values.{
  violation, under, Checked, hex_64_re, is_bool, is_text_or_null, matches, is_nat, int_of, truth_of,
  each, strict_keys,
}

abbrev pub stdout_name : Text
stdout_name = codes "stdout.raw"

abbrev pub stderr_name : Text
stderr_name = codes "stderr.raw"

abbrev pub stream_keys : List Text
stream_keys =
    codes "path"
    ∷ codes "captured_size"
    ∷ codes "sha256"
    ∷ codes "bytes_seen"
    ∷ codes "cap_bytes"
    ∷ codes "truncated_at_cap"
    ∷ codes "fsynced"
    ∷ codes "error"
    ∷ []

unfoldable pub check_truncated : ℤ → ℤ → ℤ → Checked (Unit {0})
check_truncated captured seen cap_size = do
  raise_if (not (int_eq captured cap_size)) (violation "truncated prefix is not exact cap")
  raise_if (ltb_ℤ seen captured) (violation "bytes_seen is inconsistent")

-- `min(seen, cap)`
abbrev pub min_size : ℤ → ℤ → ℤ
min_size seen cap_bytes = if ltb_ℤ cap_bytes seen then cap_bytes else seen

-- The sizes of a record agree with its cap.
unfoldable pub check_sizes : ℤ → ℤ → ℤ → Bool → Checked (Unit {0})
unfolding check_truncated
check_sizes captured seen cap_size truncated = do
  raise_if (ltb_ℤ cap_size captured) (violation "exceeds its cap")
  if truncated
      then check_truncated captured seen cap_size
      else raise_if (not (int_eq seen captured)) (violation "lost uncapped bytes")

unfoldable pub check_stream : Text → ℤ → Members → Checked (Unit {0})
unfolding get_member is_str each check_sizes
check_stream expected_path expected_cap record_ = do
  raise_if (not (is_str expected_path (get_member (codes "path") record_)))
      (violation "path mismatch")
  each (codes "captured_size" ∷ codes "bytes_seen" ∷ codes "cap_bytes" ∷ [])
      λ key. raise_if (not (is_nat (get_member key record_))) (under key (violation "is invalid"))
  raise_if (not (int_eq (int_of (get_member (codes "cap_bytes") record_)) expected_cap))
      (violation "cap mismatch")
  raise_if (not (matches hex_64_re (get_member (codes "sha256") record_)))
      (violation "sha256 is invalid")
  each (codes "truncated_at_cap" ∷ codes "fsynced" ∷ []) λ key.
      raise_if (not (is_bool (get_member key record_))) (under key (violation "is not boolean"))
  raise_if (not (is_text_or_null (get_member (codes "error") record_)))
      (violation "error is invalid")
  check_sizes (int_of (get_member (codes "captured_size") record_))
      (int_of (get_member (codes "bytes_seen") record_))
      (int_of (get_member (codes "cap_bytes") record_))
      (truth_of (get_member (codes "truncated_at_cap") record_))

unfoldable pub validate_stream_record : Json → Text → ℤ → Checked Members
unfolding strict_keys check_stream
validate_stream_record value expected_path expected_cap = do
  record_ ← strict_keys value stream_keys
  check_stream expected_path expected_cap record_
  ok record_

-- The dictionary of a stream.
unfoldable pub stream_value : Text → ℕ → Text → ℕ → ℕ → Bool → Bool → Json → Json
stream_value path captured sha256 seen cap_bytes truncated fsynced error = object (
    member (codes "path") (str path) (
      member (codes "captured_size") (int (pos captured)) (
        member (codes "sha256") (str sha256) (
          member (codes "bytes_seen") (int (pos seen)) (
            member (codes "cap_bytes") (int (pos cap_bytes)) (
              member (codes "truncated_at_cap") (bool truncated) (
                member (codes "fsynced") (bool fsynced)
                  (member (codes "error") error no_members))))))))

-- `_PrefixSink`: of the file its bytes, of the hashed_bytes the bytes that it was given.
pub record PrefixSink : Type 0 where
  pub relative_path : Text
  pub cap_bytes : ℕ
  pub captured : ℕ
  pub seen : ℕ
  pub truncated : Bool
  pub error : Option Text
  -- what `digest` was given
  pub hashed_bytes : List ℕ
  pub is_open : Bool
  pub file : List ℕ

-- `__init__` and `open`
unfoldable pub new_sink : Text → ℕ → PrefixSink
new_sink relative_path cap_bytes = record {
  relative_path = relative_path;
  cap_bytes = cap_bytes;
  captured = 0;
  seen = 0;
  truncated = false;
  error = none;
  hashed_bytes = [];
  is_open = false;
  file = [];
}

unfoldable pub open_sink : PrefixSink → PrefixSink
open_sink self = record self { is_open = true; file = [] }

-- What one `os.write` of these bytes returns.
abbrev pub Write : Type 0
Write = List ℕ → ℕ

-- `while offset < len(view)`: the rest of the bytes, on fuel. `none` is the `OSError`, or too little
-- fuel. `os.write` never returns more than it was given.
unfoldable pub write_all : ℕ → Write → List ℕ → PrefixSink → Option PrefixSink
write_all fuel write [] self = some self
write_all zero write (b ∷ bs) self = none
write_all (suc fuel) write (b ∷ bs) self =
    let written = write (b ∷ bs) in
    let rest = write_all fuel write (drop written (b ∷ bs)) (record self {
      hashed_bytes = self.hashed_bytes ++ take written (b ∷ bs);
      file = self.file ++ take written (b ∷ bs);
    }) in
    if written == 0 then none else rest

abbrev pub is_filled_list : List ℕ → Bool
is_filled_list [] = false
is_filled_list (b ∷ bs) = true

-- `captured += len(prefix)` after the write
abbrev pub count_prefix : List ℕ → Option PrefixSink → Option PrefixSink
count_prefix prefix none = none
count_prefix prefix (some self) = some (record self { captured = self.captured + length prefix })

abbrev pub mark_truncated : Bool → Option PrefixSink → Option PrefixSink
mark_truncated lost none = none
mark_truncated lost (some self) = some (if lost then record self { truncated = true } else self)

-- `consume`: the prefix that fits is written, with as much fuel as it has bytes.
unfoldable pub consume_prefix : Write → List ℕ → PrefixSink → Option PrefixSink
unfolding write_all
consume_prefix write prefix self =
    if is_filled_list prefix && self.is_open
    then count_prefix prefix (write_all (length prefix) write prefix self)
    else some self

unfoldable pub consume : Write → List ℕ → PrefixSink → Option PrefixSink
unfolding consume_prefix
consume write chunk self =
    let prefix = take (self.cap_bytes - self.captured) chunk in
    mark_truncated (ltb (length prefix) (length chunk))
      (consume_prefix write prefix (record self { seen = self.seen + length chunk }))

abbrev pub and_then : Option PrefixSink → (PrefixSink → Option PrefixSink) → Option PrefixSink
and_then none rest = none
and_then (some self) rest = rest self

-- The chunks of a stream, one after the other.
unfoldable pub consume_all : Write → List (List ℕ) → PrefixSink → Option PrefixSink
unfolding consume
consume_all write [] self = some self
consume_all write (chunk ∷ chunks) self =
    and_then (consume write chunk self) (consume_all write chunks)

unfoldable pub seal : PrefixSink → PrefixSink
seal self = record self { is_open = false }

abbrev pub text_or_null : Option Text → Json
text_or_null none = null
text_or_null (some s) = str s

-- `record`, where `sha256` is the hexadecimal hashed_bytes of some bytes
unfoldable pub sink_record : (List ℕ → Text) → PrefixSink → Json
unfolding stream_value
sink_record sha256 self =
    stream_value self.relative_path self.captured (sha256 self.hashed_bytes) self.seen
      self.cap_bytes self.truncated (not self.is_open) (text_or_null self.error)
