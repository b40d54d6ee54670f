-- ===== src/OneShot/Sealed.antt =====
-- `.agents/scripts/one_shot_gate.py`: the record of a sealed sink passes `_validate_stream_record`.
use ring_lang.Common.{
  ℕ, ◌≡◌, ap, sym, ◌∙◌, Bool, true, List, [], some, ltb, Text, length, take, text_eq_refl, text_eq,
  any, all, mem_text, arith, ok,
}
use ring_lang.Common.Int.{pos}
use ring_lang.Common.Regex.{fullmatch}
use ring_lang.Common.Json.{Json, Members, get_member, get_member?, is_str}
use ring_lang.OneShot.Values.{hex_64_re, strict_keys, each, same_names, names_of, is_text_or_null}
use ring_lang.OneShot.Streams.{
  PrefixSink, Write, validate_stream_record, check_stream, check_sizes, consume_all, new_sink,
  open_sink, seal, stream_value, sink_record, check_truncated,
}
use mathlib.Core.Path.{subst}
use ring_lang.OneShot.Outcome.{members_in}
use ring_lang.OneShot.Capture.{
  Captures, consume_all-Captures, open_sink-Captures, Progresses, concat, length-take,
}

-- The record of a stream is accepted where its hash is one, and its sizes agree.
pub stream_value-valid :
    (path : Text) (captured : ℕ) (sha256 : Text) (seen cap_bytes : ℕ) (truncated fsynced : Bool)
    (error : Json)
    → fullmatch hex_64_re sha256 ≡ true
    → is_text_or_null error ≡ true
    → check_sizes (pos captured) (pos seen) (pos cap_bytes) truncated ≡ ok tt
    → validate_stream_record
        (stream_value path captured sha256 seen cap_bytes truncated fsynced error)
        path
        (pos cap_bytes)
      ≡ ok (members_in (stream_value path captured sha256 seen cap_bytes truncated fsynced error))
unfolding validate_stream_record strict_keys check_stream stream_value get_member get_member? each
    is_str same_names names_of any all mem_text text_eq
stream_value-valid path captured sha256 seen cap_bytes truncated fsynced error h e sizes =
    ground (arith, text_eq_refl path)

sizes-ok :
    (path : Text) (cap_bytes : ℕ) (all : List ℕ) (self : PrefixSink)
    → Captures path cap_bytes all self
    → check_sizes (pos self.captured) (pos self.seen) (pos cap_bytes) self.truncated ≡ ok tt
unfolding check_sizes check_truncated
sizes-ok path cap_bytes all self c = ground (arith, length-take cap_bytes all)

-- The dictionary that the sink's record is.
abbrev pub record_of : (List ℕ → Text) → PrefixSink → Members
record_of sha256 self = members_in (sink_record sha256 self)

sink_record-valid :
    (sha256 : List ℕ → Text) (path : Text) (cap_bytes : ℕ) (all : List ℕ) (self : PrefixSink)
    → ((bytes : List ℕ) → fullmatch hex_64_re (sha256 bytes) ≡ true)
    → Captures path cap_bytes all self
    → validate_stream_record (sink_record sha256 (seal self)) path (pos cap_bytes)
      ≡ ok (record_of sha256 (seal self))
unfolding sink_record seal
sink_record-valid sha256 path cap_bytes all self hex c =
    subst
      (λ (p : Text).
        validate_stream_record (sink_record sha256 (seal self)) p (pos cap_bytes)
        ≡ ok (record_of sha256 (seal self)))
      c.named
      (subst
        (λ (n : ℕ).
          validate_stream_record (sink_record sha256 (seal self)) self.relative_path (pos n)
          ≡ ok (record_of sha256 (seal self)))
        c.capped
        (stream_value-valid self.relative_path self.captured (sha256 self.hashed_bytes) self.seen
          self.cap_bytes self.truncated _ _ (hex self.hashed_bytes) (ground arith)
          (subst
            (λ (n : ℕ).
              check_sizes (pos self.captured) (pos self.seen) (pos n) self.truncated ≡ ok tt)
            (sym c.capped) (sizes-ok path cap_bytes all self c))))

-- The sink of some chunks at the end of its stream.
abbrev pub EndsSealed : Write → (List ℕ → Text) → Text → ℕ → List (List ℕ) → Type 0
EndsSealed write sha256 path cap_bytes chunks =
    (final : PrefixSink) × (consume_all write chunks (open_sink (new_sink path cap_bytes))
      ≡ some final)
    × (final.file ≡ take cap_bytes (concat chunks))
    × (final.captured ≡ length final.file)
    × (final.seen ≡ length (concat chunks))
    × (final.truncated ≡ ltb cap_bytes (length (concat chunks)))
    × (validate_stream_record (sink_record sha256 (seal final)) path (pos cap_bytes)
        ≡ ok (record_of sha256 (seal final)))

-- Where every `os.write` of some bytes writes at least one of them and no more than all, a new sink takes
-- any chunks to their end: its file holds the first bytes of the stream, as many as the cap lets
-- through; it counts all the bytes that came, is truncated exactly where the stream is longer than the
-- cap, and once it is sealed its record, of a hash in hexadecimal digits, passes
-- `_validate_stream_record`.
pub consume_all-sealed :
    (write : Write) (sha256 : List ℕ → Text) (path : Text) (cap_bytes : ℕ) (chunks : List (List ℕ))
    → Progresses write
    → ((bytes : List ℕ) → fullmatch hex_64_re (sha256 bytes) ≡ true)
    → EndsSealed write sha256 path cap_bytes chunks
consume_all-sealed write sha256 path cap_bytes chunks p hex =
    let (final, run, c) =
      consume_all-Captures write path cap_bytes chunks [] (open_sink (new_sink path cap_bytes)) p
        (open_sink-Captures path cap_bytes) in
    (
      final,
      run,
      c.contents,
      c.counted ∙ ap length (sym c.contents),
      c.total,
      c.cut,
      sink_record-valid sha256 path cap_bytes (concat chunks) final hex c,
    )
