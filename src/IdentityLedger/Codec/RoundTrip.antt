-- ===== src/IdentityLedger/Codec/RoundTrip.antt =====
-- `parse_identity_ledger` reads what `serialize_identity_ledger` writes.
use mathlib.Core.List.{tail}
use ring_lang.Common.{
  has, ℕ, ◌+◌, true, false, List, [], ◌∷◌, ◌≡◌, refl, ap, sym, ◌∙◌, some, Text, codes, has,
  text_eq_refl, split-join, map, All, ends_with, ok,
}
use ring_lang.Common.Int.{ℤ}
use ring_lang.Common.Decimal.{str_int, int_text-str_int}
use ring_lang.Common.Utf8.{decode, encode, decode-encode}
use ring_lang.Common.Lines.{unlines, join-unlines, splitlines-unlines, ends_with-append, HasNoBreak}
use ring_lang.IdentityLedger.Event.{IdentityLedgerEvent}
use ring_lang.IdentityLedger.Escape.{ledger_escape, ledger_unescape}
use ring_lang.IdentityLedger.Escape.Canonical.{unescape_iff, escape-has}
use ring_lang.IdentityLedger.Relations.{validate_identity_ledger_relations}
use ring_lang.IdentityLedger.Codec.{
  header, event_fields, event_line, ledger_text, serialize_identity_ledger, read_event, read_line,
  int_field, text_field, read_lines, check_events, parse_lines, parse_text, parse_identity_ledger,
}
use ring_lang.IdentityLedger.Codec.Chars.{
  IsWritable, IsClean, IsClean-event_line, IsClean-header, clean-HasNoBreak, unlines-IsScalarText,
  str_int-has,
}

unescape-escape : (v : Text) → ledger_unescape (ledger_escape v) ≡ ok v
unescape-escape v = (unescape_iff (ledger_escape v) v).1 refl

int_field-str_int : (n : ℕ) (z : ℤ) → int_field n (str_int z) ≡ ok z
int_field-str_int n z = rw (int_text-str_int z, int_field)

text_field-escape : (n : ℕ) (v : Text) → text_field n (ledger_escape v) ≡ ok v
text_field-escape n v = rw (unescape-escape v, text_field)

read_event-event_fields : (n : ℕ) (e : IdentityLedgerEvent) → read_event n (event_fields e) ≡ ok e
unfolding read_event
read_event-event_fields n e =
    rw (text_eq_refl (codes "E")) (simp (int_field-str_int, text_field-escape))

escape-bar : (v : Text) → has b'|' (ledger_escape v) ≡ false
escape-bar v = escape-has b'|' v refl

bar_tag : has b'|' (codes "E") ≡ false
unfolding has
bar_tag = refl

abbrev tail_fields : IdentityLedgerEvent → List Text
tail_fields e = tail (event_fields e)

read_line-event_line : (n : ℕ) (e : IdentityLedgerEvent) → read_line n (event_line e) ≡ ok e
unfolding read_line event_line
read_line-event_line n e =
    rw
      (split-join b'|' (codes "E") (tail_fields e) (
        bar_tag,
        (
          str_int-has e.event_id,
          (
            escape-bar e.kind,
            (
              str_int-has e.edge_id,
              (
                str_int-has e.load_id,
                (
                  escape-bar e.parent_frame,
                  (
                    escape-bar e.child_frame,
                    (
                      escape-bar e.domain,
                      (
                        str_int-has e.def_id,
                        (
                          escape-bar e.canonical_key,
                          (
                            escape-bar e.producer,
                            (
                              escape-bar e.source_slot,
                              (
                                escape-bar e.dest_slot,
                                (str_int-has e.index, (str_int-has e.arity, tt)),
                              ),
                            ),
                          ),
                        ),
                      ),
                    ),
                  ),
                ),
              ),
            ),
          ),
        ),
      ))
      (read_event-event_fields n e)

read_lines-event_lines :
    (n : ℕ) (events : List IdentityLedgerEvent)
    → read_lines n (map event_line events) ≡ (events, [])
unfolding read_lines
read_lines-event_lines n [] = refl
read_lines-event_lines n (e ∷ es) = rw (read_line-event_line n e, read_lines-event_lines (n + 1) es)

IsClean-lines :
    (events : List IdentityLedgerEvent)
    → All IsWritable events
    → All IsClean (map event_line events)
IsClean-lines [] h = tt
IsClean-lines (e ∷ es) h = (IsClean-event_line e h.0, IsClean-lines es h.1)

unbroken : (ls : List Text) → All IsClean ls → All HasNoBreak ls
unbroken [] h = tt
unbroken (l ∷ ls) h = (clean-HasNoBreak l h.0, unbroken ls h.1)

abbrev lines_of : List IdentityLedgerEvent → List Text
lines_of events = header ∷ map event_line events

parse_lines-lines_of :
    (bytes : List ℕ) (events : List IdentityLedgerEvent)
    → validate_identity_ledger_relations events ≡ []
    → serialize_identity_ledger events ≡ bytes
    → parse_lines bytes [] (lines_of events) ≡ (some events, [])
unfolding parse_lines
parse_lines-lines_of bytes events valid written =
    rw (text_eq_refl header, read_lines-event_lines 1 events, valid)
      (unfold check_events in rw (written, text_eq_refl bytes))

-- A ledger whose relations hold is read back as it was written, with no message, if its fields hold
-- no surrogates and no line breaks but `\n` and `\r`.
pub parse-serialize :
    (events : List IdentityLedgerEvent)
    → All IsWritable events
    → validate_identity_ledger_relations events ≡ []
    → parse_identity_ledger (serialize_identity_ledger events) ≡ (some events, [])
unfolding parse_identity_ledger serialize_identity_ledger
parse-serialize events w valid =
    let lines = lines_of events in
    let clean : All IsClean lines = (IsClean-header, IsClean-lines events w) in
    let text_lem : ledger_text events ≡ unlines lines =
      unfold ledger_text in join-unlines header (map event_line events) in
    let decoded : decode (encode (ledger_text events)) ≡ some (unlines lines) =
      ap (λ t. decode (encode t)) text_lem ∙ decode-encode _ (unlines-IsScalarText lines clean) in
    let ends : ends_with b'\n' (unlines lines) ≡ true =
      ap (ends_with b'\n') (sym text_lem) ∙ unfold ledger_text in ends_with-append b'\n' _ in
    rw decoded (
      unfold parse_text in
      rw (ends, splitlines-unlines lines (unbroken lines clean))
        (parse_lines-lines_of (serialize_identity_ledger events) events valid refl))
