-- ===== src/IdentityLedger/Codec.antt =====
-- `serialize_identity_ledger` and `parse_identity_ledger`. The text of an exception is not modelled:
-- a line that does not parse is reported by its number.
pub mod Accepted
pub mod Chars
pub mod RoundTrip
use ring_lang.Common.{
  ℕ, zero, suc, ◌+◌, Bool, true, false, not, List, [], ◌∷◌, ◌++◌, map, Option, none, some,
  if◌then◌else◌, Text, codes, text_eq, split, join, ends_with, length, Result, ok, err, ◌>>=◌, ◌>>◌,
  raise_if,
}
use ring_lang.Common.Int.{ℤ}
use ring_lang.Common.Decimal.{str_int, int_text}
use ring_lang.Common.Utf8.{encode, decode}
use ring_lang.Common.Lines.{splitlines}
use ring_lang.IdentityLedger.Event.{
  IdentityLedgerEvent, LedgerError, report, not_utf8, no_final_newline, header_mismatch,
  field_count, bad_line, not_canonical,
}
use ring_lang.IdentityLedger.Escape.{EscapeError, ledger_escape, ledger_unescape}
use ring_lang.IdentityLedger.Relations.{validate_identity_ledger_relations}

abbrev pub header : Text
header = codes "RING-C-IDENTITY-LEDGER|1"

-- The fifteen fields of an event's line.
abbrev pub event_fields : IdentityLedgerEvent → List Text
event_fields e =
    codes "E"
    ∷ str_int e.event_id
    ∷ ledger_escape e.kind
    ∷ str_int e.edge_id
    ∷ str_int e.load_id
    ∷ ledger_escape e.parent_frame
    ∷ ledger_escape e.child_frame
    ∷ ledger_escape e.domain
    ∷ str_int e.def_id
    ∷ ledger_escape e.canonical_key
    ∷ ledger_escape e.producer
    ∷ ledger_escape e.source_slot
    ∷ ledger_escape e.dest_slot
    ∷ str_int e.index
    ∷ str_int e.arity
    ∷ []

unfoldable pub event_line : IdentityLedgerEvent → Text
event_line e = join (b'|' ∷ []) (event_fields e)

-- The text of a ledger, before it is encoded.
unfoldable pub ledger_text : List IdentityLedgerEvent → Text
unfolding event_line
ledger_text events = join (b'\n' ∷ []) (header ∷ map event_line events) ++ (b'\n' ∷ [])

unfoldable pub serialize_identity_ledger : List IdentityLedgerEvent → List ℕ
unfolding ledger_text
serialize_identity_ledger events = encode (ledger_text events)

abbrev pub int_field : ℕ → Text → Result LedgerError ℤ
int_field ordinal s = elim (int_text s) [ none ↦ err (bad_line ordinal) | some n ↦ ok n ]

abbrev pub text_field : ℕ → Text → Result LedgerError Text
text_field ordinal s = elim (ledger_unescape s) [ err e ↦ err (bad_line ordinal) | ok v ↦ ok v ]

-- `len(fields) != 15 or fields[0] != "E"`, and the fields read in their order.
unfoldable pub read_event : ℕ → List Text → Result LedgerError IdentityLedgerEvent
read_event n (f0 ∷ f1 ∷ f2 ∷ f3 ∷ f4 ∷ f5 ∷ f6 ∷ f7 ∷ f8 ∷ f9 ∷ f10 ∷ f11 ∷ f12 ∷ f13 ∷ f14 ∷ []) =
    do
      raise_if (not (text_eq f0 (codes "E"))) (field_count n 15)
      event_id ← int_field n f1
      kind ← text_field n f2
      edge_id ← int_field n f3
      load_id ← int_field n f4
      parent_frame ← text_field n f5
      child_frame ← text_field n f6
      domain ← text_field n f7
      def_id ← int_field n f8
      canonical_key ← text_field n f9
      producer ← text_field n f10
      source_slot ← text_field n f11
      dest_slot ← text_field n f12
      index ← int_field n f13
      arity ← int_field n f14
      ok (record {
        event_id = event_id;
        kind = kind;
        edge_id = edge_id;
        load_id = load_id;
        parent_frame = parent_frame;
        child_frame = child_frame;
        domain = domain;
        def_id = def_id;
        canonical_key = canonical_key;
        producer = producer;
        source_slot = source_slot;
        dest_slot = dest_slot;
        index = index;
        arity = arity;
      })
read_event n fields = err (field_count n (length fields))

-- One round of the loop over the lines.
unfoldable pub read_line : ℕ → Text → Result LedgerError IdentityLedgerEvent
unfolding read_event
read_line n line = read_event n (split b'|' line)

abbrev pub Reading : Type 0
Reading = List IdentityLedgerEvent × List LedgerError

-- `events.append(event)` or `errors.append(…)`, in front of what the later lines give.
abbrev pub collect : Result LedgerError IdentityLedgerEvent → Reading → Reading
collect (ok e) (events, errors) = (e ∷ events, errors)
collect (err x) (events, errors) = (events, x ∷ errors)

unfoldable pub read_lines : ℕ → List Text → Reading
unfolding read_line
read_lines n [] = ([], [])
read_lines n (line ∷ lines) = collect (read_line n line) (read_lines (n + 1) lines)

abbrev pub Parsed : Type 0
Parsed = Option (List IdentityLedgerEvent) × List LedgerError

-- The checks behind the loop, on the messages, the relations and the bytes.
unfoldable pub check_events :
    List ℕ → List IdentityLedgerEvent → List LedgerError → List LedgerError → Parsed
check_events bytes events (x ∷ errors) relations = (none, x ∷ errors)
check_events bytes events [] (x ∷ errors) = (none, x ∷ errors)
check_events bytes events [] [] =
    if text_eq (serialize_identity_ledger events) bytes
    then (some events, [])
    else (none, not_canonical ∷ [])

unfoldable pub parse_lines : List ℕ → List LedgerError → List Text → Parsed
unfolding read_lines check_events
parse_lines bytes ending [] = (none, header_mismatch ∷ [])
parse_lines bytes ending (first ∷ lines) =
    if text_eq first header
    then (let (events, errors) = read_lines 1 lines in
        check_events bytes events (ending ++ errors) (validate_identity_ledger_relations events))
    else (none, header_mismatch ∷ [])

unfoldable pub parse_text : List ℕ → Option Text → Parsed
unfolding parse_lines
parse_text bytes none = (none, not_utf8 ∷ [])
parse_text bytes (some text) =
    parse_lines bytes (report (not (ends_with b'\n' text)) no_final_newline) (splitlines text)

unfoldable pub parse_identity_ledger : List ℕ → Parsed
unfolding parse_text
parse_identity_ledger bytes = parse_text bytes (decode bytes)
