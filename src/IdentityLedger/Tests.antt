-- ===== src/IdentityLedger/Tests.antt =====
-- A ledger of six events, as the compiler writes one, and the theorems at it.
use ring_lang.Common.{
  ap, List, [], ◌∷◌, ◌≡◌, ◌↔◌, refl, inl, inr, Option, none, some, ok, codes, All, text_eq,
  mem_text, any, all, split, join, ends_with, In, true,
}
use ring_lang.Common.Int.{pos, negsuc}
use ring_lang.Common.Decimal.{str_int}
use ring_lang.Common.Utf8.{encode, encode_char, decode}
use ring_lang.Common.Lines.{splitlines, is_break}
use ring_lang.Common.Dicts.{dict_get, dict_put, set_has, set_add, set_both, sorted}
use ring_lang.IdentityLedger.Event.{
  LedgerError, IdentityLedgerEvent, identity_ledger_event_shape_errors, duplicate_capture,
  field_count,
}
use ring_lang.IdentityLedger.Escape.{ledger_escape, ledger_unescape}
use ring_lang.IdentityLedger.Escape.Canonical.{unescape_iff}
use ring_lang.IdentityLedger.Tables.{branch_of}
use ring_lang.IdentityLedger.Checks.{indices_of, range_from, ints_eq}
use ring_lang.IdentityLedger.Relations.{validate_identity_ledger_relations}
use ring_lang.IdentityLedger.Relations.Order.{NumberedFrom, accepted-NumberedFrom}
use ring_lang.IdentityLedger.Relations.Captures.{
  Captured, accepted-Captured, accepted-extract_stored,
}
use ring_lang.IdentityLedger.Relations.Entries.{is_store, is_extract}
use ring_lang.IdentityLedger.Tables.{capture_key}
use ring_lang.IdentityLedger.Relations.Slots.{accepted-no_alias, owned_slot}
use ring_lang.IdentityLedger.Relations.Calls.{is_load}
use ring_lang.IdentityLedger.Relations.Loads.{Consumed, accepted-Consumed}
use ring_lang.IdentityLedger.Codec.{serialize_identity_ledger, parse_identity_ledger, ledger_text}
use ring_lang.IdentityLedger.Codec.Accepted.{parse-some}
use ring_lang.IdentityLedger.Codec.Chars.{IsWritable}
use ring_lang.IdentityLedger.Codec.RoundTrip.{parse-serialize}

abbrev edge : IdentityLedgerEvent
edge = record {
  event_id = pos 1;
  kind = codes "closure-edge";
  edge_id = pos 1;
  load_id = pos 0;
  parent_frame = codes "p";
  child_frame = codes "c";
  domain = codes "fresh";
  def_id = negsuc 0;
  canonical_key = [];
  producer = codes "closure-edge:c";
  source_slot = codes "s";
  dest_slot = codes "d";
  index = pos 0;
  arity = pos 0;
}

abbrev stored : IdentityLedgerEvent
stored = record edge {
  event_id = pos 2;
  kind = codes "capture-store";
  domain = codes "exact";
  def_id = pos 5;
  canonical_key = codes "k|1";
  producer = [];
  source_slot = codes "x";
  dest_slot = codes "s";
  index = pos 1;
}

abbrev extracted : IdentityLedgerEvent
extracted = record stored {
  event_id = pos 3;
  kind = codes "capture-extract";
  source_slot = codes "y";
  dest_slot = codes "z";
}

abbrev loaded : IdentityLedgerEvent
loaded = record edge {
  event_id = pos 4;
  kind = codes "dict-receiver-load";
  edge_id = pos 0;
  load_id = pos 1;
  domain = codes "static";
  canonical_key = codes "dict";
  producer = [];
  source_slot = codes "q";
  dest_slot = codes "r";
  index = pos 1;
}

abbrev called : IdentityLedgerEvent
called = record loaded {
  event_id = pos 5;
  kind = codes "closure-call";
  domain = codes "computed";
  canonical_key = [];
  producer = codes "dict-receiver-load";
  source_slot = codes "r";
  dest_slot = codes "o";
  arity = pos 1;
}

abbrev named : IdentityLedgerEvent
named = record called {
  event_id = pos 6;
  load_id = pos 0;
  domain = codes "name-only";
  canonical_key = codes "g";
  producer = [];
  source_slot = codes "w";
}

abbrev ledger : List IdentityLedgerEvent
ledger = edge ∷ stored ∷ extracted ∷ loaded ∷ called ∷ named ∷ []

ledger_valid : validate_identity_ledger_relations ledger ≡ []
unfolding validate_identity_ledger_relations identity_ledger_event_shape_errors text_eq mem_text any
    dict_get dict_put set_has set_add set_both sorted indices_of range_from ints_eq
ledger_valid = refl

accepted-NumberedFrom_example : NumberedFrom 1 ledger
accepted-NumberedFrom_example = accepted-NumberedFrom ledger ledger_valid

stored_branch : is_store (branch_of stored) ≡ true
unfolding branch_of text_eq mem_text any
stored_branch = refl

extracted_branch : is_extract (branch_of extracted) ≡ true
unfolding branch_of text_eq mem_text any
extracted_branch = refl

accepted-Captured_example : Captured ledger stored
accepted-Captured_example =
    accepted-Captured ledger stored ledger_valid (inr (inl refl)) stored_branch

accepted-extract_stored_example :
    (x : IdentityLedgerEvent) × In x ledger
    × (is_store (branch_of x) ≡ true)
    × (capture_key x ≡ capture_key extracted)
accepted-extract_stored_example =
    accepted-extract_stored ledger extracted ledger_valid (inr (inr (inl refl))) extracted_branch

owned_by_stored : owned_slot (branch_of stored) stored ≡ some (codes "p", codes "x")
unfolding branch_of text_eq mem_text any
owned_by_stored = refl

accepted-no_alias_example : ¬ (owned_slot (branch_of named) named ≡ some (codes "p", codes "x"))
accepted-no_alias_example =
    accepted-no_alias ledger stored named (codes "p", codes "x") ledger_valid (inr (inl refl))
      (inr (inr (inr (inr (inr (inl refl)))))) refl refl owned_by_stored

loaded_branch : is_load (branch_of loaded) ≡ true
unfolding branch_of text_eq mem_text any
loaded_branch = refl

accepted-Consumed_example : Consumed ledger loaded
accepted-Consumed_example =
    accepted-Consumed ledger loaded ledger_valid (inr (inr (inr (inl refl)))) loaded_branch

unescape_iff_example :
    (ledger_unescape (codes "k%7C1") ≡ ok (codes "k|1"))
    ↔ (codes "k%7C1" ≡ ledger_escape (codes "k|1"))
unescape_iff_example = unescape_iff (codes "k%7C1") (codes "k|1")

edge_IsWritable : IsWritable edge
unfolding all is_break
edge_IsWritable = record {
  kind = refl;
  parent_frame = refl;
  child_frame = refl;
  domain = refl;
  canonical_key = refl;
  producer = refl;
  source_slot = refl;
  dest_slot = refl;
}

-- A ledger of one closure call.
abbrev single : List IdentityLedgerEvent
single = record named { event_id = pos 1; source_slot = codes "a|b%\n" } ∷ []

single_valid : validate_identity_ledger_relations single ≡ []
unfolding validate_identity_ledger_relations identity_ledger_event_shape_errors text_eq mem_text any
    dict_get dict_put set_has set_add set_both sorted
single_valid = refl

single-IsWritable : All IsWritable single
unfolding all is_break
single-IsWritable = (
  record {
    kind = refl;
    parent_frame = refl;
    child_frame = refl;
    domain = refl;
    canonical_key = refl;
    producer = refl;
    source_slot = refl;
    dest_slot = refl;
  },
  tt,
)

parse-serialize_example :
    parse_identity_ledger (serialize_identity_ledger single) ≡ (some single, [])
parse-serialize_example = parse-serialize single single-IsWritable single_valid

single_text :
    ledger_text single
    ≡ codes "RING-C-IDENTITY-LEDGER|1\nE|1|closure-call|0|0|p|c|name-only|-1|g||a%7Cb%25%0A|o|1|1\n"
unfolding ledger_text ledger_escape str_int join
single_text = refl

parsed_single : (parse_identity_ledger (serialize_identity_ledger single)).0 ≡ some single
parsed_single =
    ap (λ (r : Option (List IdentityLedgerEvent) × List LedgerError). r.0) parse-serialize_example

parse-some_example :
    (serialize_identity_ledger single ≡ serialize_identity_ledger single)
    × (validate_identity_ledger_relations single ≡ [])
    × ((parse_identity_ledger (serialize_identity_ledger single)).1 ≡ [])
parse-some_example = parse-some (serialize_identity_ledger single) single parsed_single

-- A duplicate capture is reported.
duplicate_reported :
    validate_identity_ledger_relations
      (edge ∷ stored ∷ extracted ∷ record stored { event_id = pos 4 } ∷ [])
    ≡ duplicate_capture (codes "capture-store") (pos 1, pos 1) ∷ []
unfolding validate_identity_ledger_relations identity_ledger_event_shape_errors text_eq mem_text any
    dict_get dict_put set_has set_add set_both sorted indices_of range_from ints_eq
duplicate_reported = refl

-- A slot name with a vertical tab passes every check of the relations, and yet the written ledger is
-- not read back: the reader ends the line at the tab.
abbrev tabbed : List IdentityLedgerEvent
tabbed = record named { event_id = pos 1; source_slot = 0x61 ∷ 0x0b ∷ 0x62 ∷ [] } ∷ []

tabbed_valid : validate_identity_ledger_relations tabbed ≡ []
unfolding validate_identity_ledger_relations identity_ledger_event_shape_errors text_eq mem_text any
    dict_get dict_put set_has set_add set_both sorted
tabbed_valid = refl

tabbed_lost :
    parse_identity_ledger (serialize_identity_ledger tabbed)
    ≡ (none, field_count 1 12 ∷ field_count 2 4 ∷ [])
unfolding parse_identity_ledger serialize_identity_ledger decode encode encode_char splitlines split
    join ends_with ledger_escape str_int text_eq
tabbed_lost = refl
