-- ===== src/AuditLedger/Document.antt =====
-- `.agents/scripts/audit_ledger.py`: the note's document, its validation, the gate and the new record.
use ring_lang.Common.{
  ℕ, ◌+◌, Bool, List, [], ◌∷◌, Option, none, some, Result, ok, err, ◌>>=◌, ◌>>◌, raise_if,
  if◌then◌else◌, not, Text, codes, text_eq, mem_text, map,
}
use ring_lang.Common.Int.{pos}
use ring_lang.Common.Utf8.{encode}
use ring_lang.Common.Order.{sort_by}
use ring_lang.Common.Json.{
  Json, null, int, str, array, object, Items, no_items, item, Members, no_members, member,
  get_member?, get_member, or_else, is_one, is_str, py_str, texts_of, str_items, items_of,
}
use ring_lang.AuditLedger.Patterns.{outcomes}
use ring_lang.AuditLedger.Keys.{
  InvalidInput, Checked, AuditKey, canonical, normalize_source_sha, stored_audit_key,
}

pub record AuditRecord : Type 0 where
  pub canonical_key : Text
  pub key_digest : Text
  pub lenses : List Text
  pub outcome : Text
  pub source_sha : Text
  pub trigger_id : Text
  pub summary : Option Text

-- A canonical document; its version is always 1.
pub record Document : Type 0 where
  pub records : List AuditRecord
  pub source_sha : Text

-- The messages of `CorruptLedger`; those of the loop with the record's index.
pub data Corrupt : Type 0 where
  not_object bad_version bad_target not_list : Corrupt
  record_not_object bad_lenses other_source : ℕ → Corrupt
  bad_key : ℕ → InvalidInput → Corrupt
  bad_canonical_key bad_digest bad_record_outcome bad_summary duplicate_key : ℕ → Corrupt

pub data LedgerError : Type 0 where
  invalid_ledger_input : InvalidInput → LedgerError
  corrupt_ledger : Corrupt → LedgerError
  already_recorded : AuditRecord → LedgerError
  -- `outcome not in OUTCOMES` hashes the outcome, which a list or a dictionary does not allow
  unhashable : LedgerError

abbrev pub Ledger : Type 0 → Type 0
Ledger A = Result LedgerError A

abbrev pub checked : {A : Type 0} → Checked A → Ledger A
checked (err e) = err (invalid_ledger_input e)
checked (ok a) = ok a

-- `except InvalidLedgerInput as error: raise CorruptLedger(...)`
abbrev pub reraise : {A : Type 0} → ℕ → Checked A → Ledger A
reraise index (err e) = err (corrupt_ledger (bad_key index e))
reraise index (ok a) = ok a

-- `if not test: raise CorruptLedger(...)`
abbrev pub corrupt_unless : Bool → Corrupt → Ledger (Unit {0})
corrupt_unless test e = raise_if (not test) (corrupt_ledger e)

unfoldable pub empty_document : Text → Ledger Document
unfolding normalize_source_sha
empty_document source_sha = do
  let sha = (← checked (normalize_source_sha source_sha))
  ok (record { records = []; source_sha = sha })

abbrev pub lenses_or_corrupt : ℕ → Option (List Text) → Ledger (List Text)
lenses_or_corrupt index none = err (corrupt_ledger (bad_lenses index))
lenses_or_corrupt index (some lenses) = ok lenses

unfoldable pub raw_lenses_of : ℕ → Json → Ledger (List Text)
unfolding texts_of
raw_lenses_of index (array xs) = lenses_or_corrupt index (texts_of xs)
raw_lenses_of index _ = err (corrupt_ledger (bad_lenses index))

unfoldable pub outcome_of : ℕ → Json → Ledger Text
unfolding mem_text
outcome_of index (str s) =
    if mem_text s outcomes then ok s else err (corrupt_ledger (bad_record_outcome index))
outcome_of index (array xs) = err unhashable
outcome_of index (object ms) = err unhashable
outcome_of index _ = err (corrupt_ledger (bad_record_outcome index))

unfoldable pub summary_of : ℕ → Json → Ledger (Option Text)
summary_of index null = ok none
summary_of index (str s) = ok (some s)
summary_of index _ = err (corrupt_ledger (bad_summary index))

unfoldable pub records_of : Json → Ledger Items
records_of (array xs) = ok xs
records_of _ = err (corrupt_ledger not_list)

unfoldable pub members_of : Json → Ledger Members
members_of (object ms) = ok ms
members_of _ = err (corrupt_ledger not_object)

-- The dictionary of a record and of a document.
unfoldable pub summary_member : Option Text → Members
summary_member none = no_members
summary_member (some s) = member (codes "summary") (str s) no_members

unfoldable pub record_members : AuditRecord → Members
unfolding str_items summary_member
record_members r = member (codes "canonical_key") (str r.canonical_key) (
    member (codes "key_digest") (str r.key_digest) (
      member (codes "lenses") (array (str_items r.lenses)) (
        member (codes "outcome") (str r.outcome) (
          member (codes "source_sha") (str r.source_sha)
            (member (codes "trigger_id") (str r.trigger_id) (summary_member r.summary))))))

unfoldable pub record_json : AuditRecord → Json
unfolding record_members
record_json r = object (record_members r)

unfoldable pub to_json : Document → Json
unfolding record_json items_of
to_json d = object (
    member (codes "records") (array (items_of (map record_json d.records))) (
      member (codes "source_sha") (str d.source_sha)
        (member (codes "version") (int (pos 1)) no_members)))

-- The digest is a parameter: `sha256` of the bytes, in hexadecimal.
module _ (sha256 : List ℕ → Text) where
  unfoldable pub digest : AuditKey → Text
  unfolding canonical encode
  digest key = sha256 (encode (canonical key))

  unfoldable pub key_record : AuditKey → Text → Option Text → AuditRecord
  unfolding canonical digest
  key_record key outcome summary = record {
    canonical_key = canonical key;
    key_digest = digest key;
    lenses = key.lenses;
    outcome = outcome;
    source_sha = key.source_sha;
    trigger_id = key.trigger_id;
    summary = summary;
  }

  -- The body of the loop, for a record that is an object.
  unfoldable pub validate_members : ℕ → Text → List Text → Members → Ledger AuditRecord
  unfolding get_member get_member? py_str raw_lenses_of outcome_of summary_of stored_audit_key
      text_eq is_str canonical digest mem_text key_record
  validate_members index expected seen ms = do
    let raw_lenses = (← raw_lenses_of index (get_member (codes "lenses") ms))
    let key =
        (← reraise index (
          stored_audit_key (py_str (or_else (str []) (get_member? (codes "trigger_id") ms)))
            (py_str (or_else (str []) (get_member? (codes "source_sha") ms))) raw_lenses))
    corrupt_unless (text_eq key.source_sha expected) (other_source index)
    corrupt_unless (is_str (canonical key) (get_member (codes "canonical_key") ms))
        (bad_canonical_key index)
    corrupt_unless (is_str (digest key) (get_member (codes "key_digest") ms)) (bad_digest index)
    let outcome = (← outcome_of index (get_member (codes "outcome") ms))
    let summary = (← summary_of index (get_member (codes "summary") ms))
    corrupt_unless (not (mem_text (canonical key) seen)) (duplicate_key index)
    ok (key_record key outcome summary)

  unfoldable pub validate_record : ℕ → Text → List Text → Json → Ledger AuditRecord
  unfolding validate_members
  validate_record index expected seen (object ms) = validate_members index expected seen ms
  validate_record index expected seen _ = err (corrupt_ledger (record_not_object index))

  -- `for index, record in enumerate(records)`, with the keys seen so far.
  unfoldable pub validate_records : ℕ → Text → List Text → Items → Ledger (List AuditRecord)
  unfolding validate_record
  validate_records index expected seen no_items = ok []
  validate_records index expected seen (item x xs) = do
    let r = (← validate_record index expected seen x)
    let rest = (← validate_records (index + 1) expected (r.canonical_key ∷ seen) xs)
    ok (r ∷ rest)

  unfoldable pub validate_document : Json → Text → Ledger Document
  unfolding normalize_source_sha get_member is_one is_str validate_records records_of members_of
      sort_by
  validate_document document expected_source_sha = do
    let expected = (← checked (normalize_source_sha expected_source_sha))
    let ms = (← members_of document)
    corrupt_unless (is_one (get_member (codes "version") ms)) bad_version
    corrupt_unless (is_str expected (get_member (codes "source_sha") ms)) bad_target
    let records = (← records_of (get_member (codes "records") ms))
    let canonical_records = (← validate_records 0 expected [] records)
    ok (record {
      records = sort_by (λ r. r.canonical_key) canonical_records;
      source_sha = expected;
    })
