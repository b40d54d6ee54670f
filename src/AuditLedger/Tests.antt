-- ===== src/AuditLedger/Tests.antt =====
-- Runs of `.agents/scripts/audit_ledger.py` at concrete inputs.
use ring_lang.Common.{
  Option, if◌then◌else◌, ◌≡◌, ◌≢◌, text_eq, text_eq_iff, false, refl, ℕ, List, [], ◌∷◌, ◌++◌, ok,
  err, codes, Text, none, some, length,
}
use ring_lang.Common.Decimal.{decimal}
use ring_lang.Common.Json.{Json, array, no_items}
use ring_lang.AuditLedger.Keys.{
  canonical, stored_audit_key, normalize_trigger_id, normalize_lenses, unstable_trigger,
  counted_trigger, AuditKey, create, same_scope,
}
use ring_lang.AuditLedger.Stored.{
  stored_audit_key_again, normalize_lenses-normal, IsStored, create-IsStored,
}
use ring_lang.AuditLedger.Document.{
  already_recorded, AuditRecord, Document, key_record, validate_document, to_json, outcome_of,
  unhashable, invalid_ledger_input,
}
use ring_lang.Common.Utf8.{encode_char}
use ring_lang.AuditLedger.Normal.{normalize_trigger_id_idempotent}
use ring_lang.AuditLedger.Lenses.{IsLensSet, normalize_lenses-IsLensSet}
use ring_lang.AuditLedger.Injective.{canonical-inj}
use ring_lang.AuditLedger.Canonical.{IsLedger}
use ring_lang.AuditLedger.Revalidate.{validate_document_idempotent}
use ring_lang.AuditLedger.Rounds.{check_start_gate-promise, gate_promise, shares_scope}
use ring_lang.AuditLedger.Recorded.{record_outcome-recorded}
use ring_lang.AuditLedger.Debounce.{record_outcome-found, record_outcome-others}
use ring_lang.AuditLedger.Git.{CompletedProcess, add_record, run_at}
use ring_lang.AuditLedger.Published.{IsWritten, add_record-written}
use ring_lang.Common.Int.{pos}
use ring_lang.AuditLedger.Gate.{find_by, record_outcome, check_start_gate, find_record}

trigger_stripped :
    normalize_trigger_id (codes " Risk:runtime-abi-change ") ≡ ok (codes "risk:runtime-abi-change")
unfolding normalize_trigger_id
trigger_stripped = refl

trigger_dated : normalize_trigger_id (codes "audit:2026-07-29") ≡ err unstable_trigger
unfolding normalize_trigger_id
trigger_dated = refl

trigger_counted : normalize_trigger_id (codes "queue-empty-round-99") ≡ err counted_trigger
unfolding normalize_trigger_id
trigger_counted = refl

lenses_sorted :
    normalize_lenses (codes "runtime-abi, rc-memory" ∷ codes "runtime-abi" ∷ [])
    ≡ ok (codes "rc-memory" ∷ codes "runtime-abi" ∷ [])
unfolding normalize_lenses
lenses_sorted = refl

trigger_uuid :
    normalize_trigger_id (codes "audit:550e8400-e29b-41d4-a716-446655440000") ≡ err unstable_trigger
unfolding normalize_trigger_id
trigger_uuid = refl

-- A stand-in for the digest.
abbrev toy_sha256 : List ℕ → Text
toy_sha256 bytes = codes "d" ++ decimal (length bytes)

abbrev sha_a : Text
sha_a = codes "aaaaaaaaaaaaaaaaaaaaaaaaaaaaaaaaaaaaaaaa"

abbrev first_key : AuditKey
first_key = record {
  trigger_id = codes "risk:runtime-abi-change";
  source_sha = sha_a;
  lenses = codes "rc-memory" ∷ codes "runtime-abi" ∷ [];
}

abbrev second_key : AuditKey
second_key = record {
  trigger_id = codes "risk:next-event";
  source_sha = sha_a;
  lenses = codes "rc-memory" ∷ codes "runtime-abi" ∷ [];
}

abbrev no_rounds : Document
no_rounds = record { records = []; source_sha = sha_a }

abbrev one_record : AuditRecord
one_record = key_record toy_sha256 first_key (codes "no-findings") none

abbrev one_round : Document
one_round = record { records = one_record ∷ []; source_sha = sha_a }

first_created :
    create (codes "Risk:runtime-abi-change ") sha_a (codes "runtime-abi,rc-memory" ∷ [])
    ≡ ok first_key
unfolding create
first_created = refl

second_created :
    create (codes "risk:next-event") sha_a (codes "runtime-abi" ∷ codes "rc-memory" ∷ [])
    ≡ ok second_key
unfolding create
second_created = refl

first-IsStored : IsStored first_key
first-IsStored =
    create-IsStored (codes "Risk:runtime-abi-change ") sha_a (codes "runtime-abi,rc-memory" ∷ [])
      first_key first_created

second-IsStored : IsStored second_key
second-IsStored =
    create-IsStored (codes "risk:next-event") sha_a (codes "runtime-abi" ∷ codes "rc-memory" ∷ [])
      second_key second_created

first_recorded :
    record_outcome toy_sha256 (to_json no_rounds) first_key (codes "no-findings") none
    ≡ ok (one_round, one_record)
unfolding record_outcome key_record
first_recorded = refl

one_round_valid : validate_document toy_sha256 (to_json one_round) sha_a ≡ ok one_round
unfolding validate_document to_json key_record decimal encode_char
one_round_valid = refl

-- A second round on the same commit and lenses, with no evidence, is refused.
second_refused :
    check_start_gate toy_sha256 (to_json one_round) second_key
    ≡ err (invalid_ledger_input same_scope)
unfolding check_start_gate to_json key_record decimal encode_char
second_refused = refl

-- An outcome that is a list raises no `CorruptLedger`.
listed_outcome : outcome_of 0 (array no_items) ≡ err unhashable
unfolding outcome_of
listed_outcome = refl

first_found : find_record toy_sha256 (to_json one_round) first_key ≡ ok (some one_record)
unfolding find_record to_json key_record decimal encode_char
first_found = refl

no_rounds_valid : validate_document toy_sha256 (to_json no_rounds) sha_a ≡ ok no_rounds
unfolding validate_document to_json
no_rounds_valid = refl

keys_tested : text_eq (canonical second_key) (canonical first_key) ≡ false
unfolding canonical text_eq
keys_tested = refl

keys_differ : canonical second_key ≢ canonical first_key
keys_differ e = cc ((text_eq_iff (canonical second_key) (canonical first_key)).1 e, keys_tested)

normalize_trigger_id_idempotent_example :
    normalize_trigger_id (codes "risk:runtime-abi-change") ≡ ok (codes "risk:runtime-abi-change")
normalize_trigger_id_idempotent_example =
    normalize_trigger_id_idempotent (codes " Risk:runtime-abi-change ")
      (codes "risk:runtime-abi-change") trigger_stripped

normalize_lenses-IsLensSet_example : IsLensSet (codes "rc-memory" ∷ codes "runtime-abi" ∷ [])
normalize_lenses-IsLensSet_example =
    normalize_lenses-IsLensSet (codes "runtime-abi, rc-memory" ∷ codes "runtime-abi" ∷ [])
      (codes "rc-memory" ∷ codes "runtime-abi" ∷ []) lenses_sorted

normalize_lenses-normal_example :
    normalize_lenses (codes "rc-memory" ∷ codes "runtime-abi" ∷ [])
    ≡ ok (codes "rc-memory" ∷ codes "runtime-abi" ∷ [])
normalize_lenses-normal_example =
    normalize_lenses-normal (codes "rc-memory" ∷ codes "runtime-abi" ∷ []) first-IsStored.2

stored_audit_key_again_example :
    stored_audit_key (codes "risk:next-event") sha_a (codes "rc-memory" ∷ codes "runtime-abi" ∷ [])
    ≡ ok second_key
stored_audit_key_again_example = stored_audit_key_again second_key second-IsStored

canonical-inj_example : first_key ≡ first_key
canonical-inj_example = canonical-inj first_key first_key first-IsStored first-IsStored refl

validate_document_idempotent_example :
    validate_document toy_sha256 (to_json one_round) sha_a ≡ ok one_round
validate_document_idempotent_example =
    validate_document_idempotent toy_sha256 (to_json one_round) sha_a one_round one_round_valid

check_start_gate-promise_example :
    check_start_gate toy_sha256 (to_json one_round) second_key
    ≡ gate_promise second_key
        (shares_scope second_key one_round.records)
        (find_by (canonical second_key) one_round.records)
check_start_gate-promise_example =
    check_start_gate-promise toy_sha256 (to_json one_round) second_key one_round one_round_valid

record_outcome-recorded_example :
    record_outcome toy_sha256 (to_json one_round) first_key (codes "findings") none
    ≡ err (already_recorded one_record)
record_outcome-recorded_example =
    record_outcome-recorded toy_sha256 (to_json one_round) first_key (codes "findings") none
      one_record first_found

record_outcome-found_example :
    IsLedger toy_sha256 one_round
    × (find_record toy_sha256 (to_json one_round) first_key ≡ ok (some one_record))
record_outcome-found_example =
    record_outcome-found toy_sha256 (to_json no_rounds) first_key (codes "no-findings") none
      one_round one_record first-IsStored first_recorded

record_outcome-others_example :
    find_record toy_sha256 (to_json one_round) second_key
    ≡ find_record toy_sha256 (to_json no_rounds) second_key
record_outcome-others_example =
    record_outcome-others toy_sha256 (to_json no_rounds) first_key second_key (codes "no-findings")
      none one_round one_record first-IsStored refl keys_differ first_recorded

-- A stand-in for Git with no notes yet, which keeps the commands it was given.
abbrev toy_answer : List Text → CompletedProcess
toy_answer (a ∷ b ∷ c ∷ rest) =
    if text_eq c (codes "list")
    then record { returncode = pos 1; stdout = []; stderr = [] }
    else if text_eq a (codes "rev-parse")
    then record { returncode = pos 0; stdout = sha_a; stderr = [] }
    else record { returncode = pos 0; stdout = []; stderr = [] }
toy_answer _ = record { returncode = pos 0; stdout = []; stderr = [] }

abbrev toy_git : List Text → List (List Text) → CompletedProcess × List (List Text)
toy_git arguments log = (toy_answer arguments, arguments ∷ log)

abbrev toy_loads : Text → Option Json
toy_loads s = none

abbrev toy_dumps : Json → Text
toy_dumps j = codes "{}"

abbrev last_log : List (List Text)
last_log =
    (add_record toy_git toy_sha256 toy_loads toy_dumps first_key (codes "no-findings") none []).1

first_added :
    add_record toy_git toy_sha256 toy_loads toy_dumps first_key (codes "no-findings") none []
    ≡ (ok one_record, last_log)
unfolding add_record run_at text_eq key_record decimal encode_char
first_added = refl

add_record-written_example :
    (d : Document) × (before : List (List Text)) × IsWritten toy_git toy_sha256 toy_loads toy_dumps
      d sha_a before last_log
    × (find_record toy_sha256 (to_json d) first_key ≡ ok (some one_record))
add_record-written_example =
    add_record-written toy_git toy_sha256 toy_loads toy_dumps first_key (codes "no-findings") none
      [] last_log one_record first-IsStored first_added
