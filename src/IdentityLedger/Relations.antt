-- ===== src/IdentityLedger/Relations.antt =====
-- `validate_identity_ledger_relations`, and what a ledger with no messages satisfies.
pub mod Order
pub mod Lookup
pub mod Entries
pub mod Captures
pub mod Slots
pub mod Calls
pub mod Loads
use ring_lang.Common.{List, [], ◌++◌}
use ring_lang.IdentityLedger.Event.{IdentityLedgerEvent, LedgerError}
use ring_lang.IdentityLedger.Tables.{Tables, no_tables, scan}
use ring_lang.IdentityLedger.Checks.{table_errors}

unfoldable pub validate_identity_ledger_relations : List IdentityLedgerEvent → List LedgerError
unfolding scan table_errors
validate_identity_ledger_relations events =
    let (s, errors) = scan 1 events no_tables in errors ++ table_errors s
