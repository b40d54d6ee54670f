-- ===== src/IdentityLedger.antt =====
-- tests/run_tests.py: the identity ledger that the compiler writes beside its C output, its events,
-- its text format and the relations between the events of one ledger.
pub mod Event
pub mod Escape
pub mod Tables
pub mod Checks
pub mod Relations
pub mod Codec
mod Tests
