-- ===== src/AuditLedger.antt =====
-- `.agents/scripts/audit_ledger.py`: the ledger of audit rounds, its keys, its document and its gate.
pub mod Patterns
pub mod Keys
pub mod Document
pub mod Gate
pub mod Normal
pub mod Lenses
pub mod Stored
pub mod Canonical
pub mod Revalidate
pub mod Rounds
pub mod Recorded
pub mod Debounce
pub mod Injective
pub mod Git
pub mod Published
mod Tests
