-- ===== src/OneShot.antt =====
-- `.agents/scripts/one_shot_gate.py`: a gate that runs once, and the receipts that prove it.
pub mod Values
pub mod Receipts
pub mod Execution
pub mod Streams
pub mod Outcome
pub mod Spec
pub mod Verdict
pub mod Execute
pub mod Run
pub mod Equal
pub mod Audit
pub mod Capture
pub mod Sealed
pub mod Consistent
pub mod Inversion
pub mod Audited
pub mod Verdicts
pub mod Proven
pub mod Success
pub mod Accepted
pub mod Requests
pub mod Prepared
pub mod Fallback
pub mod Sealing
pub mod Kept
pub mod Written
pub mod Attempted
pub mod Ends
pub mod Outer
pub mod Evidence
pub mod Ending
pub mod Bounds
mod Tests
