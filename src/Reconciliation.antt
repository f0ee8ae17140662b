-- ===== src/Reconciliation.antt =====
-- src/psv/reconciliation.py: settlement identities, decoded credits and ledger reconciliation.
pub mod Fields
pub mod Credit
pub mod Find
pub mod Equality
pub mod Decoding
pub mod Observed
pub mod Ledger
pub mod Ordering
pub mod Healing
pub mod Hexes
mod Tests
