-- ===== src/ReferenceSut.antt =====
-- src/psv/reference_sut: the payment system that the harness is run against.
pub mod Confirmer
pub mod Confirmed
pub mod Events
mod ConfirmerTests
pub mod Settled
pub mod Drift
pub mod State
pub mod Submit
pub mod Server
pub mod Ledger
pub mod Orders
pub mod Sound
pub mod Reachable
pub mod Kept
pub mod Confirmation
pub mod Evidence
pub mod Idempotent
mod ServerTests
pub mod Recovery
mod RecoveryTests
