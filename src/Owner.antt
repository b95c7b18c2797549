-- ===== src/Owner.antt =====
-- `CompositionOwner` of src/zworkbench/composition.py.
pub mod State
pub mod Core
pub mod Identity
pub mod Runs
pub mod Approvals
pub mod Claim
pub mod Effects
pub mod Retries
pub mod Exposures
pub mod Evidence
pub mod Ledgers
pub mod Exits
pub mod Fallbacks
pub mod Listings
pub mod Auth
pub mod Judgment
pub mod Aside
pub mod Change
pub mod Rules
pub mod Api
pub mod Invariants
pub mod Locked
pub mod Atomic
