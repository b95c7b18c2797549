-- ===== src/Tests.antt =====
-- Runs of the owner (src/zworkbench/composition.py) and of the parts around it on small inputs, and
-- the theorems at them.
pub mod World
mod Witnesses
mod Refusals
mod Envelopes
mod Services
mod Children
mod Vocabulary
mod Ledgers
