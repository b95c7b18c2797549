-- ===== src/Worker.antt =====
-- The wire contract between the DSH runtime and a Worker (src/zworkbench/worker_contract.py).
pub mod Base
pub mod Ensures
pub mod Identity
pub mod Provider
pub mod Component
pub mod Capability
pub mod Envelope
pub mod Completion
pub mod Facade
