-- ===== src/Refund.antt =====
-- src/effectprobe/_refund_comparison.py: the vulnerable and the keyed refund subject over an
-- in-memory provider, as a case of the kernel.
pub mod Model
pub mod Provider
pub mod Contracts
pub mod Comparison
pub mod Idempotence
