-- ===== src/Kernel.antt =====
-- src/effectprobe/_semantic_kernel.py: the evaluation of one case in fresh clean and perturbed worlds.
pub mod Verdicts
pub mod Types
pub mod Contracts
pub mod Session
pub mod Frames
pub mod Deltas
pub mod Clean
pub mod Perturbed
pub mod Evaluate
pub mod Accounting
pub mod Confirmation
pub mod Outcomes
pub mod History
pub mod Coverage
pub mod Cleanup
