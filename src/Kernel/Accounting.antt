-- ===== src/Kernel/Accounting.antt =====
-- Every declared contract gets exactly one result, whatever fails in a trial
-- (src/effectprobe/_semantic_kernel.py, _run_clean and _run_perturbed).
pub mod Shapes
pub mod Phases
pub mod Blocks
pub mod Contracts
pub mod Trials
pub mod Pairs
