-- ===== src/Tests.antt =====
-- Runs of the model on concrete inputs, and the theorems at inputs that meet their hypotheses.
mod Cases
mod Evidence
mod Transactions
mod Limits
mod Reports
mod Commands
