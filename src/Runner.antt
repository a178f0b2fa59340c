-- ===== src/Runner.antt =====
-- run.py: how failures are classified, the life of the cases of a run, and its exit status.
pub mod Failures
pub mod Attempt
pub mod Cases
