-- ===== src/Coverage.antt =====
-- coverage_report.py: which catalogued requirements and interfaces a run has evidence for.
pub mod Records
pub mod Options
pub mod Metric
pub mod Subject
pub mod Model
pub mod Credit
pub mod Summary
