-- ===== src/Schema.antt =====
-- The checked static inputs and reports.
pub mod Index
pub mod Behaviors
pub mod Groups
pub mod Shards
pub mod Reports
pub mod Shapes
