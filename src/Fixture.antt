-- ===== src/Fixture.antt =====
-- fixture_manifest.py: the checked fixture manifest.
pub mod Plan
pub mod Parts
pub mod Contracts
pub mod Manifest
