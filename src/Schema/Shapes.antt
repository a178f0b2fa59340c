-- ===== src/Schema/Shapes.antt =====
-- The suite's TypedDicts as annotations for typed_json.py: a base class's fields come first.
pub mod Catalogue
pub mod Report
pub mod Fixture
