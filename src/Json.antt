-- ===== src/Json.antt =====
-- json_validation.py: the values that enter the suite, and the validators of their shape.
pub mod Value
pub mod Validate
pub mod Normal
pub mod Decode
