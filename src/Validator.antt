-- ===== src/Validator.antt =====
-- apps/validator: the program that reads a git bundle and prints its structural manifest.
pub mod RawDiff
