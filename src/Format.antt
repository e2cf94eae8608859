-- ===== src/Format.antt =====
-- crates/cakesplitter-format/src/lib.rs: the manifest of a Cake Package and its validation.
pub mod Decimal
pub mod Manifest
pub mod Slicing
pub mod Filename
pub mod Nesting
pub mod Validate
