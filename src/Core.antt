-- ===== src/Core.antt =====
-- crates/cakesplitter-core and crates/cakesplitter-integrity.
pub mod Error
pub mod Integrity
pub mod Binding
pub mod Path
pub mod Host
pub mod Control
pub mod Stream
pub mod Publish
pub mod System
pub mod Split
pub mod Merge
pub mod RoundTrip
pub mod Range
pub mod Enumeration
