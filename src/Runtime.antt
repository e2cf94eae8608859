-- ===== src/Runtime.antt =====
-- crates/cakesplitter-desktop-runtime: the tasks of the desktop application and their store.
pub mod Status
pub mod Record
pub mod Shape
pub mod Store
pub mod Scheduler
pub mod Reorder
pub mod Recovery
pub mod Summary
