-- ===== src/Cli.antt =====
-- crates/cakesplitter-cli: the command line.
pub mod Error
pub mod Planning
pub mod Terminal
pub mod Parse
