-- ===== src/Checks.antt =====
-- The theorems at concrete inputs.
mod Samples
mod Formats
mod Packages
mod Encoded
mod Files
mod Splits
mod Tokens
mod Moves
mod Recoveries
mod Commands
mod Restored
mod Tasks
