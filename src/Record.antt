-- ===== src/Record.antt =====
-- The sampler of the local benchmark, bench/local/record.py.
pub mod Number
pub mod Parse
pub mod Sampler
pub mod Loop
pub mod Summary
pub mod Page
pub mod Command
mod Tests
