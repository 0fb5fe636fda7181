-- ===== src/Loadgen.antt =====
-- The load generator, cmd/loadgen.
pub mod Registry
pub mod Dial
pub mod Echo
mod Tests
