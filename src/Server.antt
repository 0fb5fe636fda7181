-- ===== src/Server.antt =====
-- The WebSocket server, main.go and memory.go.
pub mod Text
pub mod Memory
pub mod Ports
pub mod Requests
mod Tests
