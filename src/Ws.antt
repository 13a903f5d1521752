-- ===== src/Ws.antt =====
-- The websocket protocol layer, src/ws.c: frame headers, control frames and the closing
-- handshake, data frames.
pub mod Header
pub mod Control
pub mod Data
mod Tests
