-- ===== src/Wscat.antt =====
-- wscat, the command line client, src/wscat.c.
pub mod State
pub mod Frame
pub mod Input
pub mod Repeat
pub mod Events
pub mod Request
pub mod Tls
pub mod Main
mod Tests
pub mod Relay
pub mod Handshake
