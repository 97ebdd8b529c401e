-- ===== src/P2p.antt =====
-- Package p2p (p2p/) and its child sender (p2p/sender/).
pub mod Types
pub mod Requests
pub mod Chunks
pub mod Server
pub mod Serving
pub mod Datagrams
pub mod EndToEnd
mod Tests
