-- ===== src/Client.antt =====
-- The desktop client (client/src).
pub mod FrameCodec
pub mod MessageList
pub mod Packet
pub mod Connection
