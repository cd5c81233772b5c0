-- ===== src/Message.antt =====
-- The Message node (server/message): the streams from the Gateways, and the commands that they carry.
pub mod Packet
pub mod Service
pub mod Stream
