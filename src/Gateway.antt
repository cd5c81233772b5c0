-- ===== src/Gateway.antt =====
-- The Connection Gateway (server/gateway): client connections on one side, the streams to the Message
-- nodes on the other.
pub mod Frames
pub mod Link
pub mod Select
pub mod Manager
pub mod Lease
pub mod Registry
pub mod Session
