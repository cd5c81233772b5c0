-- ===== src/Examples.antt =====
-- Concrete runs that the theorems are applied to.
mod Wire
mod Connection
mod Gate
mod Store
mod Streams
mod Manager
mod Leases
mod Sessions
mod Services
