-- ===== src/Clients.antt =====
-- src/clients/src: the calls of the other nodes' services, with pools of connections and retries.
pub mod Pool
pub mod Calls
pub mod Retry
pub mod Placement
pub mod Manager
