-- ===== src/Server.antt =====
-- The server, client/src/server/server.cpp.
pub mod Paths
pub mod Confined
pub mod State
pub mod Clients
pub mod Dispatch
pub mod ReadOnly
