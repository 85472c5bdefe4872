-- ===== src/Server.antt =====
-- The handlers of server/protocol: what a node answers to a join.
pub mod HostPort
pub mod Join
