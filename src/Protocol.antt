-- ===== src/Protocol.antt =====
-- src/protocol: the memcached text protocol.
pub mod Command
pub mod Parser
pub mod Response
