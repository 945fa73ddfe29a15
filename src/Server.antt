-- ===== src/Server.antt =====
-- src/server: commands, connections and the listener.
pub mod Handler
pub mod Connection
pub mod Listener
pub mod Cache
