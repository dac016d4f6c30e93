-- ===== src/Server.antt =====
-- savate/server.py: the reading of a request and what the server does with it.
pub mod Request
pub mod Routing
pub mod Registry
pub mod Census
pub mod Lifecycle
pub mod Accepting
mod Examples
