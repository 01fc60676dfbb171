-- ===== src/Server.antt =====
-- internal/mcpserver: which tools are registered, and the HTTP layer around the protocol's handler.
pub mod ReadCalls
pub mod ToolCalls
pub mod Register
pub mod Http
pub mod Oauth
