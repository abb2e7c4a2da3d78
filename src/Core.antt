-- ===== src/Core.antt =====
-- core/: the session of a user, the open streams, and the handling of requests.
pub mod User
pub mod OpenStreams
pub mod Exec
pub mod RequestHandler
pub mod Connection
pub mod Server
