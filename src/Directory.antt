-- ===== src/Directory.antt =====
-- directory/: the server's view of a user's files.
pub mod Resource
pub mod Dir
