-- ===== src/Utilities.antt =====
-- utilities/: signatures, digests, the password file and the log.
pub mod Tools
pub mod Logger
