-- ===== src/Logger.antt =====
-- src/logger: the logger's back end.
pub mod AsyncLogging
pub mod LogFile
