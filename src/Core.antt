-- ===== src/Core.antt =====
-- The application's core package: settings, the functions of third-party packages that it calls,
-- the database, the units of work on it, and encryption.
pub mod Config
pub mod Db
pub mod UnitOfWork
pub mod Crypto
pub mod Counters
pub mod Keys
