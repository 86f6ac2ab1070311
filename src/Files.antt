-- ===== src/Files.antt =====
-- internal/files: what the program keeps on disk, and the locks on it.
pub mod LockTable
pub mod Storage
pub mod Dto
pub mod Sessions
pub mod Agents
