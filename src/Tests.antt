-- ===== src/Tests.antt =====
-- Runs of the model at concrete inputs, and the theorems at inputs that meet their hypotheses.
pub mod Handles
pub mod Disks
pub mod Files
pub mod Stored
pub mod Extents
pub mod Stores
pub mod Directories
pub mod Clients
pub mod LockClients
pub mod Locks
pub mod NewDisk
pub mod Caching
pub mod DataNodes
pub mod NameNodes
pub mod Renames
