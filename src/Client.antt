-- ===== src/Client.antt =====
-- The file system client of yfs/yfs_client.cc.
pub mod Number
pub mod Directory
pub mod Services
pub mod Content
pub mod Files
pub mod Names
pub mod Stores
pub mod Created
pub mod Locks
pub mod WriteRead
pub mod OnExtent
pub mod Root
