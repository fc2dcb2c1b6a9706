-- ===== src/NameNode.antt =====
-- The name node of yfs/namenode.cc and yfs/namenode_base.cc.
pub mod Ids
pub mod State
pub mod Datanodes
pub mod Paths
pub mod Blocks
pub mod OnExtent
pub mod Rename
pub mod Files
pub mod Requests
pub mod Handlers
pub mod Listing
