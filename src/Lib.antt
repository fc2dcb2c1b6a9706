-- ===== src/Lib.antt =====
-- The yfs file system (yfs/ in the repository): a block device in memory, a block bitmap and an inode
-- table over it, the extent server that clients call, the file system client that keeps directories as
-- text in extents, the two lock servers and the caching lock client, and the name node and data node of
-- HDFS on top. The client calls the extent server, and that the inode layer; each layer keeps its state in
-- the one below. The name node uses the client, the extent server and the lock client.
--
-- The parts, and the files that model them:
-- - Disk: class disk and the layout macros of yfs/inode_manager.h. A block is its bytes by offset, and
--   the disk its blocks by number; requests for a block that does not exist are dropped.
-- - Blocks: class block_manager (alloc_block, free_block). Blocks/Bitmap has the bit operations on
--   bytes, Blocks/Alloc the first fit, Blocks/Free the count of free blocks.
-- - Inodes: class inode_manager of yfs/inode_manager.cc. Inodes.antt has struct inode, get_inode,
--   put_inode, alloc_inode, free_inode, getattr; Inodes/Loops the loops over block ids; Inodes/Read
--   read_file; Inodes/Write the eight cases of write_file; Inodes/Blocklist remove_file, append_block,
--   get_block_ids and complete. The other files under Inodes prove what these do.
-- - Extent: class extent_server of yfs/extent_server.cc, every operation.
-- - Client: class yfs_client of yfs/yfs_client.cc. Client/Services is the interface of what `ec` and
--   `lc` offer; Client/Number has filename and n2i; Client/Directory the loops of nlock_readdir and
--   nlock_lookup and the edits of a directory's text; Client/Content the string work of read and write;
--   Client/Files and Client/Names the operations. Client/Stores states what the theorems on contents ask
--   of the services, Client/Locks what those on locks ask; Client/OnExtent fills the interface with the
--   extent server, as yfs/extent_client.cc does over RPC, and Client/Root starts on a new disk.
-- - Locking: class lock_server of yfs/lock_server.cc, with its waiting threads and a step relation for the
--   interleavings of calls, signals and wake-ups.
-- - Caching: class lock_server_cache of yfs/lock_server_cache.cc, whose calls of the clients are messages.
-- - LockClient: class lock_client_cache of yfs/lock_client_cache.cc, for one lock. LockClient/System puts
--   the clients together with the caching lock server: a step relation for the interleavings of threads,
--   of the calls of the server and of the server's calls, which may overtake one another. The other files
--   under LockClient are its invariants.
-- - Handles: struct hinfo, class handle_mgr and class handle of yfs/handle.cc, with the handles as users of
--   the structs: a step relation for what handles do. safebind holds another mutex than the manager; it
--   is one step, before a delete_handle that comes while it binds.
-- - DataNode: ReadBlock and WriteBlock of class DataNode in yfs/datanode.cc. DataNode/Packets is the
--   packets of _ReadBlock and _WriteBlock in yfs/datanode_base.cc, whose streams are lists of packets
--   with a test for an error in what was written.
-- - NameNode: class NameNode of yfs/namenode.cc and yfs/namenode_base.cc. NameNode/State is what it keeps,
--   NameNode/Ids the order of data nodes, NameNode/Datanodes the heartbeats, NameNode/Blocks the block
--   locations, NameNode/Paths RecursiveLookup and the names in paths, NameNode/Rename Rename's edit of a
--   directory's text, NameNode/Files the other operations, NameNode/Requests, NameNode/Handlers and
--   NameNode/Listing the requests of HDFS clients; NameNode/OnExtent fills the calls for single blocks
--   with the extent server.
-- - Base: shared names; Base/Memory is memory as a char * sees it, with 32-bit words in it; Base/Text is
--   std::string, and Base/Slices parts of strings.
-- - Tests: runs and instances at concrete inputs; Tests/Stores is an instance of the client's services.
--
-- How the code is read. A buffer is a function from offsets to cells, whose byte is the cell's value
-- modulo 256, so memcpy and the casts to uint32_t * and struct inode * are written out, and a read
-- behind a C string gives whatever lies there. What malloc and uninitialised arrays hold is the
-- argument `junk`, and what the variable of n2i holds before it is assigned, and keeps when a number is
-- blank, is the argument or field `finum`. The k-th call of time(NULL) in one operation answers `now k`. Numbers are natural
-- numbers with the wrap to 16, 32 or 64 bits written out. The padding of struct inode is copied as zero. A
-- fault, such as the use of a NULL inode, is `none`, and so is an exception of std::string; an extent
-- server that either has stopped answers no further call. Strings are
-- the lists of their bytes, and shorter than 2^31; names that come as C strings have no zero byte.
-- Reference arguments are results. Output to the console and the release of memory are left out.
--
-- Bounds. The layout of the disk is that of the header file: 2048 blocks of 16384 bytes, 1024 inodes,
-- one bitmap block. All loops run on the number of rounds that the code's own bounds give, or along the
-- text that they read; the fuel is the 20 digits of an unsigned long long, a round for each
-- byte of a path and one more, and a round for each byte of a block that is sent, since every round
-- passes a byte, and for RecursiveDelete the depth of the
-- directories, which the code does not bound. For a lock, mutual exclusion and the success of checks are
-- shown under the discipline that only callers that hold it release it; spurious wake-ups of a client's
-- threads are steps, since every wake-up tests the state again.
--
-- Not modelled: the messages that carry the name node's and data node's requests, which are generated
-- protobuf code, with ReplicateBlock and the RPC loop of yfs/namenode_base.cc and, of
-- yfs/datanode_base.cc, all but the packets: the connections, mirrors and acknowledgements; the RPC
-- library under yfs/rpc and the stubs that forward to it; the FUSE binding; and the test programs.
pub mod Base
pub mod Blocks
pub mod Caching
pub mod Client
pub mod DataNode
pub mod Disk
pub mod Extent
pub mod Handles
pub mod Inodes
pub mod LockClient
pub mod Locking
pub mod NameNode
pub mod Tests
