-- ===== src/NameNode/State.antt =====
-- What class NameNode of yfs/namenode.h keeps, besides its clients of the extent and lock servers.
use file_system_yfs.Base.{ℕ, Option, none, ◌==◌, if◌then◌else◌, List, []}
use file_system_yfs.NameNode.Ids.{DatanodeId}

-- `pending_write` answers none for a key that the map has not; the values of `datanode` are an int's bits.
pub record NameNode : Type 0 where
  pub master_datanode : DatanodeId
  pub pending_write : ℕ → Option ℕ
  pub hdfs_block : List ℕ
  pub datanode : List (DatanodeId × ℕ)
  pub heartbeat_count : ℕ

-- init, where the master is a message with no field set.
abbrev pub init : NameNode
init = record {
  master_datanode = record { ipaddr = []; hostname = []; xferport = 0 };
  pending_write = λ ino. none;
  hdfs_block = [];
  datanode = [];
  heartbeat_count = 0;
}

-- pendingWrite[ino] = size, and pendingWrite.erase(ino).
unfoldable pub set_pending : NameNode → ℕ → Option ℕ → NameNode
set_pending nn ino size = record nn {
  pending_write = λ i. if i == ino then size else nn.pending_write i;
}
