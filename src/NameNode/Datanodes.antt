-- ===== src/NameNode/Datanodes.antt =====
-- The data nodes that the name node of yfs/namenode.cc takes for alive: the counter of seconds, the
-- heartbeats, the registrations and the list.
pub mod Alive
use file_system_yfs.Base.{
  ℕ, ◌+◌, ◌-◌, ◌%◌, ◌^◌, Bool, true, false, ltb, leb, if◌then◌else◌, List, [], ◌∷◌, map,
}
use file_system_yfs.NameNode.Ids.{DatanodeId, before}
use file_system_yfs.NameNode.State.{NameNode}

-- std::map<DatanodeIDProto, int>, in its order: datanode[id] = v, and datanode.insert(make_pair(id, v)).
unfoldable pub put : List (DatanodeId × ℕ) → DatanodeId → ℕ → List (DatanodeId × ℕ)
put [] id v = (id, v) ∷ []
put ((k, w) ∷ m) id v =
    if before id k
    then (id, v) ∷ (k, w) ∷ m
    else if before k id
    then (k, w) ∷ put m id v
    else (k, v) ∷ m

unfoldable pub insert : List (DatanodeId × ℕ) → DatanodeId → ℕ → List (DatanodeId × ℕ)
insert [] id v = (id, v) ∷ []
insert ((k, w) ∷ m) id v =
    if before id k
    then (id, v) ∷ (k, w) ∷ m
    else if before k id
    then (k, w) ∷ insert m id v
    else (k, w) ∷ m

-- The counter as an int, and an int in a comparison with an unsigned long long.
abbrev pub as_int : ℕ → ℕ
as_int count = count % 2 ^ 32

abbrev pub widened : ℕ → ℕ
widened v = if ltb v (2 ^ 31) then v else v + (2 ^ 64 - 2 ^ 32)

-- A round of SendHeartbeat's loop.
unfoldable pub send_heartbeat : NameNode → NameNode
send_heartbeat nn = record nn { heartbeat_count = (nn.heartbeat_count + 1) % 2 ^ 64 }

-- DatanodeHeartbeat
unfoldable pub datanode_heartbeat : NameNode → DatanodeId → NameNode
datanode_heartbeat nn id = record nn { datanode = put nn.datanode id (as_int nn.heartbeat_count) }

-- RegisterDatanode, and the calls of ReplicateBlock, with the block, and the nodes from and to.
unfoldable pub register_datanode :
    NameNode → DatanodeId → NameNode × List (ℕ × DatanodeId × DatanodeId)
register_datanode nn id = (
  record nn { datanode = insert nn.datanode id (as_int nn.heartbeat_count) },
  if ltb 5 nn.heartbeat_count then map (λ bid. (bid, nn.master_datanode, id)) nn.hdfs_block else [],
)

-- The test of GetDatanodes' loop.
unfoldable pub is_alive : ℕ → ℕ → Bool
is_alive heartbeat_count second = leb ((heartbeat_count + (2 ^ 64 - 3)) % 2 ^ 64) (widened second)

unfoldable pub alive : ℕ → List (DatanodeId × ℕ) → List DatanodeId
alive heartbeat_count [] = []
alive heartbeat_count ((id, second) ∷ m) =
    if is_alive heartbeat_count second
    then id ∷ alive heartbeat_count m
    else alive heartbeat_count m

-- GetDatanodes
unfoldable pub get_datanodes : NameNode → List DatanodeId
get_datanodes nn = alive nn.heartbeat_count nn.datanode
