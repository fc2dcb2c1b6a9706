-- ===== src/Tests/NameNodes.antt =====
-- A name node with the data nodes one and two, and a store of extents that keeps numbers of blocks.
use file_system_yfs.Base.{
  ◌+◌, ◌-◌, ◌*◌, ◌<◌, ◌≡◌, refl, true, false, ◌&&◌, leb, ◌==◌, if◌then◌else◌, none, some, [], ◌∷◌,
  ◌++◌, map, arith,
}
use file_system_yfs.Base.Text.{Text, length, drop}
use file_system_yfs.Disk.{block_size}
use file_system_yfs.Inodes.{t_dir, t_file, block_count}
use file_system_yfs.Extent.{Status}
use file_system_yfs.Client.Services.{is_ok}
use file_system_yfs.Client.Stores.{looked}
use file_system_yfs.Client.Directory.Listing.{format}
use file_system_yfs.NameNode.Ids.{DatanodeId}
use file_system_yfs.NameNode.State.{NameNode, set_pending}
use file_system_yfs.NameNode.State
use file_system_yfs.NameNode.Datanodes.{datanode_heartbeat, get_datanodes}
use file_system_yfs.NameNode.Datanodes.Alive.{
  contains, IsSorted, AllBehind, seconds, get_datanodes-datanode_heartbeat,
}
use file_system_yfs.NameNode.Paths.{
  slash, index_of, is_absolute, as_c_str, recursive_lookup, parent_of, name_of,
}
use file_system_yfs.NameNode.Paths.Walk.{components, look_all, recursive_lookup-look_all}
use file_system_yfs.NameNode.Blocks.{BlockServices, get_block_locations}
use file_system_yfs.NameNode.Blocks.Tiling.{AreTiles, CountsBlocks, get_block_locations-AreTiles}
use file_system_yfs.NameNode.OnExtent.{blocks_on_extent, on_extent-CountsBlocks}
use file_system_yfs.NameNode.Requests.{complete_write, pb_mkdirs}
use file_system_yfs.NameNode.Requests.Pending.{add_blocks, complete_write-add_blocks}
use file_system_yfs.NameNode.Requests.Parents.{pb_mkdirs-missing}
use file_system_yfs.Tests.NewDisk.{unassigned}
use file_system_yfs.Tests.Disks.{blank}
use file_system_yfs.Tests.Files.{clock, data_disk, data_disk-IsFile}
use file_system_yfs.Client.OnExtent.{Running, called}
use file_system_yfs.Tests.Stores.{Store, Stored, Room, store, store-Stores}
use file_system_yfs.Tests.Directories.{entries, entries-AreNamed, new_name, new_name-fresh}

abbrev one : DatanodeId
one = record { ipaddr = b'1' ∷ []; hostname = b'a' ∷ []; xferport = 50010 }

abbrev two : DatanodeId
two = record { ipaddr = b'1' ∷ []; hostname = b'b' ∷ []; xferport = 50010 }

-- Five seconds after the start, with one data node.
abbrev started : NameNode
started = record State.init { datanode = (one, 5) ∷ []; heartbeat_count = 5 }

started-IsSorted : IsSorted started.datanode
unfolding IsSorted AllBehind
started-IsSorted = (tt, tt)

get_datanodes-datanode_heartbeat_example :
    let nn' = seconds 2 (datanode_heartbeat started two) in
    (contains (get_datanodes nn') two ≡ (leb 3 (5 + 2) && leb 2 3)) × IsSorted nn'.datanode
get_datanodes-datanode_heartbeat_example =
    get_datanodes-datanode_heartbeat started two 2 started-IsSorted (omega arith)

-- The root directory has the entries of Tests/Directories.
abbrev start : Store
start = record {
  at = λ i.
      if i == 1
      then record { type = t_dir; text = format entries }
      else record { type = t_file; text = [] };
  held = λ l. 0;
}

start_dir : Stored start 1 t_dir (format entries)
start_dir = record { old = omega arith; same_type = refl; same_text = refl }

-- /b/n
abbrev path : Text
path = slash ∷ b'b' ∷ slash ∷ new_name

recursive_lookup-look_all_example :
    recursive_lookup store start path 0 0 false
    ≡ some (
        if is_absolute path
        then look_all store start 1 1 false (components [] (drop path 1))
        else (start, false, 0, 0))
recursive_lookup-look_all_example = recursive_lookup-look_all store start path 0 0 false

path_components : components [] (drop path 1) ≡ (b'b' ∷ []) ∷ new_name ∷ []
unfolding components drop file_system_yfs.NameNode.Paths.Walk.part_before
path_components = refl

new_name-length : 0 < length new_name
unfolding length
new_name-length = omega arith

no_slash : index_of new_name slash ≡ none
unfolding index_of
no_slash = refl

no_zero : as_c_str new_name ≡ new_name
unfolding as_c_str
no_zero = refl

pb_mkdirs-missing_example :
    pb_mkdirs store true (slash ∷ (new_name ++ (slash ∷ new_name))) start false
    ≡ (looked store Stored Room store-Stores 1 start, none)
pb_mkdirs-missing_example =
    pb_mkdirs-missing store Stored Room store-Stores start new_name entries true false new_name
      start_dir entries-AreNamed new_name-length no_slash no_zero new_name-fresh

-- A store of files whose blocks are numbered from 100 on; of extent 5 the two blocks are listed.
abbrev block_store : BlockServices Store
block_store = record {
  services = record store {
    getattr = λ s id.
        (s, Status.ok, record { type = t_file; atime = 0; mtime = 0; ctime = 0; size = 20000 });
  };
  get_block_ids = λ s id. (s, Status.ok, 100 ∷ 101 ∷ []);
  append_block = λ s id. (s, Status.ok, 102);
  complete = λ s id size. (s, Status.ok);
}

block_store-CountsBlocks : CountsBlocks block_store start 5
unfolding length block_count
block_store-CountsBlocks = (refl, omega arith)

get_block_locations-AreTiles_example :
    let (s'', blocks) = get_block_locations block_store started start 5 in
    AreTiles 0 blocks 20000 × (map (λ b. b.block_id) blocks ≡ 100 ∷ 101 ∷ [])
get_block_locations-AreTiles_example =
    get_block_locations-AreTiles block_store started start 5 block_store-CountsBlocks

-- The file of three bytes.
abbrev running : Running
running = record { im = data_disk; calls = 0 }

on_extent-CountsBlocks_example :
    let server = blocks_on_extent (λ k. blank) (λ k. clock) (λ t. 0) unassigned in
    ((server.get_block_ids (some running) 1).0 ≡ some (called running data_disk))
    × ((server.get_block_ids (some running) 1).1 ≡ Status.ok)
    × CountsBlocks server (some running) 1
on_extent-CountsBlocks_example =
    on_extent-CountsBlocks (λ k. blank) (λ k. clock) (λ t. 0) unassigned running 1
      data_disk-IsFile.formatted (omega arith) data_disk-IsFile.exists

-- A file that is begun.
abbrev begun : NameNode
begun = record started { pending_write = λ i. if i == 5 then some 0 else none }

complete_write-add_blocks_example :
    let (nn', s) = add_blocks block_store 5 2 begun start in
    let size = (2 - 1) * block_size + 10 in
    let (s', r) = block_store.complete s 5 size in
    let (nn'', s'', reply) = complete_write block_store nn' s 5 (some 10) in
    (reply ≡ (if is_ok r then some true else none))
    × (nn''.pending_write 5 ≡ (if is_ok r then none else some size))
    × (s'' ≡ (if is_ok r then block_store.services.release s' 5 else s'))
complete_write-add_blocks_example =
    complete_write-add_blocks block_store 5 2 10 begun start refl (omega arith) (omega arith)
      (omega arith)
