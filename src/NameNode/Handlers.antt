-- ===== src/NameNode/Handlers.antt =====
-- The requests that name their files by paths, from yfs/namenode_base.cc, without the messages that carry
-- them. A thrown HdfsException is `none`; `depth` is that of RecursiveDelete.
use mathlib.Core.Option
use file_system_yfs.Base.{
  ℕ, ◌*◌, Bool, true, false, if◌then◌else◌, Option, none, some, List, [], ◌∷◌,
}
use file_system_yfs.Base.Text.{Text}
use file_system_yfs.Client.Services.{Services}
use file_system_yfs.Client.Files.{FileInfo, DirInfo}
use file_system_yfs.Client.Files
use file_system_yfs.NameNode.Ids.{DatanodeId}
use file_system_yfs.NameNode.State.{NameNode}
use file_system_yfs.NameNode.Datanodes.{register_datanode, get_datanodes}
use file_system_yfs.NameNode.Blocks.{BlockServices, LocatedBlock, get_block_locations}
use file_system_yfs.NameNode.Paths.{is_ok, recursive_lookup, parent_of, name_of}
use file_system_yfs.NameNode.Files.{
  isfile, isdir, getfile, getdir, readdir, unlink, recursive_delete, dual_lock, dual_unlock,
}
use file_system_yfs.NameNode.Rename.{rename}
use file_system_yfs.NameNode.Requests.{add_block, complete_write}

-- Of HdfsFileStatusProto the fields that PBGetFileInfoFromInum computes; path is set by PBGetListing.
pub record FileStatus : Type 0 where
  pub is_dir : Bool
  pub path : Text
  pub length : ℕ
  pub perm : ℕ
  pub modification_time : ℕ
  pub access_time : ℕ

abbrev pub no_file : FileInfo
no_file = record { size = 0; atime = 0; mtime = 0; ctime = 0 }

abbrev pub no_dir : DirInfo
no_dir = record { atime = 0; mtime = 0; ctime = 0 }

module _ {S : Type 0} (sv : Services S) where
  -- RecursiveLookup, which has lookups enough.
  unfoldable pub resolve : S → Text → S × Bool × ℕ × ℕ
  resolve st path = Option.get_or (recursive_lookup sv st path 0 0 false) (st, false, 0, 0)

  -- PBGetFileInfoFromInum; `none` is the result false.
  unfoldable pub pb_get_file_info_from_inum : S → ℕ → S × Option FileStatus
  pb_get_file_info_from_inum st ino =
      let (s, is_file) = isfile sv st ino in
      let (s1, ok, info) = getfile sv s ino no_file in
      let (s2, is_dir) = isdir sv s ino in
      let (s3, ok', info') = getdir sv s2 ino no_dir in
      if is_file
      then (
        s1,
        if ok
            then some (record {
              is_dir = false;
              path = [];
              length = info.size;
              perm = 438;
              modification_time = info.mtime * 1000;
              access_time = info.atime * 1000;
            })
            else none,
      )
      else if is_dir
      then (
        s3,
        if ok'
            then some (record {
              is_dir = true;
              path = [];
              length = 0;
              perm = 511;
              modification_time = info'.mtime * 1000;
              access_time = info'.atime * 1000;
            })
            else none,
      )
      else (s2, none)

  -- PBGetFileInfo; `none` is an answer without a status.
  unfoldable pub pb_get_file_info : S → Text → S × Option FileStatus
  pb_get_file_info st src =
      let (s, ok, ino, last) = resolve st src in
      if ok then pb_get_file_info_from_inum s ino else (s, none)

  -- PBRename
  unfoldable pub pb_rename : S → Text → Text → Option (S × Bool)
  pb_rename st src dst =
      let (s, ok, src_dir_ino, last) = resolve st (parent_of src) in
      let (s', ok', dst_dir_ino, last') = resolve s (parent_of dst) in
      if ok
      then (if ok'
          then rename sv s' src_dir_ino (name_of src) dst_dir_ino (name_of dst)
          else some (s', false))
      else some (s, false)

  -- PBDelete behind RecursiveDelete: the checks of a directory, and the unlink.
  unfoldable pub delete_at : S → ℕ → ℕ → Text → Option (S × Bool)
  delete_at st ino parent name =
      let (s, is_dir) = isdir sv st ino in
      let (s', r, dir) = readdir sv s ino in
      let after = if is_dir then s' else s in
      let refused =
        if is_dir
        then (if r then (elim dir [ [] ↦ false | ◌∷◌ e es ↦ true ]) else true)
        else false in
      if refused
      then some (dual_unlock sv after ino parent, false)
      else Option.map (λ (p : S × Bool). (dual_unlock sv p.0 ino parent, p.1))
          (unlink sv after parent name)

  -- PBDelete
  unfoldable pub pb_delete : ℕ → S → Text → Bool → Option (S × Bool)
  pb_delete depth st src recursive =
      let (s, ok, ino, parent) = resolve st src in
      let locked = dual_lock sv s ino parent in
      if ok
      then (if recursive
          then (elim (recursive_delete sv depth locked ino) [
            | none ↦ none
            | some p ↦ elim p.1 [
              | true ↦ delete_at p.0 ino parent (name_of src)
              | false ↦ some (dual_unlock sv p.0 ino parent, false)
            ]
          ])
          else delete_at locked ino parent (name_of src))
      else some (s, false)

module _ {S : Type 0} (bs : BlockServices S) where
  -- PBAddBlock; the outer `none` is an exception, the inner one an answer without a block.
  unfoldable pub pb_add_block : NameNode → S → Text → NameNode × S × Option (Option LocatedBlock)
  pb_add_block nn st src =
      let (s, ok, ino, last) = resolve bs.services st src in
      let (nn', s', block) = add_block bs nn s ino in
      if ok then (nn', s', Option.map (λ b. some b) block) else (nn, s, some none)

  -- PBComplete
  unfoldable pub pb_complete : NameNode → S → Text → Option ℕ → NameNode × S × Option Bool
  pb_complete nn st src last_block =
      let (s, ok, ino, last) = resolve bs.services st src in
      if ok then complete_write bs nn s ino last_block else (nn, s, some false)

  -- PBGetBlockLocations: the file's length and its blocks; `none` is an answer without locations.
  unfoldable pub pb_get_block_locations : NameNode → S → Text → S × Option (ℕ × List LocatedBlock)
  pb_get_block_locations nn st src =
      let (s, ok, ino, last) = resolve bs.services st src in
      let (s1, is_file) = Files.isfile bs.services s ino in
      let (s2, r, info) = Files.getfile bs.services s1 ino no_file in
      let (s3, blocks) = get_block_locations bs nn s2 ino in
      if ok
      then (if is_file
          then (if is_ok r then (s3, some (info.size, blocks)) else (s2, none))
          else (s1, none))
      else (s, none)

-- PBRegisterDatanode, with the thread that it starts; `master` is the request's flag.
unfoldable pub pb_register_datanode :
    NameNode → Bool → DatanodeId → NameNode × List (ℕ × DatanodeId × DatanodeId)
pb_register_datanode nn master id =
    register_datanode (if master then record nn { master_datanode = id } else nn) id

-- DatanodeReportTypeProto, and PBGetDatanodeReport.
pub data ReportType : Type 0 where
  all live dead decommissioning : ReportType

unfoldable pub pb_get_datanode_report : NameNode → ReportType → List DatanodeId
pb_get_datanode_report nn all = get_datanodes nn
pb_get_datanode_report nn live = get_datanodes nn
pb_get_datanode_report nn dead = []
pb_get_datanode_report nn decommissioning = []
