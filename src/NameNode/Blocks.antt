-- ===== src/NameNode/Blocks.antt =====
-- The blocks of files, from yfs/namenode.cc: GetBlockLocations, AppendBlock and Complete.
pub mod Tiling
use file_system_yfs.Base.{
  ℕ, ◌+◌, ◌-◌, ◌%◌, ◌^◌, Bool, true, false, ltb, ◌==◌, if◌then◌else◌, List, [], ◌∷◌,
}
use file_system_yfs.Base.Text.{length}
use file_system_yfs.Disk.{block_size}
use file_system_yfs.Extent.{Status}
use file_system_yfs.Client.Services.{Services, is_ok}
use file_system_yfs.NameNode.Ids.{DatanodeId}
use file_system_yfs.NameNode.State.{NameNode}
use file_system_yfs.NameNode.Datanodes.{get_datanodes}

-- The extent client's calls for single blocks, besides those that yfs_client uses.
pub record BlockServices (S : Type 0) : Type 0 where
  pub services : Services S
  pub get_block_ids : S → ℕ → S × Status × List ℕ
  pub append_block : S → ℕ → S × Status × ℕ
  pub complete : S → ℕ → ℕ → S × Status

pub record LocatedBlock : Type 0 where
  pub block_id : ℕ
  pub offset : ℕ
  pub size : ℕ
  pub locs : List DatanodeId

-- GetBlockLocations' loop over the block numbers, of which there are `count`.
unfoldable pub locate : List DatanodeId → ℕ → ℕ → List ℕ → ℕ → ℕ → List LocatedBlock
locate locs count size [] block_index offset = []
locate locs count size (bid ∷ ids) block_index offset =
    record {
      block_id = bid;
      offset = offset;
      size = if ltb block_index (count - 1) then block_size else (size + 2 ^ 64 - offset) % 2 ^ 64;
      locs = locs;
    }
    ∷ locate locs count size ids (block_index + 1) ((offset + block_size) % 2 ^ 64)

-- std::set<blockid_t>::insert
unfoldable pub insert_block : List ℕ → ℕ → List ℕ
insert_block [] bid = bid ∷ []
insert_block (b ∷ bs) bid =
    if bid == b then b ∷ bs else if ltb bid b then bid ∷ b ∷ bs else b ∷ insert_block bs bid

module _ {S : Type 0} (bs : BlockServices S) where
  -- GetBlockLocations
  unfoldable pub get_block_locations : NameNode → S → ℕ → S × List LocatedBlock
  get_block_locations nn st ino =
      let (s, r, ids) = bs.get_block_ids st ino in
      let (s', r', a) = bs.services.getattr s ino in
      (s', locate (get_datanodes nn) (length ids) a.size ids 0 0)

  -- Complete, which keeps the lock when it fails.
  unfoldable pub complete : S → ℕ → ℕ → S × Bool
  complete st ino new_size =
      let (s, r) = bs.complete st ino new_size in
      if is_ok r then (bs.services.release s ino, true) else (s, false)

  -- AppendBlock
  unfoldable pub append_block : NameNode → S → ℕ → NameNode × S × LocatedBlock
  append_block nn st ino =
      let (s, r, a) = bs.services.getattr st ino in
      let (s', r', bid) = bs.append_block s ino in
      (
        record nn { hdfs_block = insert_block nn.hdfs_block bid },
        s',
        record {
          block_id = bid;
          offset = a.size;
          size = if a.size % block_size == 0 then block_size else a.size % block_size;
          locs = get_datanodes nn;
        },
      )
