-- ===== src/NameNode/OnExtent.antt =====
-- The extent server as the name node's services, through yfs/extent_client.cc.
use file_system_yfs.Base.{ℕ, ◌+◌, ◌<◌, ◌≡◌, ◌≢◌, refl, none, some, []}
use file_system_yfs.Base.Text.{Text}
use file_system_yfs.Base.Memory.{Buf}
use file_system_yfs.Blocks.{IsFormatted}
use file_system_yfs.Disk.{inode_num}
use file_system_yfs.Inodes.{Clock}
use file_system_yfs.Inodes.Struct.{inode_at}
use file_system_yfs.Inodes.Blocklist.Count.{get_block_ids-count, get_block_ids-found}
use file_system_yfs.Extent
use file_system_yfs.Extent.{Status, masked}
use file_system_yfs.Client.OnExtent.{Running, Served, Unassigned, called, on_extent}
use file_system_yfs.NameNode.Blocks.{BlockServices}
use file_system_yfs.NameNode.Blocks.Tiling.{CountsBlocks}

module _ (junk : ℕ → Buf) (now : ℕ → Clock) (finum : Text → ℕ) (left : Unassigned) where
  abbrev pub blocks_on_extent : BlockServices Served
  blocks_on_extent = record {
    services = on_extent junk now finum left;
    get_block_ids = λ st id. elim st [
      | none ↦ (none, Status.rpcerr, [])
      | some s ↦ elim (Extent.get_block_ids (junk s.calls) (now s.calls) s.im id) [
        | none ↦ (none, Status.rpcerr, [])
        | some p ↦ (some (called s s.im), p.0, p.1)
      ]
    ];
    append_block = λ st id. elim st [
      | none ↦ (none, Status.rpcerr, left.id)
      | some s ↦
          let (im', r, bid) = Extent.append_block (junk s.calls) (now s.calls) s.im id 0 in
          (some (called s im'), r, bid)
    ];
    complete = λ st id size. elim st [
      | none ↦ (none, Status.rpcerr)
      | some s ↦ elim (Extent.complete (junk s.calls) (now s.calls) s.im id size) [
        | none ↦ (none, Status.rpcerr)
        | some p ↦ (some (called s p.0), p.1)
      ]
    ];
  }

  -- For an inode that exists on a formatted disk the running extent server answers, and goes on
  -- running, as many block numbers as the file's size takes.
  pub on_extent-CountsBlocks :
      (s : Running) (id : ℕ)
      → IsFormatted s.im
      → masked id < inode_num
      → (inode_at s.im (masked id)).type ≢ 0
      → ((blocks_on_extent.get_block_ids (some s) id).0 ≡ some (called s s.im))
        × ((blocks_on_extent.get_block_ids (some s) id).1 ≡ Status.ok)
        × CountsBlocks blocks_on_extent (some s) id
  unfolding Extent.get_block_ids Extent.getattr
  on_extent-CountsBlocks s id f in_table exists =
      let count = get_block_ids-count (junk s.calls) (junk (s.calls + 1)) s.im (masked id) f in
      let (ids, found) = get_block_ids-found (junk s.calls) s.im (masked id) f in_table exists in
      rw (blocks_on_extent, found) (refl, refl, rw found at count)
