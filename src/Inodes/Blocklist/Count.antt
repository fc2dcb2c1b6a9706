-- ===== src/Inodes/Blocklist/Count.antt =====
-- inode_manager::get_block_ids lists as many blocks as the size that getattr answers takes.
use mathlib.Core.Option
use file_system_yfs.Base.{
  ℕ, zero, suc, ◌+◌, ◌-◌, ◌<◌, ◌^◌, ◌≡◌, ◌≢◌, refl, List, some, ap, sym, ◌∙◌, leb, if◌then◌else◌,
  none, [], ◌++◌, inl, inr, Bool-cases, arith,
}
use file_system_yfs.Base.Memory.{Buf, load_word-lt}
use file_system_yfs.Base.Text.{length, length-append}
use file_system_yfs.Disk.{ndirect, inode_num}
use file_system_yfs.Blocks.{IsFormatted}
use file_system_yfs.Inodes.{InodeManager, block_count, get_inode, getattr, load_inode}
use file_system_yfs.Inodes.Struct.{inode_at, get_inode-cases}
use file_system_yfs.Inodes.Loops.{list_ids}
use file_system_yfs.Inodes.Blocklist.{get_block_ids}

length-list_ids : (n i : ℕ) (ids : ℕ → ℕ) → length (list_ids n i ids) ≡ n
unfolding length list_ids
length-list_ids zero i ids = refl
length-list_ids (suc n) i ids = ap suc (length-list_ids n (i + 1) ids)

length-all_ids :
    (count : ℕ) (direct indirect : ℕ → ℕ)
    → length (
        if leb count ndirect
        then list_ids count 0 direct
        else list_ids ndirect 0 direct ++ list_ids (count - ndirect) 0 indirect)
      ≡ count
length-all_ids count direct indirect = elim (Bool-cases (leb count ndirect)) [
  | inl e ↦ rw e (length-list_ids count 0 direct)
  | inr e ↦ rw e (
      ground (
        arith,
        length-append (list_ids ndirect 0 direct) (list_ids (count - ndirect) 0 indirect),
        length-list_ids ndirect 0 direct,
        length-list_ids (count - ndirect) 0 indirect,
      ))
]

-- On a formatted disk there is a block number for each block of the size that getattr answers, which is a
-- 32-bit number; both are empty when there is no inode.
pub get_block_ids-count :
    (junk junk' : Buf) (im : InodeManager) (inum : ℕ)
    → IsFormatted im
    → let size = (getattr junk' im inum).size in
      (length (Option.get_or (get_block_ids junk im inum) []) ≡ block_count size) × (size < 2 ^ 32)
unfolding get_block_ids getattr
get_block_ids-count junk junk' im inum f = elim (Bool-cases (leb inode_num inum)) [
  | inl e ↦
      let none_here : (b : Buf) → get_inode b im inum ≡ none = λ b. unfold get_inode in rw e refl in
      rw (getattr, none_here junk, none_here junk')
        (unfold length in (unfold block_count in refl, omega arith))
  | inr e ↦ elim (get_inode-cases junk im inum f (ground arith)) [
    | inl (no_inode, free) ↦ elim (get_inode-cases junk' im inum f (ground arith)) [
      | inl (no_inode', free') ↦
          rw (getattr, no_inode, no_inode')
            (unfold length in (unfold block_count in refl, omega arith))
      | inr (ino, found, same, used) ↦ absurd (used free)
    ]
    | inr (ino, found, same, used) ↦ elim (get_inode-cases junk' im inum f (ground arith)) [
      | inl (no_inode', free') ↦ absurd (used free')
      | inr (ino', found', same', used') ↦
          let sizes : ino.size ≡ ino'.size = same.size ∙ sym same'.size in
          let small : ino'.size < 2 ^ 32 = rw same'.size (unfold load_inode in load_word-lt _ 1) in
          rw (getattr, found, found') (rw sizes (length-all_ids (block_count ino'.size) _ _), small)
    ]
  ]
]

-- An inode that exists is listed without a fault.
pub get_block_ids-found :
    (junk : Buf) (im : InodeManager) (inum : ℕ)
    → IsFormatted im
    → inum < inode_num
    → (inode_at im inum).type ≢ 0
    → (ids : List ℕ) × (get_block_ids junk im inum ≡ some ids)
unfolding get_block_ids
get_block_ids-found junk im inum f in_table exists =
    elim (get_inode-cases junk im inum f in_table) [
      | inl (no_inode, free) ↦ absurd (exists free)
      | inr (ino, found, same, used) ↦
          (Option.get_or (get_block_ids junk im inum) [], rw (get_block_ids, found) refl)
    ]
