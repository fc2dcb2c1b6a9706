-- ===== src/NameNode/Requests/Pending.antt =====
-- The size that a file gets when its blocks are added one by one and the last one is cut.
use file_system_yfs.Base.{
  ℕ, zero, suc, ◌+◌, ◌-◌, ◌*◌, ◌%◌, ◌^◌, ◌≤◌, ◌<◌, ◌≡◌, refl, ap, ◌∙◌, true, if◌then◌else◌, none,
  some, ==_self, inl, inr, Bool-cases, arith,
}
use file_system_yfs.Disk.{block_size}
use file_system_yfs.Client.Services.{is_ok}
use file_system_yfs.NameNode.State.{NameNode, set_pending}
use file_system_yfs.NameNode.Blocks
use file_system_yfs.NameNode.Blocks.{BlockServices}
use file_system_yfs.NameNode.Requests.{add_block, new_size, complete_write}

module _ {S : Type 0} (bs : BlockServices S) (ino : ℕ) where
  -- `k` requests for a new block.
  unfoldable pub add_blocks : ℕ → NameNode → S → NameNode × S
  add_blocks zero nn st = (nn, st)
  add_blocks (suc k) nn st =
      let (nn', s) = add_blocks k nn st in
      let (nn'', s', block) = add_block bs nn' s ino in (nn'', s')

  add_block-pending :
      (nn : NameNode) (st : S) (size : ℕ)
      → nn.pending_write ino ≡ some size
      → (add_block bs nn st ino).0.pending_write ino ≡ some ((size + block_size) % 2 ^ 32)
  unfolding add_block set_pending Blocks.append_block
  add_block-pending nn st size pending = rw (add_block, pending, ==_self ino) refl

  add_blocks-pending :
      (k : ℕ) (nn : NameNode) (st : S)
      → nn.pending_write ino ≡ some 0
      → k * block_size < 2 ^ 32
      → (add_blocks k nn st).0.pending_write ino ≡ some (k * block_size)
  unfolding add_blocks
  add_blocks-pending zero nn st pending small = pending ∙ ap some (omega arith)
  add_blocks-pending (suc k) nn st pending small =
      let before = add_blocks-pending k nn st pending (omega arith) in
      let (nn', s) = add_blocks k nn st in
      add_block-pending nn' s (k * block_size) before ∙ ap some (omega arith)

  new_size_lem :
      (k n : ℕ)
      → 0 < k
      → k * block_size < 2 ^ 32
      → n ≤ block_size
      → new_size bs (k * block_size) (some n) ≡ (k - 1) * block_size + n
  unfolding new_size
  new_size_lem k n some_left small fits = omega arith

  -- A file that is begun with no block, and then gets k blocks, below 4 GB, of which the last one
  -- has n bytes: the request to complete it asks the extent server for the size of all blocks but
  -- the last and n bytes. When that succeeds, the write is no longer pending and the file's lock
  -- is given back; when it fails, an exception is thrown, the lock is kept, and the write is
  -- pending with this smaller size.
  pub complete_write-add_blocks :
      (k n : ℕ) (nn : NameNode) (st : S)
      → nn.pending_write ino ≡ some 0
      → 0 < k
      → k * block_size < 2 ^ 32
      → n ≤ block_size
      → let (nn', s) = add_blocks k nn st in
        let size = (k - 1) * block_size + n in
        let (s', r) = bs.complete s ino size in
        let (nn'', s'', reply) = complete_write bs nn' s ino (some n) in
        (reply ≡ (if is_ok r then some true else none))
        × (nn''.pending_write ino ≡ (if is_ok r then none else some size))
        × (s'' ≡ (if is_ok r then bs.services.release s' ino else s'))
  unfolding complete_write set_pending Blocks.complete
  complete_write-add_blocks k n nn st pending some_left small fits =
      let size = (k - 1) * block_size + n in
      let at = add_blocks-pending k nn st pending small in
      let same = new_size_lem k n some_left small fits in
      let s = (add_blocks k nn st).1 in
      elim (Bool-cases (is_ok (bs.complete s ino size).1)) [
        | inl e ↦ rw (complete_write, at, same, e, ==_self ino) (refl, refl, refl)
        | inr e ↦ rw (complete_write, at, same, e, ==_self ino) (refl, refl, refl)
      ]
