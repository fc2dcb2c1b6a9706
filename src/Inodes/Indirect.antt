-- ===== src/Inodes/Indirect.antt =====
-- Files of more than NDIRECT blocks: the loop that writes the indirect blocks zeroes direct blocks.
use file_system_yfs.Base.{
  ℕ, zero, suc, ◌+◌, ◌-◌, ◌*◌, ◌≤◌, ◌<◌, ◌≡◌, ◌≢◌, refl, sym, ap, ◌∙◌, inl, inr, arith, ◌==◌,
  Bool-cases, le→ltb,
}
use file_system_yfs.Base.Memory.{Buf, load_word}
use file_system_yfs.Disk.{block_num, block_size, ndirect, inode_num, maxfile}
use file_system_yfs.Blocks.{BlockManager, read_block, write_block, IsFormatted}
use file_system_yfs.Blocks.Cells.{
  load_word-read_block, write_block_in, write_block_other, write_block-sb,
}
use file_system_yfs.Inodes.{InodeManager, Inode, Clock, block_count}
use file_system_yfs.Inodes.Loops.{Ids, zeros, write_blocks, write_indirect}
use file_system_yfs.Inodes.Loops.Copy.{Avoids, write_blocks-sb}
use file_system_yfs.Inodes.Loops.Allocate.{IsFormatted-same}
use file_system_yfs.Inodes.Write.{finish, write_all, keep_indirect, write_cases, write_file}
use file_system_yfs.Inodes.Struct.{inode_at, get_inode-cases, put_inode_other}

abbrev IsZero : BlockManager → ℕ → Type 0
IsZero bm b = (c : ℕ) → c < block_size → bm.d b c ≡ 0

IsZero-write :
    (bm : BlockManager) (id b : ℕ) (buf : Buf)
    → b ≢ id
    → IsZero bm b
    → IsZero (write_block bm id buf) b
IsZero-write bm id b buf ne z c h = ap (λ d. d c) (write_block_other bm id b buf ne) ∙ z c h

IsZero-zeros : (bm : BlockManager) (b : ℕ) → b < block_num → IsZero (write_block bm b zeros) b
IsZero-zeros bm b h c lt = write_block_in bm b zeros c h lt

-- A zeroed block that no indirect id names stays zeroed through the loop.
write_indirect_keeps :
    (n i : ℕ) (bm : BlockManager) (blocks ids : Ids) (buf : Buf) (off b : ℕ)
    → b < block_num
    → Avoids b ids i (i + n)
    → IsZero bm b
    → IsZero (write_indirect n i bm blocks ids buf off) b
unfolding write_indirect
write_indirect_keeps zero i bm blocks ids buf off b h a z = z
write_indirect_keeps (suc n) i bm blocks ids buf off b h a z =
    write_indirect_keeps n (i + 1) _ blocks ids buf (off + block_size) b h
      (λ j l r. a j (omega arith) (omega arith))
      (IsZero-write _ (ids i) b _ (a i (omega arith) (omega arith))
        (elim (Bool-cases (b == blocks i)) [
          | inl e ↦
              let p : b ≡ blocks i = ground arith in rw p (IsZero-zeros bm (blocks i) (omega arith))
          | inr e ↦ IsZero-write bm (blocks i) b zeros (ground arith) z
        ]))

-- Round `j` of the loop zeroes the direct block blocks[j].
write_indirect_zeroes :
    (n i : ℕ) (bm : BlockManager) (blocks ids : Ids) (buf : Buf) (off j : ℕ)
    → i ≤ j
    → j < i + n
    → blocks j < block_num
    → Avoids (blocks j) ids i (i + n)
    → IsZero (write_indirect n i bm blocks ids buf off) (blocks j)
unfolding write_indirect
write_indirect_zeroes zero i bm blocks ids buf off j l r h a = absurd (omega arith)
write_indirect_zeroes (suc n) i bm blocks ids buf off j l r h a = elim (Bool-cases (i == j)) [
  | inl e ↦
      let p : j ≡ i = ground arith in
      write_indirect_keeps n (i + 1) _ blocks ids buf (off + block_size) (blocks j) h
        (λ k lk rk. a k (omega arith) (omega arith))
        (IsZero-write _ (ids i) (blocks j) _ (a i (omega arith) (omega arith))
          (rw p (IsZero-zeros bm (blocks i) (rw (← p) h))))
  | inr e ↦
      write_indirect_zeroes n (i + 1) _ blocks ids buf (off + block_size) j (ground arith)
        (omega arith) h (λ k lk rk. a k (omega arith) (omega arith))
]

write_indirect-sb :
    (n i : ℕ) (bm : BlockManager) (blocks ids : Ids) (buf : Buf) (off : ℕ)
    → (write_indirect n i bm blocks ids buf off).sb ≡ bm.sb
unfolding write_indirect
write_indirect-sb zero i bm blocks ids buf off = refl
write_indirect-sb (suc n) i bm blocks ids buf off =
    write_indirect-sb n (i + 1) _ blocks ids buf (off + block_size)
    ∙ write_block-sb (write_block bm (blocks i) zeros) (ids i) _
    ∙ write_block-sb bm (blocks i) zeros

module _ (junk : Buf) (now : Clock) (inum : ℕ) (buf : Buf) (size : ℕ) (lt : inum < inode_num) where
  write_all_zeroes :
      (im : InodeManager) (ino : Inode) (ids : Buf) (need j : ℕ)
      → IsFormatted im
      → j < need - ndirect
      → ino.blocks j < block_num
      → ino.blocks j ≢ ino.blocks ndirect
      → ino.blocks j ≢ inum + 3
      → Avoids (ino.blocks j) (load_word ids) 0 (need - ndirect)
      → IsZero (write_all junk now inum buf size im ino ids need) (ino.blocks j)
  unfolding write_all finish
  write_all_zeroes im ino ids need j f l h table own a c hc =
      let im1 = write_blocks ndirect 0 im ino.blocks buf 0 in
      let n = need - ndirect in
      let im2 = write_indirect n 0 im1 ino.blocks (load_word ids) buf (ndirect * block_size) in
      let im3 = write_block im2 (ino.blocks ndirect) ids in
      let f3 : IsFormatted im3 =
        IsFormatted-same
          (write_block-sb im2 (ino.blocks ndirect) ids
            ∙ write_indirect-sb n 0 im1 ino.blocks (load_word ids) buf (ndirect * block_size)
            ∙ write_blocks-sb ndirect 0 im ino.blocks buf 0)
          f in
      ap (λ d. d c) (put_inode_other junk im3 inum f3 lt _ (ino.blocks j) own)
      ∙ IsZero-write im2 (ino.blocks ndirect) (ino.blocks j) ids table
          (write_indirect_zeroes n 0 im1 ino.blocks (load_word ids) buf (ndirect * block_size) j
            (omega arith) (omega arith) h (λ k lk rk. a k lk (omega arith)))
          c hc

  write_cases_same :
      (im : InodeManager) (ino : Inode) (need : ℕ)
      → ndirect < need
      → write_cases junk now inum buf size im ino need need
        ≡ keep_indirect junk now inum buf size im ino need
  unfolding write_cases
  write_cases_same im ino need h = ground arith

  -- When a file of more than 100 blocks is written again with as many blocks, each direct block
  -- with an index below the number of indirect blocks holds zeros afterwards.
  pub write_file-zeroes :
      (im : InodeManager) (j : ℕ)
      → let ino = inode_at im inum in
        IsFormatted im
        → ino.type ≢ 0
        → block_count ino.size ≡ block_count size
        → block_count size ≤ maxfile
        → j < block_count size - ndirect
        → j < ndirect
        → ino.blocks j < block_num
        → inum + 3 < ino.blocks j
        → ino.blocks ndirect < block_num
        → ino.blocks j ≢ ino.blocks ndirect
        → ((k : ℕ)
            → k < block_count size - ndirect
            → ino.blocks j ≢ load_word (im.d (ino.blocks ndirect)) k)
        → (c : ℕ) → c < block_size
        → (write_file junk now inum buf size im).d (ino.blocks j) c ≡ 0
  unfolding write_file keep_indirect
  write_file-zeroes im j f exists same_count fits l l' h own th table out c hc =
      elim (get_inode-cases junk im inum f lt) [
        | inl (_, z) ↦ absurd (exists z)
        | inr (ino, e, s, _) ↦
            let need = block_count size in
            let n : block_count ino.size ≡ need = ap block_count s.size ∙ same_count in
            let bj = s.blocks j (omega arith) in
            let bt = s.blocks ndirect (omega arith) in
            let old = read_block im (ino.blocks ndirect) junk in
            let avoid : Avoids (ino.blocks j) (load_word old) 0 (need - ndirect) = λ k lk rk q.
              out k rk (
                sym bj
                ∙ q
                ∙ load_word-read_block im (ino.blocks ndirect) junk k (rw bt th) (omega arith)
                ∙ ap (λ b. load_word (im.d b) k) bt) in
            let z =
              write_all_zeroes im ino old need j f l (rw bj h) (λ q. table (sym bj ∙ q ∙ bt))
                (λ q. absurd (omega (arith, bj))) avoid in
            rw (e, write_file, le→ltb maxfile need fits, n)
              (rw (write_cases_same im ino need (omega arith)) (rw (← bj) (z c hc)))
      ]
