-- ===== src/Inodes/Loops/Allocate.antt =====
-- The allocation loop takes new blocks of the disk, as long as enough are free.
use file_system_yfs.Base.{
  ℕ, zero, suc, ◌+◌, ◌≤◌, ◌<◌, ◌≡◌, ◌≢◌, refl, sym, ap, ◌∙◌, inl, inr, true, false, arith, ◌==◌,
  Bool-cases,
}
use file_system_yfs.Base.Memory.{Buf}
use file_system_yfs.Disk.{block_num}
use file_system_yfs.Blocks.{BlockManager, is_used, IsFormatted}
use file_system_yfs.Blocks.Alloc.{Takes, Marks, first_data, bitmap_block}
use file_system_yfs.Blocks.Free.{free_blocks, alloc_block-free}
use file_system_yfs.Inodes.Loops.{Ids, update, alloc_ids}
use file_system_yfs.Inodes.Loops.Copy.{Distinct}

-- ids[j] is a data block of the disk that was free and is taken now.
pub record IsNew (bm bm' : BlockManager) (id : ℕ) : Type 0 where
  pub above : first_data ≤ id
  pub below : id < block_num
  pub was_free : is_used bm id ≡ false
  pub now_used : is_used bm' id ≡ true

-- The entries from `i` to `hi` are new, each another block, and nothing else changed.
pub record Extends (bm bm' : BlockManager) (ids ids' : Ids) (i hi : ℕ) : Type 0 where
  pub kept : (j : ℕ) → j < i → ids' j ≡ ids j
  pub beyond : (j : ℕ) → hi ≤ j → ids' j ≡ ids j
  pub new : (j : ℕ) → i ≤ j → j < hi → IsNew bm bm' (ids' j)
  pub distinct : Distinct ids' i hi
  pub still_used : (x : ℕ) → is_used bm x ≡ true → is_used bm' x ≡ true
  pub others : (b : ℕ) → b ≢ bitmap_block → bm'.d b ≡ bm.d b
  pub superblock : bm'.sb ≡ bm.sb

pub IsFormatted-same : {bm bm' : BlockManager} → bm'.sb ≡ bm.sb → IsFormatted bm → IsFormatted bm'
IsFormatted-same e f = record {
  nblocks = ap (λ s. s.nblocks) e ∙ f.nblocks;
  ninodes = ap (λ s. s.ninodes) e ∙ f.ninodes;
}

IsNew-cons :
    (bm bm1 bm' : BlockManager) (id x : ℕ) → Marks bm bm1 id true → IsNew bm1 bm' x → IsNew bm bm' x
IsNew-cons bm bm1 bm' id x m n = record {
  above = n.above;
  below = n.below;
  was_free = ground (arith, m.marked x, n.was_free);
  now_used = n.now_used;
}

-- One round: the first allocation, and then the others.
module _ (bm bm1 bm' : BlockManager) (ids ids' : Ids) (i hi id : ℕ) (lt : i < hi)
    (t : Takes bm bm1 id) (on_disk : id < block_num)
    (e : Extends bm1 bm' (update ids i id) ids' (i + 1) hi) where
  at_i : ids' i ≡ id
  unfolding update
  at_i = e.kept i (omega arith) ∙ ground arith

  used_1 : is_used bm1 id ≡ true
  used_1 = ground (arith, t.marks.marked id)

  IsNew-at : (j : ℕ) → i ≤ j → j < hi → IsNew bm bm' (ids' j)
  IsNew-at j l r = elim (Bool-cases (i == j)) [
    | inl q ↦
        let p : j ≡ i = ground arith in
        rw (p, at_i)
          (record {
            above = t.above;
            below = on_disk;
            was_free = t.was_free;
            now_used = e.still_used id used_1;
          })
    | inr q ↦ IsNew-cons bm bm1 bm' id (ids' j) t.marks (e.new j (ground arith) r)
  ]

  not_again : (k : ℕ) → i < k → k < hi → ids' i ≢ ids' k
  not_again k l r same =
      let f = (e.new k (omega arith) r).was_free in ground (arith, f, used_1, at_i)

  Distinct-at : Distinct ids' i hi
  Distinct-at j k lj rj lk rk same = elim (Bool-cases (i == j)) [
    | inl q ↦ elim (Bool-cases (i == k)) [
      | inl p ↦ ground arith
      | inr p ↦ absurd (not_again k (ground arith) rk (ap ids' (ground arith) ∙ same))
    ]
    | inr q ↦ elim (Bool-cases (i == k)) [
      | inl p ↦ absurd (not_again j (ground arith) rj (ap ids' (ground arith) ∙ sym same))
      | inr p ↦ e.distinct j k (ground arith) rj (ground arith) rk same
    ]
  ]

  Extends-cons : Extends bm bm' ids ids' i hi
  unfolding update
  Extends-cons = record {
    kept = λ j h. e.kept j (omega arith) ∙ ground arith;
    beyond = λ j h. e.beyond j h ∙ ground arith;
    new = IsNew-at;
    distinct = Distinct-at;
    still_used = λ x u. e.still_used x (ground (arith, t.marks.marked x));
    others = λ b ne. e.others b ne ∙ t.marks.others b (omega arith);
    superblock = e.superblock ∙ t.marks.superblock;
  }

-- With room for `n` blocks the loop extends the ids by `n` new blocks.
pub alloc_ids-Extends :
    (junk : Buf) (n i hi : ℕ) (bm : BlockManager) (ids : Ids)
    → i + n ≡ hi
    → IsFormatted bm
    → n ≤ free_blocks bm
    → let r = alloc_ids junk n i bm ids in Extends bm r.0 ids r.1 i hi
unfolding alloc_ids
alloc_ids-Extends junk zero i hi bm ids s f room = record {
  kept = λ j h. refl;
  beyond = λ j h. refl;
  new = λ j l r. absurd (omega arith);
  distinct = λ j k l r. absurd (omega arith);
  still_used = λ x u. u;
  others = λ b ne. refl;
  superblock = refl;
}
alloc_ids-Extends junk (suc n) i hi bm ids s f room =
    let (t, on_disk, left) = alloc_block-free junk bm f (omega arith) in
    Extends-cons bm _ _ ids _ i hi _ (omega arith) t on_disk (
      alloc_ids-Extends junk n (i + 1) hi _ _ (omega arith) (IsFormatted-same t.marks.superblock f)
        (omega arith))
