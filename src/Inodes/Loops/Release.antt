-- ===== src/Inodes/Loops/Release.antt =====
-- The loop that frees blocks changes the bitmap and nothing else.
use file_system_yfs.Base.{
  ℕ, zero, suc, ◌+◌, ◌≤◌, ◌<◌, ◌≡◌, ◌≢◌, refl, ◌∙◌, arith, false, ◌==◌, inl, inr, Bool-cases,
}
use file_system_yfs.Base.Memory.{Buf}
use file_system_yfs.Disk.{bpb}
use file_system_yfs.Blocks.{BlockManager, free_block, is_used}
use file_system_yfs.Blocks.Alloc.{bitmap_block, free_block-Marks}
use file_system_yfs.Inodes.Loops.{Ids, free_ids}
use file_system_yfs.Inodes.Loops.Copy.{Avoids}

-- The ids from `lo` to `hi` have their bits in the first bitmap block.
abbrev pub InBitmap : Ids → ℕ → ℕ → Type 0
InBitmap ids lo hi = (j : ℕ) → lo ≤ j → j < hi → ids j < bpb

-- What the loop leaves.
pub record Releases (bm bm' : BlockManager) (ids : Ids) (i hi : ℕ) : Type 0 where
  pub others : (b : ℕ) → b ≢ bitmap_block → bm'.d b ≡ bm.d b
  pub superblock : bm'.sb ≡ bm.sb
  pub kept : (x : ℕ) → Avoids x ids i hi → is_used bm' x ≡ is_used bm x
  pub stay_free : (x : ℕ) → is_used bm x ≡ false → is_used bm' x ≡ false
  pub freed : (j : ℕ) → i ≤ j → j < hi → is_used bm' (ids j) ≡ false

pub free_ids-Releases :
    (junk : Buf) (n i hi : ℕ) (bm : BlockManager) (ids : Ids)
    → i + n ≡ hi
    → InBitmap ids i hi
    → Releases bm (free_ids junk n i bm ids) ids i hi
unfolding free_ids
free_ids-Releases junk zero i hi bm ids s h = record {
  others = λ b ne. refl;
  superblock = refl;
  kept = λ x a. refl;
  stay_free = λ x h. h;
  freed = λ j l r. absurd (omega arith);
}
free_ids-Releases junk (suc n) i hi bm ids s h =
    let id : ids i < bpb = h i (omega arith) (omega arith) in
    let m = free_block-Marks junk bm (ids i) (omega arith) in
    let rest =
      free_ids-Releases junk n (i + 1) hi (free_block junk bm (ids i)) ids (omega arith)
        (λ j l r. h j (omega arith) r) in
    record {
      others = λ b ne. rest.others b ne ∙ m.others b (omega arith);
      superblock = rest.superblock ∙ m.superblock;
      kept = λ x a.
          rest.kept x (λ j l r. a j (omega arith) r)
          ∙ ground (arith, m.marked x, a i (omega arith) (omega arith));
      stay_free = λ x u. rest.stay_free x (ground (arith, m.marked x));
      freed = λ j l r. elim (Bool-cases (i == j)) [
        | inl e ↦
            let p : j ≡ i = ground arith in
            rw p (rest.stay_free (ids i) (ground (arith, m.marked (ids i))))
        | inr e ↦ rest.freed j (ground arith) r
      ];
    }
