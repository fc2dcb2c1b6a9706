-- ===== src/DataNode/Parts.antt =====
-- What a data node reads of a block after it wrote a part of it.
use file_system_yfs.Base.{
  ℕ, ◌+◌, ◌%◌, ◌^◌, ◌≤◌, ◌<◌, ◌≡◌, ◌≢◌, refl, ap, ◌∙◌, true, false, ◌==◌, ltb, none, some, ◌++◌,
  inl, inr, Bool-cases, arith,
}
use file_system_yfs.Base.Memory.{Buf}
use file_system_yfs.Base.Text.{Text, length, take, drop, c_str, assign, AreBytes, assign-c_str}
use file_system_yfs.Base.Slices.{drop_nothing, length-assign, AreBytes-assign}
use file_system_yfs.Disk.{block_size, block_num}
use file_system_yfs.Blocks
use file_system_yfs.Blocks.Cells.{read_block_in, write_block_in, write_block_other}
use file_system_yfs.Inodes.Blocklist
use file_system_yfs.Inodes.{Clock}
use file_system_yfs.Extent.{ExtentServer}
use file_system_yfs.Extent
use file_system_yfs.Client.Content.{substr}
use file_system_yfs.DataNode.{substr_of, patched, read_block, write_block}

substr_inside : (s : Text) (off : ℕ) → off ≤ length s → substr s off ≡ some (drop s off)
unfolding substr
substr_inside s off h = let e : ltb (length s) off ≡ false = ground arith in rw (substr, e) refl

substr_behind : (s : Text) (off : ℕ) → length s < off → substr s off ≡ none
unfolding substr
substr_behind s off h = let e : ltb (length s) off ≡ true = ground arith in rw (substr, e) refl

-- The new content is the old one with `buf` in place of the part.
patched_inside :
    (content : Text) (offset len : ℕ) (buf : Text)
    → offset + len ≤ length content
    → length content < 2 ^ 64
    → patched content offset len buf
      ≡ some (take content offset ++ (buf ++ drop content (offset + len)))
unfolding patched substr_of
patched_inside content offset len buf h small =
    let end : (offset + len) % 2 ^ 64 ≡ offset + len = omega arith in
    rw
      (
        patched,
        substr_inside content 0 (omega arith),
        drop_nothing content,
        end,
        substr_inside content (offset + len) h,
      )
      refl

pub patched_behind :
    (content : Text) (offset len : ℕ) (buf : Text)
    → length content < offset + len
    → offset + len < 2 ^ 64
    → patched content offset len buf ≡ none
unfolding patched substr_of
patched_behind content offset len buf h small =
    let end : (offset + len) % 2 ^ 64 ≡ offset + len = omega arith in
    rw (patched, substr_inside content 0 (omega arith), end, substr_behind content (offset + len) h)
      refl

assign_text :
    (b rest : Buf) (n : ℕ) (s : Text)
    → length s ≡ n
    → AreBytes s
    → ((k : ℕ) → k < n → b k ≡ c_str rest s k)
    → assign b 0 n ≡ s
assign_text b rest n s size bytes same =
    rw (← size)
      (assign-c_str b rest 0 s bytes (λ k h. ap b (omega arith) ∙ same k (omega (arith, size))))

module _ (junk : Buf) (now : Clock) where
  -- The string that the extent server answers for a block.
  unfoldable pub content : ExtentServer → ℕ → Text
  content im bid = (Extent.read_block junk now im bid).1

  pub content-length : (im : ExtentServer) (bid : ℕ) → length (content im bid) ≡ block_size
  unfolding content Extent.read_block
  content-length im bid = length-assign _ 0 block_size

  pub content-AreBytes : (im : ExtentServer) (bid : ℕ) → AreBytes (content im bid)
  unfolding content Extent.read_block
  content-AreBytes im bid = AreBytes-assign _ 0 block_size

  pub content-write :
      (im : ExtentServer) (bid : ℕ) (s : Text)
      → bid < block_num
      → length s ≡ block_size
      → AreBytes s
      → content (Extent.write_block junk now im bid s).0 bid ≡ s
  unfolding content Extent.read_block Extent.write_block Blocklist.read_block Blocklist.write_block
  content-write im bid s exists size bytes =
      let fits : (length s == block_size) ≡ true = ground arith in
      rw fits (
        assign_text _ junk block_size s size bytes (λ k h.
          read_block_in _ bid _ k exists h ∙ write_block_in im bid (c_str junk s) k exists h))

  pub content-other :
      (im : ExtentServer) (bid other : ℕ) (s : Text)
      → other ≢ bid
      → content (Extent.write_block junk now im bid s).0 other ≡ content im other
  unfolding content Extent.read_block Extent.write_block Blocklist.read_block Blocklist.write_block
      Blocks.read_block
  content-other im bid other s ne = elim (Bool-cases (length s == block_size)) [
    | inl e ↦ rw (e, write_block_other im bid other (c_str junk s) ne) refl
    | inr e ↦ rw e refl
  ]

  pub refused :
      (im : ExtentServer) (bid : ℕ) (s : Text)
      → length s ≢ block_size
      → (Extent.write_block junk now im bid s).0 ≡ im
  unfolding Extent.write_block
  refused im bid s ne = let e : (length s == block_size) ≡ false = ground arith in rw e refl

  pub read_block_inside :
      (im : ExtentServer) (bid offset len : ℕ)
      → offset ≤ block_size
      → read_block junk now im bid offset len ≡ some (take (drop (content im bid) offset) len)
  unfolding read_block substr_of content
  read_block_inside im bid offset len h =
      let size = content-length im bid in
      let e : ltb (length (content im bid)) offset ≡ false = ground (arith, size) in
      rw (read_block, e, substr_inside (content im bid) offset (omega (arith, size))) refl

  pub write_block_inside :
      (im : ExtentServer) (bid offset len : ℕ) (buf : Text)
      → offset + len ≤ block_size
      → let c = content im bid in
        write_block junk now im bid offset len buf
        ≡ some
            (Extent.write_block junk now im bid (take c offset ++ (buf ++ drop c (offset + len)))).0
  unfolding write_block content
  write_block_inside im bid offset len buf h =
      rw
        (
          write_block,
          patched_inside (content im bid) offset len buf (omega (arith, content-length im bid))
              (omega (arith, content-length im bid)),
        )
        refl
