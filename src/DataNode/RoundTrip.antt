-- ===== src/DataNode/RoundTrip.antt =====
-- A part of a block is read back as it was written, and the rest of the disk is as before.
use file_system_yfs.Base.{
  ℕ, ◌+◌, ◌^◌, ◌-◌, ◌≤◌, ◌<◌, ◌≡◌, ◌≢◌, ◌⊎◌, refl, ap, sym, ◌∙◌, none, some, ◌++◌, Holds, inl, inr,
  ◌==◌, Bool-cases, ==_iff, arith,
}
use file_system_yfs.Base.Memory.{Buf}
use file_system_yfs.Base.Text.{Text, length, take, drop, AreBytes, length-append}
use file_system_yfs.Base.Slices.{
  length-take, length-drop, take-append, drop-append, AreBytes-append, AreBytes-take, AreBytes-drop,
  drop-append_second, drop-drop, range-take,
}
use file_system_yfs.Disk.{block_size, block_num}
use file_system_yfs.Inodes.{Clock}
use file_system_yfs.Extent.{ExtentServer}
use file_system_yfs.Extent
use file_system_yfs.DataNode.{read_block, write_block}
use file_system_yfs.DataNode.Parts.{
  content, content-length, content-AreBytes, content-write, content-other, refused, patched_behind,
  read_block_inside, write_block_inside,
}

-- A text with `buf` in place of the part of its length at an offset.
module _ (c : Text) (offset len : ℕ) (buf : Text) (size : length buf ≡ len)
    (fits : offset + len ≤ length c) where
  abbrev new : Text
  new = take c offset ++ (buf ++ drop c (offset + len))

  before_size : length (take c offset) ≡ offset
  before_size = length-take c offset (omega arith)

  new-length : length new ≡ length c
  new-length = omega (
    arith,
    length-append (take c offset) (buf ++ drop c (offset + len)),
    length-append buf (drop c (offset + len)),
    length-drop c (offset + len),
    before_size,
    size,
  )

  new_at : take (drop new offset) len ≡ buf
  new_at =
      let start : drop new offset ≡ buf ++ drop c (offset + len) =
        ap (drop new) (sym before_size)
        ∙ drop-append (take c offset) (buf ++ drop c (offset + len)) in
      rw start (
        ap (take (buf ++ drop c (offset + len))) (sym size)
        ∙ take-append buf (drop c (offset + len)))

  new_before : (o l : ℕ) → o + l ≤ offset → take (drop new o) l ≡ take (drop c o) l
  new_before o l h = range-take c (buf ++ drop c (offset + len)) offset o l h (omega arith)

  new_behind : (o l : ℕ) → offset + len ≤ o → take (drop new o) l ≡ take (drop c o) l
  new_behind o l h =
      let first : drop new o ≡ drop (buf ++ drop c (offset + len)) (o - offset) =
        ap (drop new) (omega (arith, before_size))
        ∙ drop-append_second (take c offset) (buf ++ drop c (offset + len)) (o - offset) in
      let second : drop (buf ++ drop c (offset + len)) (o - offset)
          ≡ drop (drop c (offset + len)) (o - (offset + len)) =
        ap (drop (buf ++ drop c (offset + len))) (omega (arith, size))
        ∙ drop-append_second buf (drop c (offset + len)) (o - (offset + len)) in
      let third : drop (drop c (offset + len)) (o - (offset + len)) ≡ drop c o =
        drop-drop c (offset + len) (o - (offset + len)) ∙ ap (drop c) (omega arith) in
      rw (first, second, third) refl

module _ (junk : Buf) (now : Clock) (im : ExtentServer) (bid offset len : ℕ) (buf : Text) where
  kept_here :
      (text : Text) (o l : ℕ)
      → o + l ≤ block_size
      → content junk now (Extent.write_block junk now im bid text).0 bid ≡ text
      → take (drop text o) l ≡ take (drop (content junk now im bid) o) l
      → read_block junk now (Extent.write_block junk now im bid text).0 bid o l
        ≡ read_block junk now im bid o l
  kept_here text o l inside written same =
      read_block_inside junk now _ bid o l (omega arith)
      ∙ ap some (ap (λ t. take (drop t o) l) written ∙ same)
      ∙ sym (read_block_inside junk now im bid o l (omega arith))

  kept_elsewhere :
      (text : Text) (other o l : ℕ)
      → o + l ≤ block_size
      → other ≢ bid
      → read_block junk now (Extent.write_block junk now im bid text).0 other o l
        ≡ read_block junk now im other o l
  kept_elsewhere text other o l inside ne =
      read_block_inside junk now _ other o l (omega arith)
      ∙ ap some (ap (λ t. take (drop t o) l) (content-other junk now im bid other text ne))
      ∙ sym (read_block_inside junk now im other o l (omega arith))

  -- Writing a part of a block that exists, with as many bytes as the part has, succeeds; then the
  -- part is read back as what was written, and every other part of this block and of the others as
  -- before.
  pub read_block-write_block :
      bid < block_num
      → length buf ≡ len
      → offset + len ≤ block_size
      → AreBytes buf
      → Holds
          (λ im'.
            (read_block junk now im' bid offset len ≡ some buf)
            × ((other o l : ℕ)
                → o + l ≤ block_size
                → (other ≢ bid) ⊎ ((o + l ≤ offset) ⊎ (offset + len ≤ o))
                → read_block junk now im' other o l ≡ read_block junk now im other o l))
          (write_block junk now im bid offset len buf)
  unfolding Holds
  read_block-write_block exists size fits bytes =
      let c = content junk now im bid in
      let whole = content-length junk now im bid in
      let fits' : offset + len ≤ length c = omega (arith, whole) in
      let text = take c offset ++ (buf ++ drop c (offset + len)) in
      let old = content-AreBytes junk now im bid in
      let written =
        content-write junk now im bid text exists
          (omega (arith, whole, new-length c offset len buf size fits'))
          (AreBytes-append (take c offset) (buf ++ drop c (offset + len))
            (AreBytes-take c offset old)
            (AreBytes-append buf (drop c (offset + len)) bytes
              (AreBytes-drop c (offset + len) old))) in
      rw (write_block_inside junk now im bid offset len buf fits) (
        read_block_inside junk now _ bid offset len (omega arith)
            ∙ ap some
                (ap (λ t. take (drop t offset) len) written ∙ new_at c offset len buf size fits'),
        λ other o l inside apart. elim (Bool-cases (other == bid)) [
          | inl e ↦
              let same_id : other ≡ bid = (==_iff other bid).0 e in
              rw same_id (
                kept_here text o l inside written (elim apart [
                  | inl ne ↦ absurd (ne same_id)
                  | inr (inl h) ↦ new_before c offset len buf size fits' o l h
                  | inr (inr h) ↦ new_behind c offset len buf size fits' o l h
                ]))
          | inr e ↦ kept_elsewhere text other o l inside (λ q. ground arith)
        ],
      )

  -- Writing a part with a string of another length than the part's leaves the disk unchanged, and is
  -- reported as a success all the same.
  pub write_block_ignored :
      length buf ≢ len
      → offset + len ≤ block_size
      → write_block junk now im bid offset len buf ≡ some im
  write_block_ignored ne fits =
      let c = content junk now im bid in
      write_block_inside junk now im bid offset len buf fits
      ∙ ap some (
          refused junk now im bid _ (λ e. ne (
            omega (
              arith,
              length-append (take c offset) (buf ++ drop c (offset + len)),
              length-append buf (drop c (offset + len)),
              length-drop c (offset + len),
              length-take c offset (omega (arith, content-length junk now im bid)),
              content-length junk now im bid,
            ))))

  -- Writing behind the end of the block, where the end does not wrap around, throws an exception.
  pub write_block_throws :
      block_size < offset + len
      → offset + len < 2 ^ 64
      → write_block junk now im bid offset len buf ≡ none
  unfolding write_block content
  write_block_throws behind small =
      rw
        (
          write_block,
          patched_behind (content junk now im bid) offset len buf
              (omega (arith, content-length junk now im bid)) small,
        )
        refl
