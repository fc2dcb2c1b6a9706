-- ===== src/NameNode/Blocks/Tiling.antt =====
-- The located blocks of a file cover it from its start to its end.
use file_system_yfs.Base.{
  ℕ, ◌+◌, ◌-◌, ◌*◌, ◌%◌, ◌^◌, ◌≤◌, ◌<◌, ◌≡◌, refl, ap, true, false, ltb, List, [], ◌∷◌, map, arith,
}
use file_system_yfs.Base.Text.{length}
use file_system_yfs.Disk.{block_size}
use file_system_yfs.Inodes.{block_count}
use file_system_yfs.NameNode.Ids.{DatanodeId}
use file_system_yfs.NameNode.State.{NameNode}
use file_system_yfs.NameNode.Blocks.{BlockServices, LocatedBlock, locate, get_block_locations}

-- From `from` on to `to`, the blocks lie one behind the other, and each has between 1 and BLOCK_SIZE bytes.
unfoldable pub AreTiles : ℕ → List LocatedBlock → ℕ → Type 0
AreTiles from [] to = from ≡ to
AreTiles from (b ∷ bs) to =
    (b.offset ≡ from) × ((0 < b.size) × (b.size ≤ block_size)) × AreTiles (from + b.size) bs to

locate-AreTiles :
    (locs : List DatanodeId) (count size : ℕ) (bid : ℕ) (ids : List ℕ) (i : ℕ)
    → i + length (bid ∷ ids) ≡ count
    → (count - 1) * block_size < size
    → size ≤ count * block_size
    → size < 2 ^ 32
    → AreTiles (i * block_size) (locate locs count size (bid ∷ ids) i (i * block_size)) size
unfolding locate AreTiles length
locate-AreTiles locs count size bid [] i all above below small =
    let last : ltb i (count - 1) ≡ false = ground arith in
    rw last (refl, (omega arith, omega arith), omega arith)
locate-AreTiles locs count size bid (bid' ∷ ids) i all above below small =
    let inner : ltb i (count - 1) ≡ true = ground arith in
    let next : (i * block_size + block_size) % 2 ^ 64 ≡ (i + 1) * block_size = omega arith in
    let here : i * block_size + block_size ≡ (i + 1) * block_size = omega arith in
    let rest = locate-AreTiles locs count size bid' ids (i + 1) (omega arith) above below small in
    rw (inner, next, here) (refl, (omega arith, omega arith), rest)

locate-ids :
    (locs : List DatanodeId) (count size : ℕ) (ids : List ℕ) (i offset : ℕ)
    → map (λ b. b.block_id) (locate locs count size ids i offset) ≡ ids
unfolding locate
locate-ids locs count size [] i offset = refl
locate-ids locs count size (bid ∷ ids) i offset =
    ap (λ x. bid ∷ x) (locate-ids locs count size ids (i + 1) _)

-- The services answer as many block numbers as the file's size takes.
abbrev pub CountsBlocks : {S : Type 0} → BlockServices S → S → ℕ → Type 0
CountsBlocks bs st ino =
    let (s, r, ids) = bs.get_block_ids st ino in
    let (s', r', a) = bs.services.getattr s ino in
    (length ids ≡ block_count a.size) × (a.size < 2 ^ 32)

locate_all :
    (locs : List DatanodeId) (size : ℕ) (ids : List ℕ)
    → length ids ≡ block_count size
    → size < 2 ^ 32
    → AreTiles 0 (locate locs (length ids) size ids 0 0) size
unfolding block_count length
locate_all locs size [] all small =
    let none_left : 0 ≡ size = ground arith in unfold locate in unfold AreTiles in none_left
locate_all locs size (bid ∷ ids) all small =
    let start : 0 * block_size ≡ 0 = omega arith in
    rw start at (
      locate-AreTiles locs (length (bid ∷ ids)) size bid ids 0 (omega arith) (ground arith)
        (ground arith) small)

-- When the services answer as many block numbers as the file's size takes, which is below 4 GB,
-- the located blocks have these numbers, lie one behind the other from 0 to the file's end, and
-- have between 1 and BLOCK_SIZE bytes each.
pub get_block_locations-AreTiles :
    {S : Type 0} (bs : BlockServices S) (nn : NameNode) (st : S) (ino : ℕ)
    → CountsBlocks bs st ino
    → let (s, r, ids) = bs.get_block_ids st ino in
      let (s', r', a) = bs.services.getattr s ino in
      let (s'', blocks) = get_block_locations bs nn st ino in
      AreTiles 0 blocks a.size × (map (λ b. b.block_id) blocks ≡ ids)
unfolding get_block_locations
get_block_locations-AreTiles bs nn st ino (all, small) =
    (locate_all _ _ _ all small, locate-ids _ _ _ _ 0 0)
