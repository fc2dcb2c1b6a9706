-- ===== src/Client/Root.antt =====
-- A new file system, from the client down to the disk: names in the root directory.
use file_system_yfs.Base.{
  ℕ, zero, suc, ◌+◌, ◌/◌, ◌%◌, ◌≤◌, ◌≡◌, refl, arith, ltb, Bool-cases, inl, inr, some, [], ◌∷◌,
}
use file_system_yfs.Base.Memory.{Buf}
use file_system_yfs.Base.Slices.{AreBytes-append}
use file_system_yfs.Base.Text.{Text, length, AreBytes, length-append}
use file_system_yfs.Disk
use file_system_yfs.Blocks
use file_system_yfs.Blocks.{IsFormatted, is_used}
use file_system_yfs.Blocks.Free.{free_blocks, free_blocks-same, count_free}
use file_system_yfs.Inodes
use file_system_yfs.Inodes.{InodeManager, Clock, block_count, t_dir}
use file_system_yfs.Inodes.Lifecycle.{Creates, init-root}
use file_system_yfs.Inodes.WriteRead.{Creates-IsFile}
use file_system_yfs.Client.Number.{filename, digits, AreDigits, filename-AreDigits}
use file_system_yfs.Client.Directory.{add_entry, semicolon}
use file_system_yfs.Client.Directory.Listing.{IsPlain, format, AreNamed}
use file_system_yfs.Client.Directory.Lookup.{first_named}
use file_system_yfs.Client.Names.{create, mkdir}
use file_system_yfs.Client.Created.{Created, create-Created}
use file_system_yfs.Client.OnExtent.{
  Running, Unassigned, StoredText, RoomFor, on_extent, on_extent-Stores,
}

AreDigits-AreBytes : (s : Text) → AreDigits s → AreBytes s
unfolding AreDigits AreBytes
AreDigits-AreBytes [] all = tt
AreDigits-AreBytes (c ∷ s) (digit, others) = (ground arith, AreDigits-AreBytes s others)

length-digits : (n inum : ℕ) → length (digits n inum) ≤ n
unfolding digits length
length-digits zero inum = omega arith
length-digits (suc n) inum = elim (Bool-cases (ltb inum 10)) [
  | inl e ↦ rw (digits, e, length) (omega arith)
  | inr e ↦
      rw (digits, e)
        (omega (
          arith,
          length-append (digits n (inum / 10)) ((b'0' + inum % 10) ∷ []),
          length-digits n (inum / 10),
        ))
]

-- The text of a directory with one entry.
module _ (name : Text) (ino : ℕ) where
  add_entry-AreBytes : AreBytes name → AreBytes (add_entry [] name ino)
  unfolding add_entry AreBytes length
  add_entry-AreBytes bytes =
      AreBytes-append name (semicolon ∷ filename ino) bytes
        (omega arith, AreDigits-AreBytes (filename ino) (filename-AreDigits ino))

  length-add_entry : length (add_entry [] name ino) ≤ length name + 21
  unfolding add_entry filename length
  length-add_entry =
      omega (arith, length-append name (semicolon ∷ digits 20 ino), length-digits 20 ino)

blank_disk_free : free_blocks Blocks.init ≡ 1020
unfolding Blocks.init count_free is_used Disk.init
blank_disk_free = refl

formatted : IsFormatted Blocks.init
unfolding Blocks.init
formatted = record { nblocks = refl; ninodes = refl }

module _ (im : InodeManager) (made : Creates Blocks.init im 1 t_dir) where
  root : Running
  root = record { im = im; calls = 0 }

  root-StoredText : StoredText (some root) 1 t_dir []
  unfolding root StoredText block_count length AreBytes
  root-StoredText =
      let file = Creates-IsFile Blocks.init im 1 t_dir formatted (omega arith) made in
      record {
        in_table = omega arith;
        rest = λ k. 0;
        held = record {
          formatted = file.formatted;
          exists = file.exists;
          size_at = made.empty;
          owns = record {
            above = λ j l. absurd (omega arith);
            below = λ j l. absurd (omega arith);
            used = λ j l. absurd (omega arith);
            distinct = λ j k lj rj. absurd (omega arith);
          };
          contents = λ j c l r. absurd (omega arith);
        };
        kind = made.type_now;
        short_kind = omega arith;
        bytes = tt;
        direct = omega arith;
      }

  root-RoomFor :
      (name : Text) (ino : ℕ)
      → AreBytes name
      → length name ≤ 255
      → RoomFor (some root) 1 (add_entry [] name ino)
  unfolding root RoomFor block_count
  root-RoomFor name ino bytes short =
      let long = length-add_entry name ino in
      let file = Creates-IsFile Blocks.init im 1 t_dir formatted (omega arith) made in
      let free = free_blocks-same Blocks.init im (made.others 2 (omega arith)) in
      let blocks : block_count (length (add_entry [] name ino)) ≤ 1 = ground (arith, long, short) in
      record {
        formatted = file.formatted;
        bytes = add_entry-AreBytes name ino bytes;
        short = omega (arith, long, short);
        direct = omega (arith, blocks);
        room = omega (arith, blocks, free, blank_disk_free);
      }

-- On a new disk, through the extent server and the inode layer: the constructor makes a root
-- directory, and create and mkdir of a name of at most 255 bytes without a semicolon or a zero
-- byte answer OK, leave the root with that one entry, and lookup finds the new inode.
pub create-new_disk :
    (junk0 : Buf) (now0 : Clock) (junk : ℕ → Buf) (now : ℕ → Clock) (finum : Text → ℕ)
    (left : Unassigned) (name : Text) (ino : ℕ)
    → IsPlain name
    → AreBytes name
    → length name ≤ 255
    → (im : InodeManager) × (Inodes.init junk0 now0 ≡ some im)
      × Created
          (on_extent junk now finum left)
          StoredText
          1
          []
          name
          (create (on_extent junk now finum left) (some (record { im = im; calls = 0 })) 1 name ino)
      × Created
          (on_extent junk now finum left)
          StoredText
          1
          []
          name
          (mkdir (on_extent junk now finum left) (some (record { im = im; calls = 0 })) 1 name ino)
unfolding root format AreNamed first_named
create-new_disk junk0 now0 junk now finum left name ino plain bytes short =
    let (im, started, made) = init-root junk0 now0 in
    let (created, made_dir) =
      create-Created (on_extent junk now finum left) StoredText RoomFor
        (on_extent-Stores junk now finum left) 1 (some (root im made)) name ino []
        (root-StoredText im made) tt plain refl (λ i. root-RoomFor im made name i bytes short) in
    (im, started, created, made_dir)
