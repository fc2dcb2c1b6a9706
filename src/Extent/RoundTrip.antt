-- ===== src/Extent/RoundTrip.antt =====
-- What put stores get answers.
use mathlib.Core.Option
use file_system_yfs.Base.{
  suc, ◌==◌, false, ℕ, ◌-◌, ◌≤◌, ◌<◌, ◌^◌, ◌≡◌, refl, arith, none, some, leb, ap, ◌∙◌, ◌∷◌, [],
}
use file_system_yfs.Base.Memory.{Buf}
use file_system_yfs.Base.Text.{Text, length, c_str, AreBytes, assign-c_str}
use file_system_yfs.Disk.{ndirect}
use file_system_yfs.Blocks.Free.{free_blocks}
use file_system_yfs.Inodes.{Clock, block_count}
use file_system_yfs.Inodes.Struct.{inode_at}
use file_system_yfs.Inodes.WriteRead.{IsFile, read_file-write_file}
use file_system_yfs.Extent.{ExtentServer, Status, masked, put, get, received}

pub received_text :
    (junk : Buf) (now : Clock) (im : ExtentServer) (b rest : Buf) (s : Text)
    → AreBytes s
    → ((p : ℕ) → p < length s → b p ≡ c_str rest s p)
    → length s < 2 ^ 31
    → received junk now im (some b) (length s) ≡ some s
unfolding received length
received_text junk now im b rest [] bytes same short = refl
received_text junk now im b rest (c ∷ s) bytes same short =
    let filled : (suc (length s) == 0) ≡ false = ground arith in
    let fits : leb (2 ^ 31) (suc (length s)) ≡ false = ground (arith, short) in
    rw (filled, fits)
      (ap some (assign-c_str b rest 0 (c ∷ s) bytes (λ k h. ap b (omega arith) ∙ same k h)))

-- The contents of an extent that owns its at most 100 blocks are those of the last put, when that
-- string is below 2^31 bytes and of at most 100 blocks, and the disk has room for the new ones.
pub get-put :
    (junk : Buf) (now : Clock) (im : ExtentServer) (id : ℕ) (s : Text) (junk' : Buf) (now' : Clock)
    → IsFile im (masked id)
    → length s < 2 ^ 31
    → block_count (length s) ≤ ndirect
    → block_count (length s) - block_count (inode_at im (masked id)).size ≤ free_blocks im
    → AreBytes s
    → Option.map
        (λ (r : ExtentServer × Status × Text). r.2)
        (get junk' now' (put junk now im id s).0 id)
      ≡ some s
unfolding get put
get-put junk now im id s junk' now' file short direct room bytes =
    let (size, b, out, same) =
      read_file-write_file junk now (masked id) (c_str junk s) (length s) im file (omega arith)
        direct room junk' now' none 0 in
    rw (out, size, received_text junk' now' (put junk now im id s).0 b junk s bytes same short) refl
