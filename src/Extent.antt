-- ===== src/Extent.antt =====
-- The extent server of yfs/extent_server.cc: the operations that clients call, over the inode layer.
-- Strings are shorter than 2^31 bytes, so that their size is what an int holds of it.
pub mod RoundTrip
use mathlib.Core.Option
use file_system_yfs.Base.{ℕ, ◌%◌, ◌^◌, Option, none, some, ◌==◌, leb, if◌then◌else◌, List, [], not}
use file_system_yfs.Base.Memory.{Buf}
use file_system_yfs.Base.Text.{Text, length, c_str, assign}
use file_system_yfs.Disk.{block_size}
use file_system_yfs.Inodes
use file_system_yfs.Inodes.{InodeManager, Clock, Attr, alloc_inode}
use file_system_yfs.Inodes.Read.{read_file}
use file_system_yfs.Inodes.Write.{write_file}
use file_system_yfs.Inodes.Blocklist

-- extent_server's only field is the inode manager.
abbrev pub ExtentServer : Type 0
ExtentServer = InodeManager

-- extent_protocol::xxstatus
pub data Status : Type 0 where
  ok rpcerr noent ioerr : Status

-- id &= 0x7fffffff
abbrev pub masked : ℕ → ℕ
masked id = id % 2 ^ 31

module _ (junk : Buf) (now : Clock) (im : ExtentServer) where
  -- extent_server::create
  unfoldable pub create : ℕ → ExtentServer × Status × ℕ
  create type = let (im', id) = alloc_inode junk now im type in (im', ok, id)

  -- extent_server::put
  unfoldable pub put : ℕ → Text → ExtentServer × Status
  put id buf = (write_file junk now (masked id) (c_str junk buf) (length buf) im, ok)

  -- The string that get makes of read_file's results, where the size becomes an int. `none` is the
  -- exception of assign for a negative one, or for a NULL buffer.
  unfoldable pub received : Option Buf → ℕ → Option Text
  received none size = if size == 0 then some [] else none
  received (some b) size =
      if size == 0 then some [] else if leb (2 ^ 31) size then none else some (assign b 0 size)

  -- extent_server::get; `none` is the exception.
  unfoldable pub get : ℕ → Option (ExtentServer × Status × Text)
  get id =
      let (im', b, size) = read_file junk now im (masked id) none 0 in
      Option.map (λ (buf : Text). (im', ok, buf)) (received b size)

  -- extent_server::getattr
  unfoldable pub getattr : ℕ → Status × Attr
  getattr id = (ok, Inodes.getattr junk im (masked id))

  -- extent_server::remove
  unfoldable pub remove : ℕ → ExtentServer × Status
  remove id = (Blocklist.remove_file junk im (masked id), ok)

  -- extent_server::append_block
  unfoldable pub append_block : ℕ → ℕ → ExtentServer × Status × ℕ
  append_block id bid =
      let (im', bid') = Blocklist.append_block junk im (masked id) bid in (im', ok, bid')

  -- extent_server::get_block_ids; `none` is a fault.
  unfoldable pub get_block_ids : ℕ → Option (Status × List ℕ)
  get_block_ids id =
      Option.map (λ (ids : List ℕ). (ok, ids)) (Blocklist.get_block_ids junk im (masked id))

  -- extent_server::read_block
  unfoldable pub read_block : ℕ → Status × Text
  read_block id = (ok, assign (Blocklist.read_block junk im id junk) 0 block_size)

  -- extent_server::write_block
  unfoldable pub write_block : ℕ → Text → ExtentServer × Status
  write_block id buf =
      if not (length buf == block_size)
      then (im, ioerr)
      else (Blocklist.write_block junk im id (c_str junk buf), ok)

  -- extent_server::complete, which passes its eid on as 32 bits; `none` is a fault.
  unfoldable pub complete : ℕ → ℕ → Option (ExtentServer × Status)
  complete eid size =
      Option.map (λ (m : ExtentServer). (m, ok))
        (Blocklist.complete junk im now (eid % 2 ^ 32) size)
