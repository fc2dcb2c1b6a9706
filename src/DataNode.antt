-- ===== src/DataNode.antt =====
-- The data node of yfs/datanode.cc: reading and writing a part of a block through the extent server.
mod Parts
pub mod RoundTrip
pub mod Packets
use mathlib.Core.Option
use file_system_yfs.Base.{
  ℕ, ◌+◌, ◌%◌, ◌^◌, Bool, true, false, Option, none, some, ltb, if◌then◌else◌, [], ◌++◌,
}
use file_system_yfs.Base.Memory.{Buf}
use file_system_yfs.Base.Text.{Text, length, take}
use file_system_yfs.Inodes.{Clock}
use file_system_yfs.Extent.{ExtentServer}
use file_system_yfs.Extent
use file_system_yfs.Client.Content.{substr}

-- s.substr(pos, n); `none` is the exception for a position behind the end.
unfoldable pub substr_of : Text → ℕ → ℕ → Option Text
substr_of s pos n = Option.map (λ t. take t n) (substr s pos)

-- The new content of a block, where the end of the part wraps around; `none` is the exception.
unfoldable pub patched : Text → ℕ → ℕ → Text → Option Text
patched read_content offset len buf = elim (substr_of read_content 0 offset) [
  | none ↦ none
  | some before ↦
      Option.map (λ after. before ++ (buf ++ after)) (substr read_content ((offset + len) % 2 ^ 64))
]

module _ (junk : Buf) (now : Clock) (im : ExtentServer) where
  -- DataNode::ReadBlock, which always succeeds: buf. `none` is an exception, which it does not throw.
  unfoldable pub read_block : ℕ → ℕ → ℕ → Option Text
  read_block bid offset len =
      let (ret, block_buf) = Extent.read_block junk now im bid in
      if ltb (length block_buf) offset then some [] else substr_of block_buf offset len

  -- DataNode::WriteBlock, which always succeeds; `none` is an exception.
  unfoldable pub write_block : ℕ → ℕ → ℕ → Text → Option ExtentServer
  write_block bid offset len buf =
      let (ret, read_content) = Extent.read_block junk now im bid in
      Option.map (λ write_content. (Extent.write_block junk now im bid write_content).0)
        (patched read_content offset len buf)
