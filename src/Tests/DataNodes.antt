-- ===== src/Tests/DataNodes.antt =====
-- A data node on a new disk, with two bytes of a data block.
use file_system_yfs.Base.{
  ℕ, ◌+◌, ◌≤◌, ◌≡◌, ◌≢◌, ◌⊎◌, inl, refl, some, true, false, Holds, [], ◌∷◌, arith,
}
use file_system_yfs.Base.Text.{Text, AreBytes, length, c_str}
use file_system_yfs.Disk.{block_size}
use file_system_yfs.Blocks
use file_system_yfs.DataNode.{read_block, write_block}
use file_system_yfs.DataNode.Packets.{send_block, send_packets, receive_packets}
use file_system_yfs.DataNode.Packets.Transfer.{receive_packets-send_block}
use file_system_yfs.Extent.{ExtentServer}
use file_system_yfs.DataNode.RoundTrip.{read_block-write_block}
use file_system_yfs.Tests.Disks.{blank}
use file_system_yfs.Tests.Files.{clock}

abbrev two : Text
two = b'h' ∷ b'i' ∷ []

abbrev written : ExtentServer
written = Blocks.write_block Blocks.init 1030 (c_str blank two)

two-length : length two ≡ 2
unfolding length
two-length = refl

two-AreBytes : AreBytes two
unfolding AreBytes
two-AreBytes = (omega arith, (omega arith, tt))

read_block-write_block_example :
    Holds
      (λ im'.
        (read_block blank clock im' 1030 5 2 ≡ some two)
        × ((other o l : ℕ)
            → o + l ≤ block_size
            → (other ≢ 1030) ⊎ ((o + l ≤ 5) ⊎ (5 + 2 ≤ o))
            → read_block blank clock im' other o l ≡ read_block blank clock Blocks.init other o l))
      (write_block blank clock Blocks.init 1030 5 2 two)
read_block-write_block_example =
    read_block-write_block blank clock Blocks.init 1030 5 2 two (omega arith) two-length
      (omega arith) two-AreBytes

-- The data node that reads has the two bytes, and the new disk is written.
receive_packets-send_block_example :
    Holds
      (λ block.
        let (ok, ps) = send_block (λ ps. false) 0 block in
        (ok ≡ true)
        × Holds
            (λ r.
              (r.0 ≡ true)
              × (read_block blank clock r.1 1031 0 16384 ≡ some block)
              × (read_block blank clock r.1 1030 5 2 ≡ read_block blank clock Blocks.init 1030 5 2))
            (receive_packets blank clock 1031 Blocks.init ps))
      (read_block blank clock written 1030 0 16384)
receive_packets-send_block_example =
    receive_packets-send_block blank clock 1031 blank clock written 1030 0 16384 (λ ps. false)
      Blocks.init 1030 5 2 (λ ps. refl) (omega arith) (omega arith) (omega arith) (omega arith)
      (inl (λ e. ground (arith, e)))

-- A block without bytes is sent in no packet, not even the last one.
send_block_nothing : send_block (λ ps. false) 0 [] ≡ (true, [])
unfolding send_block send_packets length
send_block_nothing = refl
