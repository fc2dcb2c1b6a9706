-- ===== src/DataNode/Packets.antt =====
-- The packets that carry a block's bytes in yfs/datanode_base.cc: sending them for a request to read,
-- and writing them for a request to write. The coded streams are not part of the repository.
mod Streams
pub mod Transfer
use mathlib.Core.Option
use file_system_yfs.Base.{
  ℕ, zero, suc, ◌+◌, ◌%◌, ◌^◌, Bool, true, false, not, Option, none, some, ltb, if◌then◌else◌, List,
  [], ◌∷◌, ◌++◌,
}
use file_system_yfs.Base.Memory.{Buf}
use file_system_yfs.Base.Text.{Text, length, take, drop}
use file_system_yfs.Inodes.{Clock}
use file_system_yfs.Extent.{ExtentServer}
use file_system_yfs.DataNode.{write_block}

abbrev pub packet_size : ℕ
packet_size = 16384

-- PacketHeaderProto, whose datalen is the payload's, and the bytes behind it.
pub record Packet : Type 0 where
  pub offset_in_block : ℕ
  pub seqno : ℕ
  pub last_packet_in_block : Bool
  pub payload : Text

-- The offset, sequence number and flag of a packet, and its bytes.
unfoldable pub packet : ℕ → ℕ → Bool → Text → Packet
packet offset seqno last payload = record {
  offset_in_block = offset;
  seqno = seqno;
  last_packet_in_block = last;
  payload = payload;
}

-- cos.HadError(), of a stream with these packets in it.
module _ (had_error : List Packet → Bool) where
  -- WritePacket, on a stream that has the packets `sent`.
  unfoldable pub write_packet : List Packet → Packet → Bool × List Packet
  write_packet sent p = (not (had_error (sent ++ (p ∷ []))), sent ++ (p ∷ []))

  -- The last bytes of a block, with the empty packet behind them.
  unfoldable pub send_last : ℕ → ℕ → ℕ → Text → List Packet → Bool × List Packet
  send_last offset at i rest sent =
      let (ok, sent') = write_packet sent (packet ((offset + at) % 2 ^ 64) i false rest) in
      if ok
      then write_packet sent' (packet ((offset + (at + length rest)) % 2 ^ 64) (i + 1) true [])
      else (false, sent')

  -- _ReadBlock's loop at the byte `at` of the block, with the bytes from there on. A round takes a byte or
  -- more, so that their number is fuel enough.
  unfoldable pub send_packets : ℕ → ℕ → ℕ → ℕ → Text → List Packet → Bool × List Packet
  send_packets zero offset at i rest sent = (true, sent)
  send_packets (suc fuel) offset at i [] sent = (true, sent)
  send_packets (suc fuel) offset at i (c ∷ cs) sent =
      let rest = c ∷ cs in
      let (ok, sent') =
        write_packet sent (packet ((offset + at) % 2 ^ 64) i false (take rest packet_size)) in
      let onward =
        send_packets fuel offset (at + packet_size) (i + 1) (drop rest packet_size) sent' in
      if ltb packet_size (length rest)
      then if ok then onward else (false, sent')
      else send_last offset at i rest sent

  -- _ReadBlock, behind its answer of success: the block's bytes from `offset` on.
  unfoldable pub send_block : ℕ → Text → Bool × List Packet
  send_block offset block = send_packets (length block) offset 0 0 block []

-- _WriteBlock's loop without mirrors, on the packets that the stream still has: false when ReadPacket
-- finds none. `none` is an exception of WriteBlock.
unfoldable pub receive_packets :
    Buf → Clock → ℕ → ExtentServer → List Packet → Option (Bool × ExtentServer)
receive_packets junk now bid im [] = some (false, im)
receive_packets junk now bid im (p ∷ ps) =
    elim (write_block junk now im bid p.offset_in_block (length p.payload) p.payload) [
      | none ↦ none
      | some im' ↦
          let onward = receive_packets junk now bid im' ps in
          if p.last_packet_in_block then some (true, im') else onward
    ]
