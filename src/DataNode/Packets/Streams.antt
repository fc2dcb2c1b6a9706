-- ===== src/DataNode/Packets/Streams.antt =====
-- The packets that a block is sent in.
use file_system_yfs.Base.{
  ℕ, zero, suc, ◌+◌, ◌%◌, ◌^◌, ◌≤◌, ◌<◌, ◌≡◌, refl, sym, ap, Bool, true, false, ltb, List, [], ◌∷◌,
  ◌++◌, inl, inr, Bool-cases, arith,
}
use file_system_yfs.Base.Text.{Text, length, take, drop, append_assoc, append-nil}
use file_system_yfs.Base.Slices.{length-take, length-drop}
use file_system_yfs.DataNode.Packets.{
  packet_size, Packet, packet, write_packet, send_last, send_packets, send_block,
}

-- The packets carry the text from an offset and a sequence number on, one behind the other and none of them
-- empty; behind them comes the last one, which is empty.
pub data Carries : ℕ → ℕ → Text → List Packet → Type 0 where
  ends : (offset i : ℕ) → Carries offset i [] (packet offset i true [] ∷ [])
  goes_on :
      (offset i : ℕ) (part rest s : Text) (ps : List Packet)
      → s ≡ part ++ rest
      → 0 < length part
      → length part ≤ packet_size
      → Carries (offset + length part) (i + 1) rest ps
      → Carries offset i s (packet offset i false part ∷ ps)

Carries-from :
    (o o' i : ℕ) (s : Text) (ps : List Packet) → o ≡ o' → Carries o i s ps → Carries o' i s ps
Carries-from o o' i s ps e carried = rw (← e) carried

take-drop : (s : Text) (n : ℕ) → s ≡ take s n ++ drop s n
unfolding take drop
take-drop [] zero = refl
take-drop [] (suc n) = refl
take-drop (c ∷ s) zero = refl
take-drop (c ∷ s) (suc n) = ap (λ x. c ∷ x) (take-drop s n)

module _ (had_error : List Packet → Bool)
    (no_error : (ps : List Packet) → had_error ps ≡ false) where
  written :
      (sent : List Packet) (p : Packet) → write_packet had_error sent p ≡ (true, sent ++ (p ∷ []))
  unfolding write_packet
  written sent p = rw (no_error (sent ++ (p ∷ []))) refl

  send_last-Carries :
      (offset at i : ℕ) (rest : Text) (sent : List Packet)
      → 0 < length rest
      → length rest ≤ packet_size
      → offset + (at + length rest) < 2 ^ 64
      → (ps : List Packet) × (send_last had_error offset at i rest sent ≡ (true, sent ++ ps))
        × Carries (offset + at) i rest ps
  unfolding send_last
  send_last-Carries offset at i rest sent some_left few small =
      let here : (offset + at) % 2 ^ 64 ≡ offset + at = omega arith in
      let behind : (offset + (at + length rest)) % 2 ^ 64 ≡ (offset + at) + length rest =
        omega arith in
      let first = packet (offset + at) i false rest in
      let last = packet ((offset + at) + length rest) (i + 1) true [] in
      (
        first ∷ (last ∷ []),
        rw
            (
              send_last,
              here,
              behind,
              written sent first,
              written (sent ++ (first ∷ [])) last,
              append_assoc sent (first ∷ []) (last ∷ []),
            )
            refl,
        goes_on (offset + at) i rest [] rest (last ∷ []) (sym (append-nil rest)) some_left few
            (ends ((offset + at) + length rest) (i + 1)),
      )

  -- A round that sends a whole packet, given what the later rounds send.
  send_part-Carries :
      (fuel offset at i c : ℕ) (cs : Text) (sent : List Packet)
      → let rest = c ∷ cs in
        let part = packet (offset + at) i false (take rest packet_size) in
        ltb packet_size (length rest) ≡ true
        → offset + (at + length rest) < 2 ^ 64
        → ((ps : List Packet) × (send_packets had_error fuel offset
                (at + packet_size)
                (i + 1)
                (drop rest packet_size)
                (sent ++ (part ∷ []))
              ≡ (true, (sent ++ (part ∷ [])) ++ ps))
            × Carries (offset + (at + packet_size)) (i + 1) (drop rest packet_size) ps)
        → (ps : List Packet) × (send_packets had_error (suc fuel) offset at i rest sent
            ≡ (true, sent ++ ps))
          × Carries (offset + at) i rest ps
  unfolding send_packets
  send_part-Carries fuel offset at i c cs sent more small (ps, run, later) =
      let rest = c ∷ cs in
      let long : packet_size < length rest = ground arith in
      let here : (offset + at) % 2 ^ 64 ≡ offset + at = omega arith in
      let size = length-take rest packet_size (omega arith) in
      let next : (offset + at) + packet_size ≡ offset + (at + packet_size) = omega arith in
      let part = packet (offset + at) i false (take rest packet_size) in
      (
        part ∷ ps,
        rw (send_packets, more, here, written sent part, run, append_assoc sent (part ∷ []) ps)
            refl,
        goes_on (offset + at) i (take rest packet_size) (drop rest packet_size) rest ps
            (take-drop rest packet_size) (omega arith) (omega arith) (rw (size, next) later),
      )

  send_packets-Carries :
      (fuel offset at i : ℕ) (rest : Text) (sent : List Packet)
      → length rest ≤ fuel
      → 0 < length rest
      → offset + (at + length rest) < 2 ^ 64
      → (ps : List Packet) × (send_packets had_error fuel offset at i rest sent
          ≡ (true, sent ++ ps))
        × Carries (offset + at) i rest ps
  unfolding send_packets length
  send_packets-Carries zero offset at i rest sent enough some_left small = absurd (omega arith)
  send_packets-Carries (suc fuel) offset at i [] sent enough some_left small =
      absurd (omega (arith, some_left))
  send_packets-Carries (suc fuel) offset at i (c ∷ cs) sent enough some_left small =
      let rest = c ∷ cs in
      elim (Bool-cases (ltb packet_size (length rest))) [
        | inl more ↦
            let long : packet_size < length rest = ground arith in
            let size = length-take rest packet_size (omega arith) in
            let left = length-drop rest packet_size in
            send_part-Carries fuel offset at i c cs sent more small (
              send_packets-Carries fuel offset (at + packet_size) (i + 1) (drop rest packet_size)
                (sent ++ (packet (offset + at) i false (take rest packet_size) ∷ [])) (omega arith)
                (omega arith) (omega arith))
        | inr e ↦
            let few : length rest ≤ packet_size = ground arith in
            let onward = send_last-Carries offset at i rest sent some_left few small in
            rw (send_packets, e) onward
      ]

  -- A block that has bytes is sent from an offset on, when the stream has no error.
  pub send_block-Carries :
      (offset : ℕ) (block : Text)
      → 0 < length block
      → offset + length block < 2 ^ 64
      → (ps : List Packet) × (send_block had_error offset block ≡ (true, ps))
        × Carries offset 0 block ps
  unfolding send_block
  send_block-Carries offset block some_bytes small =
      let start : offset + 0 ≡ offset = omega arith in
      let (ps, run, carried) =
        send_packets-Carries (length block) offset 0 0 block [] (omega arith) some_bytes
          (omega arith) in
      (ps, run, Carries-from (offset + 0) offset 0 block ps start carried)
