-- ===== src/DataNode/Packets/Transfer.antt =====
-- A block that one data node sends and another one writes.
use file_system_yfs.Base.{
  ℕ, zero, suc, ◌+◌, ◌≤◌, ◌<◌, ◌≡◌, ◌≢◌, ◌⊎◌, refl, sym, ap, ◌∙◌, Bool, true, false, Option, none,
  some, Holds, List, [], ◌∷◌, ◌++◌, inl, inr, arith,
}
use file_system_yfs.Base.Memory.{Buf}
use file_system_yfs.Base.Text.{Text, length, take, drop, length-append, AreBytes}
use file_system_yfs.Base.Slices.{
  length-take, length-drop, drop-drop, take-append, drop-append, AreBytes-take, AreBytes-drop,
}
use file_system_yfs.Disk.{block_size, block_num}
use file_system_yfs.Inodes.{Clock}
use file_system_yfs.Extent.{ExtentServer}
use file_system_yfs.DataNode.{read_block, write_block}
use file_system_yfs.DataNode.Parts.{content, content-length, content-AreBytes, read_block_inside}
use file_system_yfs.DataNode.RoundTrip.{read_block-write_block}
use file_system_yfs.DataNode.Packets.{Packet, packet, send_block, receive_packets}
use file_system_yfs.DataNode.Packets.Streams.{Carries, ends, goes_on, send_block-Carries}

take_sum : (s : Text) (m n : ℕ) → take s (m + n) ≡ take s m ++ take (drop s m) n
unfolding take drop
take_sum [] zero zero = refl
take_sum [] zero (suc n) = refl
take_sum (c ∷ s) zero n = let e : 0 + n ≡ n = omega arith in rw e refl
take_sum [] (suc m) zero = refl
take_sum [] (suc m) (suc n) = refl
take_sum (c ∷ s) (suc m) n =
    let e : suc m + n ≡ suc (m + n) = omega arith in rw e (ap (λ x. c ∷ x) (take_sum s m n))

AreBytes-first : (s t : Text) → AreBytes (s ++ t) → AreBytes s
AreBytes-first s t bytes = rw (← take-append s t) (AreBytes-take (s ++ t) (length s) bytes)

AreBytes-second : (s t : Text) → AreBytes (s ++ t) → AreBytes t
AreBytes-second s t bytes = rw (← drop-append s t) (AreBytes-drop (s ++ t) (length s) bytes)

Holds-bind :
    {A B : Type 0} (P : A → Type 0) (Q : B → Type 0) (f : A → Option B) (o : Option A)
    → Holds P o
    → ((a : A) → P a → Holds Q (f a))
    → Holds Q (elim o [ none ↦ none | some a ↦ f a ])
unfolding Holds
Holds-bind P Q f none h each = h
Holds-bind P Q f (some a) h each = each a h

Holds_weaken :
    {A : Type 0} (P Q : A → Type 0) (o : Option A) → ((a : A) → P a → Q a) → Holds P o → Holds Q o
unfolding Holds
Holds_weaken P Q none each h = h
Holds_weaken P Q (some a) each h = each a h

some_inj : (s t : Text) → some s ≡ some t → s ≡ t
some_inj s t e = cc

module _ (junk : Buf) (now : Clock) (bid : ℕ) where
  -- On `im'` the block has `s` at `offset`, and every other part of it and of the others is as on `im`.
  unfoldable pub HasPart : ExtentServer → ℕ → Text → ExtentServer → Type 0
  HasPart im offset s im' =
      (read_block junk now im' bid offset (length s) ≡ some s)
      × ((other o l : ℕ)
          → o + l ≤ block_size
          → (other ≢ bid) ⊎ ((o + l ≤ offset) ⊎ (offset + length s ≤ o))
          → read_block junk now im' other o l ≡ read_block junk now im other o l)

  read_block_joined :
      (im : ExtentServer) (offset m n : ℕ) (s t : Text)
      → offset + (m + n) ≤ block_size
      → read_block junk now im bid offset m ≡ some s
      → read_block junk now im bid (offset + m) n ≡ some t
      → read_block junk now im bid offset (m + n) ≡ some (s ++ t)
  read_block_joined im offset m n s t fits first second =
      let c = content junk now im bid in
      let first' : take (drop c offset) m ≡ s =
        some_inj _ s (sym (read_block_inside junk now im bid offset m (omega arith)) ∙ first) in
      let second' : take (drop c (offset + m)) n ≡ t =
        some_inj _ t
          (sym (read_block_inside junk now im bid (offset + m) n (omega arith)) ∙ second) in
      rw
        (
          read_block_inside junk now im bid offset (m + n) (omega arith),
          take_sum (drop c offset) m n,
          drop-drop c offset m,
          first',
          second',
        )
        refl

  -- Two parts, one behind the other.
  HasPart-append :
      (im im1 im2 : ExtentServer) (offset : ℕ) (s t : Text)
      → offset + (length s + length t) ≤ block_size
      → HasPart im offset s im1
      → HasPart im1 (offset + length s) t im2
      → HasPart im offset (s ++ t) im2
  unfolding HasPart
  HasPart-append im im1 im2 offset s t fits (here, rest) (here', rest') =
      let size = length-append s t in
      let kept_first : read_block junk now im2 bid offset (length s) ≡ some s =
        rest' bid offset (length s) (omega arith) (inr (inl (omega arith))) ∙ here in
      (
        rw size (read_block_joined im2 offset (length s) (length t) s t fits kept_first here'),
        λ other o l inside apart.
            rest' other o l inside (elim apart [
              | inl ne ↦ inl ne
              | inr (inl h) ↦ inr (inl (omega arith))
              | inr (inr h) ↦ inr (inr (omega (arith, size)))
            ])
            ∙ rest other o l inside (elim apart [
              | inl ne ↦ inl ne
              | inr (inl h) ↦ inr (inl h)
              | inr (inr h) ↦ inr (inr (omega (arith, size)))
            ]),
      )

  -- One packet's bytes are written.
  HasPart-write_block :
      (im : ExtentServer) (offset : ℕ) (s : Text)
      → bid < block_num
      → offset + length s ≤ block_size
      → AreBytes s
      → Holds (HasPart im offset s) (write_block junk now im bid offset (length s) s)
  unfolding HasPart
  HasPart-write_block im offset s exists fits bytes =
      read_block-write_block junk now im bid offset (length s) s exists refl fits bytes

  receive_packets-Carries :
      (offset i : ℕ) (s : Text) (ps : List Packet) (im : ExtentServer)
      → bid < block_num
      → offset + length s ≤ block_size
      → AreBytes s
      → Carries offset i s ps
      → Holds (λ r. (r.0 ≡ true) × HasPart im offset s r.1) (receive_packets junk now bid im ps)
  unfolding receive_packets packet
  receive_packets-Carries offset i _ _ im exists fits bytes (ends _ _) =
      Holds-bind (HasPart im offset []) _ _ _ (HasPart-write_block im offset [] exists fits bytes)
        (λ im' part. unfold Holds in (refl, part))
  receive_packets-Carries offset i s _ im exists fits bytes
        (goes_on _ _ part rest _ later e some_bytes few carried) =
      let size : length s ≡ length part + length rest = ap length e ∙ length-append part rest in
      let joined : AreBytes (part ++ rest) = rw (← e) bytes in
      Holds-bind (HasPart im offset part) _ _ _
        (HasPart-write_block im offset part exists (omega (arith, size))
          (AreBytes-first part rest joined))
        (λ im1 first.
          Holds_weaken (λ r. (r.0 ≡ true) × HasPart im1 (offset + length part) rest r.1)
            (λ r. (r.0 ≡ true) × HasPart im offset s r.1) _
            (λ (ok, im2) (done, second). (
              done,
              rw e (HasPart-append im im1 im2 offset part rest (omega (arith, size)) first second),
            ))
            (receive_packets-Carries (offset + length part) (i + 1) rest later im1 exists
              (omega (arith, size)) (AreBytes-second part rest joined) carried))

  module _ (junk0 : Buf) (now0 : Clock) (im0 : ExtentServer) (bid0 offset len : ℕ)
      (had_error : List Packet → Bool) where
    -- What the first data node reads, which block it is read from left open.
    received :
        (im : ExtentServer) (other o l : ℕ) (block : Text)
        → length block ≡ len
        → AreBytes block
        → bid < block_num
        → offset + len ≤ block_size
        → o + l ≤ block_size
        → (other ≢ bid) ⊎ ((o + l ≤ offset) ⊎ (offset + len ≤ o))
        → (ps : List Packet) × (send_block had_error offset block ≡ (true, ps))
          × Carries offset 0 block ps
        → Holds
            (λ block.
              let (ok, ps) = send_block had_error offset block in
              (ok ≡ true)
              × Holds
                  (λ r.
                    (r.0 ≡ true)
                    × (read_block junk now r.1 bid offset len ≡ some block)
                    × (read_block junk now r.1 other o l ≡ read_block junk now im other o l))
                  (receive_packets junk now bid im ps))
            (some block)
    unfolding HasPart
    received im other o l block size bytes exists fits inside apart (ps, sent, carried) =
        unfold Holds in
        rw sent (
          refl,
          Holds_weaken (λ r. (r.0 ≡ true) × HasPart im offset block r.1)
              (λ r.
                (r.0 ≡ true)
                × (read_block junk now r.1 bid offset len ≡ some block)
                × (read_block junk now r.1 other o l ≡ read_block junk now im other o l))
              (receive_packets junk now bid im ps)
              (λ (ok, im') (done, (here, rest)).
                (done, rw (← size) here, rest other o l inside (rw size apart)))
              (receive_packets-Carries offset 0 block ps im exists (omega (arith, size)) bytes
                carried),
        )

    -- A part of a block, with at least one byte, is read at one data node and sent, on a stream
    -- without errors, to another one as a write of a block that exists there. Both succeed; then
    -- the other data node reads this part of its block as the first one, and any part beside it,
    -- or of another block, as before.
    pub receive_packets-send_block :
        (im : ExtentServer) (other o l : ℕ)
        → ((ps : List Packet) → had_error ps ≡ false)
        → bid < block_num
        → 0 < len
        → offset + len ≤ block_size
        → o + l ≤ block_size
        → (other ≢ bid) ⊎ ((o + l ≤ offset) ⊎ (offset + len ≤ o))
        → Holds
            (λ block.
              let (ok, ps) = send_block had_error offset block in
              (ok ≡ true)
              × Holds
                  (λ r.
                    (r.0 ≡ true)
                    × (read_block junk now r.1 bid offset len ≡ some block)
                    × (read_block junk now r.1 other o l ≡ read_block junk now im other o l))
                  (receive_packets junk now bid im ps))
            (read_block junk0 now0 im0 bid0 offset len)
    receive_packets-send_block im other o l no_error exists some_bytes fits inside apart =
        let c = content junk0 now0 im0 bid0 in
        let block = take (drop c offset) len in
        let whole = content-length junk0 now0 im0 bid0 in
        let behind = length-drop c offset in
        let size : length block ≡ len =
          length-take (drop c offset) len (omega (arith, whole, behind)) in
        let bytes =
          AreBytes-take (drop c offset) len
            (AreBytes-drop c offset (content-AreBytes junk0 now0 im0 bid0)) in
        rw (read_block_inside junk0 now0 im0 bid0 offset len (omega arith)) (
          received im other o l block size bytes exists fits inside apart (
            send_block-Carries had_error no_error offset block (omega (arith, size))
              (omega (arith, size))))
