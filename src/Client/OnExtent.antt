-- ===== src/Client/OnExtent.antt =====
-- The extent server as the client's services. One call after the other is made, each with its own
-- clock and new memory; the lock service keeps a state of its own.
use file_system_yfs.Base.{
  true, ℕ, ◌+◌, ◌-◌, ◌^◌, ◌≤◌, ◌<◌, ◌≡◌, refl, ◌∙◌, inl, inr, arith, Option, none, some, ltb, [],
}
use file_system_yfs.Base.Memory.{Buf}
use file_system_yfs.Base.Text.{Text, length, c_str, AreBytes}
use file_system_yfs.Disk.{ndirect, inode_num}
use file_system_yfs.Blocks.{IsFormatted}
use file_system_yfs.Blocks.Free.{free_blocks, free_blocks-same}
use file_system_yfs.Inodes
use file_system_yfs.Inodes.{Inode, Clock, Attr, block_count, alloc_inode, widen}
use file_system_yfs.Inodes.Read.{read_file}
use file_system_yfs.Inodes.Struct.{inode_at, get_inode-cases}
use file_system_yfs.Inodes.Loops.Allocate.{IsFormatted-same}
use file_system_yfs.Inodes.Lifecycle.{alloc_inode-Creates}
use file_system_yfs.Inodes.Holds.{Holds, Holds-read_file}
use file_system_yfs.Inodes.WriteRead.{IsFile, write_file-Holds, write_file-type}
use file_system_yfs.Inodes.Unchanged.{
  Creates-bitmap, Unchanged, Holds-Unchanged, read_file-Unchanged, Creates-Unchanged,
}
use file_system_yfs.Extent
use file_system_yfs.Extent.{ExtentServer, Status, masked, received}
use file_system_yfs.Extent.RoundTrip.{received_text}
use file_system_yfs.Client.Services.{Services}
use file_system_yfs.Client.Stores.{Stores, Keeps, KeepsAt}

-- A server that runs, and the number of calls so far.
pub record Running : Type 0 where
  pub im : ExtentServer
  pub calls : ℕ

-- `none` is a server that a fault or an exception has stopped: every call of it fails.
abbrev pub Served : Type 0
Served = Option Running

-- The extent `id` holds the text as a file of at most NDIRECT blocks.
pub record TextAt (s : Running) (id type : ℕ) (t : Text) : Type 0 where
  pub in_table : masked id < inode_num
  pub rest : Buf
  pub held : Holds s.im (masked id) (c_str rest t) (length t)
  pub kind : (inode_at s.im (masked id)).type ≡ type
  pub short_kind : type < 2 ^ 15
  pub bytes : AreBytes t
  pub direct : block_count (length t) ≤ ndirect

unfoldable pub StoredText : Served → ℕ → ℕ → Text → Type 0
StoredText none id type t = ⊥
StoredText (some s) id type t = TextAt s id type t

-- The disk has room for the text's blocks.
pub record RoomAt (s : Running) (id : ℕ) (t : Text) : Type 0 where
  pub formatted : IsFormatted s.im
  pub bytes : AreBytes t
  pub short : length t < 2 ^ 31
  pub direct : block_count (length t) ≤ ndirect
  pub room : block_count (length t) ≤ free_blocks s.im

unfoldable pub RoomFor : Served → ℕ → Text → Type 0
RoomFor none id t = ⊥
RoomFor (some s) id t = RoomAt s id t

-- What the caller's variables for the answers of create, append_block and getattr hold, which a call that
-- fails leaves as they are.
pub record Unassigned : Type 0 where
  pub id : ℕ
  pub attr : Attr

abbrev pub called : Running → ExtentServer → Running
called s im' = record { im = im'; calls = s.calls + 1 }

direct_short : (n : ℕ) → block_count n ≤ ndirect → n < 2 ^ 31
unfolding block_count
direct_short n h = ground arith

module _ (junk : ℕ → Buf) (now : ℕ → Clock) (finum : Text → ℕ) (left : Unassigned) where
  abbrev pub on_extent : Services Served
  on_extent = record {
    finum = finum;
    create = λ st type. elim st [
      | none ↦ (none, Status.rpcerr, left.id)
      | some s ↦
          let (im', r, id) = Extent.create (junk s.calls) (now s.calls) s.im type in
          (some (called s im'), r, id)
    ];
    get = λ st id. elim st [
      | none ↦ (none, Status.rpcerr, [])
      | some s ↦ elim (Extent.get (junk s.calls) (now s.calls) s.im id) [
        | none ↦ (none, Status.rpcerr, [])
        | some p ↦ (some (called s p.0), p.1, p.2)
      ]
    ];
    put = λ st id buf. elim st [
      | none ↦ (none, Status.rpcerr)
      | some s ↦
          let (im', r) = Extent.put (junk s.calls) (now s.calls) s.im id buf in
          (some (called s im'), r)
    ];
    getattr = λ st id. elim st [
      | none ↦ (none, Status.rpcerr, left.attr)
      | some s ↦
          let (r, a) = Extent.getattr (junk s.calls) (now s.calls) s.im id in
          (some (called s s.im), r, a)
    ];
    remove = λ st id. elim st [
      | none ↦ (none, Status.rpcerr)
      | some s ↦
          let (im', r) = Extent.remove (junk s.calls) (now s.calls) s.im id in
          (some (called s im'), r)
    ];
    acquire = λ st l. st;
    release = λ st l. st;
  }

  -- An operation that leaves the file, the free blocks and the superblock alone.
  TextAt-Unchanged :
      (s s' : Running) (id type : ℕ) (t : Text)
      → Unchanged s.im s'.im (masked id)
      → TextAt s id type t
      → TextAt s' id type t
  TextAt-Unchanged s s' id type t u h = record {
    in_table = h.in_table;
    rest = h.rest;
    held = Holds-Unchanged s.im s'.im (masked id) (c_str h.rest t) (length t) h.direct u h.held;
    kind = u.type ∙ h.kind;
    short_kind = h.short_kind;
    bytes = h.bytes;
    direct = h.direct;
  }

  RoomAt-same :
      (s s' : Running) (id : ℕ) (t : Text)
      → s'.im.sb ≡ s.im.sb
      → s'.im.d 2 ≡ s.im.d 2
      → RoomAt s id t
      → RoomAt s' id t
  RoomAt-same s s' id t sb bitmap r = record {
    formatted = IsFormatted-same sb r.formatted;
    bytes = r.bytes;
    short = r.short;
    direct = r.direct;
    room = omega (arith, free_blocks-same s.im s'.im bitmap, r.room);
  }

  -- What get answers for a file that is held.
  get-TextAt :
      (s : Running) (id type : ℕ) (t : Text)
      → TextAt s id type t
      → Extent.get (junk s.calls) (now s.calls) s.im id
        ≡ some ((read_file (junk s.calls) (now s.calls) s.im (masked id) none 0).0, Status.ok, t)
  unfolding Extent.get
  get-TextAt s id type t h =
      let (size, b, out, same) =
        Holds-read_file (junk s.calls) (now s.calls) s.im (masked id) (c_str h.rest t) (length t)
          none 0 h.in_table h.direct h.held in
      rw
        (
          out,
          size,
          received_text (junk s.calls) (now s.calls) s.im b h.rest t h.bytes same
              (direct_short (length t) h.direct),
        )
        refl

  get-KeepsAt :
      (st : Served) (id type : ℕ) (t : Text)
      → StoredText st id type t
      → KeepsAt StoredText RoomFor st (on_extent.get st id).0
  unfolding StoredText RoomFor
  get-KeepsAt none id type t h = absurd h
  get-KeepsAt (some s) id type t h =
      let f = h.held.formatted in
      let u =
        read_file-Unchanged (junk s.calls) s.im f (now s.calls) (masked id) (masked id) none 0 in
      rw (on_extent, get-TextAt s id type t h)
        (record {
          stored = λ id' type' t' h'.
              TextAt-Unchanged s _ id' type' t'
                (read_file-Unchanged (junk s.calls) s.im f (now s.calls) (masked id) (masked id')
                  none 0)
                h';
          room = λ id' t' r. RoomAt-same s _ id' t' u.superblock u.bitmap r;
        })

  getattr-Keeps : (id : ℕ) → Keeps StoredText RoomFor (λ s. (on_extent.getattr s id).0)
  unfolding StoredText RoomFor
  getattr-Keeps id = record { stored = kept; room = kept_room }
    where
      kept :
          (st : Served) (id' type : ℕ) (t : Text)
          → StoredText st id' type t
          → StoredText (on_extent.getattr st id).0 id' type t
      kept none id' type t h = h
      kept (some s) id' type t h = record {
        in_table = h.in_table;
        rest = h.rest;
        held = h.held;
        kind = h.kind;
        short_kind = h.short_kind;
        bytes = h.bytes;
        direct = h.direct;
      }

      kept_room :
          (st : Served) (id' : ℕ) (t : Text)
          → RoomFor st id' t
          → RoomFor (on_extent.getattr st id).0 id' t
      kept_room none id' t r = r
      kept_room (some s) id' t r = RoomAt-same s _ id' t refl refl r

  create-Keeps : (kind : ℕ) → Keeps StoredText RoomFor (λ s. (on_extent.create s kind).0)
  unfolding StoredText RoomFor Extent.create
  create-Keeps kind = record { stored = kept; room = kept_room }
    where
      kept :
          (st : Served) (id type : ℕ) (t : Text)
          → StoredText st id type t
          → StoredText (on_extent.create st kind).0 id type t
      kept none id type t h = h
      kept (some s) id type t h =
          TextAt-Unchanged s _ id type t
            (Creates-Unchanged s.im kind (masked id) _ h.held.exists
              (alloc_inode-Creates (junk s.calls) (now s.calls) s.im kind h.held.formatted))
            h

      kept_room :
          (st : Served) (id : ℕ) (t : Text)
          → RoomFor st id t
          → RoomFor (on_extent.create st kind).0 id t
      kept_room none id t r = r
      kept_room (some s) id t r =
          let (sb, bitmap, small) =
            Creates-bitmap s.im kind (alloc_inode (junk s.calls) (now s.calls) s.im kind)
              (alloc_inode-Creates (junk s.calls) (now s.calls) s.im kind r.formatted) in
          RoomAt-same s _ id t sb bitmap r

  get_answers :
      (st : Served) (id type : ℕ) (t : Text)
      → StoredText st id type t
      → ((on_extent.get st id).1 ≡ Status.ok) × ((on_extent.get st id).2 ≡ t)
  unfolding StoredText
  get_answers none id type t h = absurd h
  get_answers (some s) id type t h = rw (on_extent, get-TextAt s id type t h) (refl, refl)

  getattr_answers :
      (st : Served) (id type : ℕ) (t : Text)
      → StoredText st id type t
      → ((on_extent.getattr st id).1 ≡ Status.ok) × ((on_extent.getattr st id).2.type ≡ type)
  unfolding StoredText Extent.getattr Inodes.getattr
  getattr_answers none id type t h = absurd h
  getattr_answers (some s) id type t h =
      elim (get_inode-cases (junk s.calls) s.im (masked id) h.held.formatted h.in_table) [
        | inl (e, z) ↦ absurd (h.held.exists z)
        | inr (ino, e, same, _) ↦
            let small : ltb type (2 ^ 15) ≡ true = ground (arith, h.short_kind) in
            (refl, rw (Extent.getattr, Inodes.getattr, e, same.type, h.kind, small) refl)
      ]

  put-StoredText :
      (st : Served) (id type : ℕ) (t t' : Text)
      → StoredText st id type t
      → RoomFor st id t'
      → StoredText (on_extent.put st id t').0 id type t'
  unfolding StoredText RoomFor Extent.put
  put-StoredText none id type t t' h r = h
  put-StoredText (some s) id type t t' h r =
      let j = junk s.calls in
      let clock = now s.calls in
      let file : IsFile s.im (masked id) = record {
        formatted = h.held.formatted;
        in_table = h.in_table;
        exists = h.held.exists;
        direct = rw h.held.size_at h.direct;
        owns = rw h.held.size_at h.held.owns;
      } in
      let small : length t' < 2 ^ 32 = omega (arith, r.short) in
      let room : block_count (length t') - block_count (inode_at s.im (masked id)).size
          ≤ free_blocks s.im =
        omega (arith, r.room) in
      record {
        in_table = h.in_table;
        rest = j;
        held =
            write_file-Holds j clock (masked id) (c_str j t') (length t') s.im file small r.direct
              room;
        kind =
            write_file-type j clock (masked id) (c_str j t') (length t') s.im file small r.direct
              room
            ∙ h.kind;
        short_kind = h.short_kind;
        bytes = r.bytes;
        direct = r.direct;
      }

  create_small :
      (st : Served) (id type : ℕ) (t : Text) (kind : ℕ)
      → StoredText st id type t
      → (on_extent.create st kind).2 < 2 ^ 64
  unfolding StoredText Extent.create
  create_small none id type t kind h = absurd h
  create_small (some s) id type t kind h =
      let (sb, bitmap, small) =
        Creates-bitmap s.im kind (alloc_inode (junk s.calls) (now s.calls) s.im kind)
          (alloc_inode-Creates (junk s.calls) (now s.calls) s.im kind h.held.formatted) in
      omega (arith, small)

  -- The extent server over the inode layer keeps what it is given, for extents of at most 100
  -- blocks on a formatted disk: get answers the text stored, getattr the type, put stores a text
  -- for which there is room, and get, getattr and create leave every stored text and the room as
  -- they were.
  pub on_extent-Stores : Stores on_extent StoredText RoomFor
  on_extent-Stores = record {
    get_ok = λ s id type t h. (get_answers s id type t h).0;
    get_text = λ s id type t h. (get_answers s id type t h).1;
    getattr_ok = λ s id type t h. (getattr_answers s id type t h).0;
    getattr_type = λ s id type t h. (getattr_answers s id type t h).1;
    put_stored = put-StoredText;
    create_small = create_small;
    get_keeps = get-KeepsAt;
    getattr_keeps = getattr-Keeps;
    create_keeps = create-Keeps;
    acquire_keeps = λ l. record { stored = λ s id type t h. h; room = λ s id t r. r };
    release_keeps = λ l s id type t h. h;
  }
