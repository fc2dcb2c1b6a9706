-- ===== src/Client/WriteRead.antt =====
-- read after write, on services that keep what they are given.
use mathlib.Core.Option
use file_system_yfs.Base.{ℕ, ◌^◌, ◌<◌, ◌≡◌, refl, some}
use file_system_yfs.Base.Memory.{Buf}
use file_system_yfs.Base.Text.{Text, length, assign}
use file_system_yfs.Client.Services.{Services, Result}
use file_system_yfs.Client.Content.{write_part}
use file_system_yfs.Client.Content.ReadBack.{read_part-write_part}
use file_system_yfs.Client.Files.{read, write}
use file_system_yfs.Client.Stores.{Stores}

-- The result and data of read, without the state.
abbrev pub answered : {S : Type 0} → S × Result × Text → Result × Text
answered (s, r, bytes) = (r, bytes)

-- On services that keep what they are given, with room for the new content, which is below 4 GB:
-- after write, read of as many bytes at the same offset answers OK and the bytes written.
pub read-write :
    {S : Type 0} (sv : Services S) (Stored : S → ℕ → ℕ → Text → Type 0)
    (Room : S → ℕ → Text → Type 0) (laws : Stores sv Stored Room) (s : S) (inum type size off : ℕ)
    (content old : Text) (bytes : Buf)
    → Stored s inum type content
    → Room s inum (write_part content size off bytes).0
    → length (write_part content size off bytes).0 < 2 ^ 32
    → Option.map answered (read sv (write sv s inum size off bytes).0 inum size off old)
      ≡ some (Result.ok, assign bytes 0 size)
unfolding write read
read-write sv Stored Room laws s inum type size off content old bytes stored room small =
    let start = (laws.acquire_keeps inum).stored s inum type content stored in
    let start_room = (laws.acquire_keeps inum).room s inum _ room in
    let got = (laws.get_keeps _ inum type content start).stored inum type content start in
    let got_room = (laws.get_keeps _ inum type content start).room inum _ start_room in
    let new = (write_part content size off bytes).0 in
    let put = laws.put_stored _ inum type content new got got_room in
    let again =
      (laws.acquire_keeps inum).stored _ inum type new
        (laws.release_keeps inum _ inum type new put) in
    rw
      (
        write,
        laws.get_ok _ inum type content start,
        laws.get_text _ inum type content start,
        read,
        laws.get_ok _ inum type new again,
        laws.get_text _ inum type new again,
        read_part-write_part content size off bytes small,
      )
      refl
