-- ===== src/Tests/Extents.antt =====
-- The extent server on a new disk.
use file_system_yfs.Base.{◌≡◌, arith, some, [], ◌∷◌}
use file_system_yfs.Base.Text.{Text, AreBytes, length}
use mathlib.Core.Option
use file_system_yfs.Extent.{ExtentServer, Status, get, put}
use file_system_yfs.Extent.RoundTrip.{get-put}
use file_system_yfs.Tests.Disks.{blank}
use file_system_yfs.Tests.Files.{clock, new_disk, new_disk-IsFile, new_disk_room, three}

abbrev abc : Text
abc = b'a' ∷ b'b' ∷ b'c' ∷ []

abc-AreBytes : AreBytes abc
unfolding AreBytes
abc-AreBytes = (omega arith, (omega arith, (omega arith, tt)))

get-put_example :
    Option.map
      (λ (r : ExtentServer × Status × Text). r.2)
      (get blank clock (put blank clock new_disk 1 abc).0 1)
    ≡ some abc
unfolding length
get-put_example =
    get-put blank clock new_disk 1 abc blank clock new_disk-IsFile (omega arith)
      (omega (arith, three)) new_disk_room abc-AreBytes
