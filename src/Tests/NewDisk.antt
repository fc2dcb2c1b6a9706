-- ===== src/Tests/NewDisk.antt =====
-- The client on a new disk, through every layer.
use file_system_yfs.Base.{◌≡◌, refl, arith, some, []}
use file_system_yfs.Base.Text.{AreBytes, length}
use file_system_yfs.Inodes
use file_system_yfs.Inodes.{InodeManager}
use file_system_yfs.Client.Names.{create, mkdir}
use file_system_yfs.Client.Stores.{Stores}
use file_system_yfs.Client.Created.{Created}
use file_system_yfs.Client.OnExtent.{Unassigned, StoredText, RoomFor, on_extent, on_extent-Stores}
use file_system_yfs.Client.Root.{create-new_disk}
use file_system_yfs.Tests.Disks.{blank}
use file_system_yfs.Tests.Files.{clock}
use file_system_yfs.Tests.Directories.{new_name, new_name-IsPlain}

abbrev pub unassigned : Unassigned
unassigned = record {
  id = 0;
  attr = record { type = 7; atime = 0; mtime = 0; ctime = 0; size = 7 };
}

on_extent-Stores_example :
    Stores (on_extent (λ k. blank) (λ k. clock) (λ t. 0) unassigned) StoredText RoomFor
on_extent-Stores_example = on_extent-Stores (λ k. blank) (λ k. clock) (λ t. 0) unassigned

new_name-AreBytes : AreBytes new_name
unfolding AreBytes
new_name-AreBytes = (omega arith, tt)

one : length new_name ≡ 1
unfolding length
one = refl

create-new_disk_example :
    (im : InodeManager) × (Inodes.init blank clock ≡ some im)
    × Created (on_extent (λ k. blank) (λ k. clock) (λ t. 0) unassigned) StoredText 1 [] new_name (
        create
          (on_extent (λ k. blank) (λ k. clock) (λ t. 0) unassigned)
          (some (record { im = im; calls = 0 }))
          1
          new_name
          0)
    × Created (on_extent (λ k. blank) (λ k. clock) (λ t. 0) unassigned) StoredText 1 [] new_name (
        mkdir
          (on_extent (λ k. blank) (λ k. clock) (λ t. 0) unassigned)
          (some (record { im = im; calls = 0 }))
          1
          new_name
          0)
create-new_disk_example =
    create-new_disk blank clock (λ k. blank) (λ k. clock) (λ t. 0) unassigned new_name 0
      new_name-IsPlain new_name-AreBytes (omega (arith, one))
