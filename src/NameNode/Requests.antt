-- ===== src/NameNode/Requests.antt =====
-- The requests of HDFS clients, from yfs/namenode_base.cc, without the messages that carry them. A thrown
-- HdfsException is `none`, and leaves the state as far as it was changed.
pub mod Pending
pub mod Parents
use mathlib.Core.Option
use file_system_yfs.Base.{
  ℕ, zero, suc, ◌+◌, ◌-◌, ◌*◌, ◌%◌, ◌^◌, Bool, true, false, ltb, ◌==◌, if◌then◌else◌, Option, none,
  some, List, [], ◌∷◌,
}
use file_system_yfs.Base.Text.{Text, length, take, drop}
use file_system_yfs.Disk.{block_size}
use file_system_yfs.Client.Services.{Services}
use file_system_yfs.Client.Directory.{Dirent}
use file_system_yfs.Client.Files.{FileInfo, DirInfo}
use file_system_yfs.Client.Names.{lookup}
use file_system_yfs.NameNode.State.{NameNode, set_pending}
use file_system_yfs.NameNode.Blocks
use file_system_yfs.NameNode.Blocks.{BlockServices, LocatedBlock}
use file_system_yfs.NameNode.Paths.{
  slash, find_from, is_ok, is_absolute, as_c_str, recursive_lookup, parent_of, name_of,
}
use file_system_yfs.NameNode.Files
use file_system_yfs.NameNode.Rename.{rename}

-- The directories of PBCreate's and PBMkdirs' path: the inode of the last one, the position of what is
-- left of the path, and whether found is set.
module _ {S : Type 0} (sv : Services S) where
  -- The directory of a component, which createparent makes when it is not found.
  unfoldable pub enter_parent : Bool → S → ℕ → Bool → Text → S × Option (ℕ × Bool)
  enter_parent createparent st ino found component =
      let (s, r, found', ino') = lookup sv st ino (as_c_str component) found ino in
      let (s', made, ino'') = Files.mkdir sv s ino' (as_c_str component) ino' in
      if is_ok r
      then (if found'
          then (s, some (ino', found'))
          else if createparent
          then (if made then (s', some (ino'', found')) else (s', none))
          else (s, none))
      else (s, none)

  -- The loop, with the rounds left, one for each byte of the path and one more.
  unfoldable pub parents : ℕ → Bool → Text → S → ℕ → ℕ → ℕ → Bool → S × Option (ℕ × ℕ)
  parents zero createparent path st pos lastpos ino found = (st, none)
  parents (suc n) createparent path st pos lastpos ino found = elim (find_from path slash pos) [
    | none ↦ (st, some (ino, lastpos))
    | some pos' ↦ elim (pos' == lastpos) [
      | true ↦ parents n createparent path st (pos' + 1) (pos' + 1) ino found
      | false ↦
          let (s, entered) =
            enter_parent createparent st ino found (take (drop path lastpos) (pos' - lastpos)) in
          elim entered [
            | none ↦ (s, none)
            | some p ↦ parents n createparent path s (pos' + 1) (pos' + 1) p.0 p.1
          ]
    ]
  ]

  -- What PBCreate and PBMkdirs do with the directory and the last component.
  unfoldable pub make_at : (S → ℕ → Text → S × Bool × ℕ) → Bool → Text → S → Bool → S × Option ℕ
  make_at make createparent path st found =
      let (s, at) = parents (length path + 1) createparent path st 1 1 1 found in
      if is_absolute path
      then (elim at [
        | none ↦ (s, none)
        | some p ↦
            let (s', made, ino) = make s p.0 (as_c_str (drop path p.1)) in
            if p.1 == length path then (s, none) else if made then (s', some ino) else (s', none)
      ])
      else (st, none)

  -- PBMkdirs
  unfoldable pub pb_mkdirs : Bool → Text → S → Bool → S × Option ℕ
  pb_mkdirs createparent path st found =
      make_at (λ s parent name. Files.mkdir sv s parent name parent) createparent path st found

  -- PBCreate, which begins a pending write; its file status is left out.
  unfoldable pub pb_create : NameNode → Bool → Text → S → Bool → NameNode × S × Option ℕ
  pb_create nn createparent path st found =
      let (s, made) =
        make_at (λ s parent name. Files.create sv s parent name parent) createparent path st
          found in
      elim made [
        | none ↦ (nn, s, none)
        | some ino ↦ elim (nn.pending_write ino) [
          | none ↦ (set_pending nn ino (some 0), s, some ino)
          | some size ↦ (nn, s, some ino)
        ]
      ]

module _ {S : Type 0} (bs : BlockServices S) where
  -- PBAddBlock behind the lookup.
  unfoldable pub add_block : NameNode → S → ℕ → NameNode × S × Option LocatedBlock
  add_block nn st ino = elim (nn.pending_write ino) [
    | none ↦ (nn, st, none)
    | some size ↦
        let (nn', s, block) = Blocks.append_block bs nn st ino in
        (set_pending nn' ino (some ((size + block_size) % 2 ^ 32)), s, some block)
  ]

  -- PBComplete behind the lookup; `last` has the bytes of the last block, if the request has one.
  unfoldable pub new_size : ℕ → Option ℕ → ℕ
  new_size size none = size
  new_size size (some numbytes) = ((size + 2 ^ 32 - block_size) % 2 ^ 32 + numbytes) % 2 ^ 32

  unfoldable pub complete_write : NameNode → S → ℕ → Option ℕ → NameNode × S × Option Bool
  complete_write nn st ino last = elim (nn.pending_write ino) [
    | none ↦ (nn, st, none)
    | some size ↦
        let (s, r) = Blocks.complete bs st ino (new_size size last) in
        if r
        then (set_pending nn ino none, s, some true)
        else (set_pending nn ino (some (new_size size last)), s, none)
  ]
