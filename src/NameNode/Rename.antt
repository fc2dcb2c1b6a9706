-- ===== src/NameNode/Rename.antt =====
-- NameNode::Rename of yfs/namenode.cc, with its edit of the source directory's text.
pub mod Dots
pub mod Cut
pub mod Kept
use mathlib.Core.Option
use file_system_yfs.Base.{
  ℕ, suc, ◌+◌, ◌-◌, ◌%◌, ◌^◌, Bool, true, false, ◌==◌, ltb, if◌then◌else◌, Option, none, some, List,
  [], ◌∷◌,
}
use file_system_yfs.Base.Text.{Text, length, equal}
use file_system_yfs.Client.Services.{Services}
use file_system_yfs.Client.Services
use file_system_yfs.Client.Directory.{Dirent, semicolon, find, erase, add_entry}
use file_system_yfs.Client.Names.{nlock_lookup, nlock_readdir}
use file_system_yfs.NameNode.Paths.{find_from, as_c_str}

-- A position as an unsigned int, with npos where there is none; and the test against npos, which is a
-- size_t.
unfoldable pub as_uint : Option ℕ → ℕ
as_uint none = (2 ^ 64 - 1) % 2 ^ 32
as_uint (some pos) = pos % 2 ^ 32

abbrev pub is_npos : ℕ → Bool
is_npos pos = pos == 2 ^ 64 - 1

-- s.erase(pos, n); `none` is the exception for a position behind the end.
unfoldable pub erase_at : Text → ℕ → ℕ → Option Text
erase_at s pos n = if ltb (length s) pos then none else some (erase s pos n)

-- From the byte before src_begin, or from src_begin when that is 0.
unfoldable pub erase_before : Text → ℕ → ℕ → Option Text
erase_before src_entry src_begin n =
    if src_begin == 0 then erase_at src_entry src_begin n else erase_at src_entry (src_begin - 1) n

-- The source directory's text without the entry; `none` is an exception.
unfoldable pub cut_entry : Text → Text → Option Text
cut_entry src_entry src_name =
    let src_begin = as_uint (find src_entry src_name) in
    let first_dot = as_uint (find_from src_entry semicolon src_begin) in
    let second_dot = as_uint (find_from src_entry semicolon ((first_dot + 1) % 2 ^ 32)) in
    if is_npos src_begin
    then some src_entry
    else if is_npos first_dot
    then some src_entry
    else if is_npos second_dot
    then (if src_begin == 0
        then erase_at src_entry src_begin (length src_entry - src_begin)
        else erase_at src_entry (src_begin - 1) (length src_entry - src_begin + 1))
    else erase_before src_entry src_begin ((second_dot + 2 ^ 32 - src_begin) % 2 ^ 32)

-- The loop that takes the first entry of the name.
unfoldable pub take_entry : Text → List Dirent → Option Dirent
take_entry src_name [] = none
take_entry src_name (e ∷ es) = if equal e.name src_name then some e else take_entry src_name es

module _ {S : Type 0} (sv : Services S) where
  -- The part behind the new source text is computed: both texts are written.
  unfoldable pub move_entry : S → ℕ → Text → ℕ → Text → ℕ → S × Bool
  move_entry st src_dir_ino src_entry dst_dir_ino dst_name inum =
      let (s, r) = sv.put st src_dir_ino src_entry in
      let (s', r', dst_dir) = sv.get s dst_dir_ino in
      if src_dir_ino == dst_dir_ino
      then ((sv.put s dst_dir_ino (add_entry src_entry dst_name inum)).0, true)
      else ((sv.put s' dst_dir_ino (add_entry dst_dir dst_name inum)).0, Services.is_ok r')

  -- Rename; `none` is an exception.
  unfoldable pub rename : S → ℕ → Text → ℕ → Text → Option (S × Bool)
  rename st src_dir_ino src_name dst_dir_ino dst_name =
      let (s, r, src_found, target_inum) =
        nlock_lookup sv st src_dir_ino (as_c_str src_name) false 0 in
      let (s1, r1, src_entry_list) = nlock_readdir sv s src_dir_ino [] in
      let (s2, r2, src_entry) = sv.get s1 src_dir_ino in
      elim src_found [
        | false ↦ some (s, false)
        | true ↦ elim (take_entry src_name src_entry_list) [
          | none ↦ some (s2, false)
          | some e ↦
              Option.map
                (λ src_entry'. move_entry s2 src_dir_ino src_entry' dst_dir_ino dst_name e.inum)
                (cut_entry src_entry src_name)
        ]
      ]
