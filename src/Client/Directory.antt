-- ===== src/Client/Directory.antt =====
-- A directory's contents, "name;number;name;number": the loops of yfs_client::nlock_readdir and
-- yfs_client::nlock_lookup that read them, and the edits of create, mkdir, createlink and unlink.
pub mod Listing
pub mod Lookup
pub mod Erase
use file_system_yfs.Base.{
  ℕ, zero, suc, ◌+◌, ◌-◌, Bool, true, false, ◌&&◌, Option, none, some, ◌==◌, if◌then◌else◌, List,
  [], ◌∷◌, ◌++◌,
}
use file_system_yfs.Base.Text.{Text, length, equal}
use file_system_yfs.Client.Number.{filename, n2i}

-- struct dirent
pub record Dirent : Type 0 where
  pub name : Text
  pub inum : ℕ

-- The loops' states. The third one, CHECK or STORE, is left in the round that enters it.
pub data ReadState : Type 0 where
  in_name in_number : ReadState

abbrev pub semicolon : ℕ
semicolon = b';'

-- nlock_readdir's loop, with the text that is left. After the `;` behind a name, pos+=1 makes the
-- same round look at the next byte; at the end of the text that byte is a zero, which is added to
-- a number that nothing stores. What the variable of n2i holds is given by the text that is left then.
unfoldable pub read_entries : (Text → ℕ) → ReadState → Text → Text → Text → List Dirent
read_entries finum state file_name inode_num [] = []
read_entries finum in_name file_name inode_num (c ∷ s) = elim (c == semicolon) [
  | true ↦ read_entries finum in_number file_name inode_num s
  | false ↦ read_entries finum in_name (file_name ++ (c ∷ [])) inode_num s
]
read_entries finum in_number file_name inode_num (c ∷ []) = elim (c == semicolon) [
  | true ↦ record { name = file_name; inum = n2i (finum []) inode_num } ∷ []
  | false ↦ record { name = file_name; inum = n2i (finum []) (inode_num ++ (c ∷ [])) } ∷ []
]
read_entries finum in_number file_name inode_num (c ∷ d ∷ s) = elim (c == semicolon) [
  | true ↦
      record { name = file_name; inum = n2i (finum (d ∷ s)) inode_num }
      ∷ read_entries finum in_name [] [] (d ∷ s)
  | false ↦ read_entries finum in_number file_name (inode_num ++ (c ∷ [])) (d ∷ s)
]

-- nlock_lookup's loop, which stops at the first entry with the name.
unfoldable pub find_entry : (Text → ℕ) → Text → ReadState → Text → Text → Text → Option ℕ
find_entry finum search_name state file_name inode_num [] = none
find_entry finum search_name in_name file_name inode_num (c ∷ s) = elim (c == semicolon) [
  | true ↦ find_entry finum search_name in_number file_name inode_num s
  | false ↦ find_entry finum search_name in_name (file_name ++ (c ∷ [])) inode_num s
]
find_entry finum search_name in_number file_name inode_num (c ∷ []) =
    elim (equal file_name search_name) [
      | true ↦ some (n2i (finum []) (if c == semicolon then inode_num else inode_num ++ (c ∷ [])))
      | false ↦ none
    ]
find_entry finum search_name in_number file_name inode_num (c ∷ d ∷ s) = elim (c == semicolon) [
  | true ↦ elim (equal file_name search_name) [
    | true ↦ some (n2i (finum (d ∷ s)) inode_num)
    | false ↦ find_entry finum search_name in_name [] [] (d ∷ s)
  ]
  | false ↦ find_entry finum search_name in_number file_name (inode_num ++ (c ∷ [])) (d ∷ s)
]

-- How create, mkdir and createlink add an entry.
unfoldable pub add_entry : Text → Text → ℕ → Text
add_entry dir_list file_name ino =
    if length dir_list == 0
    then file_name ++ (semicolon ∷ filename ino)
    else dir_list ++ (semicolon ∷ file_name ++ (semicolon ∷ filename ino))

unfoldable pub starts_with : Text → Text → Bool
starts_with s [] = true
starts_with [] (c ∷ t) = false
starts_with (d ∷ s) (c ∷ t) = (d == c) && starts_with s t

-- dir_list.find(name); `none` is npos.
unfoldable pub find : Text → Text → Option ℕ
find [] name = if starts_with [] name then some 0 else none
find (c ∷ s) name = elim (starts_with (c ∷ s) name) [
  | true ↦ some 0
  | false ↦ elim (find s name) [ none ↦ none | some pos ↦ some (suc pos) ]
]

-- dir_list.erase(pos, n), for a position in the string.
unfoldable pub erase : Text → ℕ → ℕ → Text
erase [] pos n = []
erase (c ∷ s) zero zero = c ∷ s
erase (c ∷ s) zero (suc n) = erase s zero n
erase (c ∷ s) (suc pos) n = c ∷ erase s pos n

-- if(dir_list[0]=='\0') dir_list="";
unfoldable pub cleared : Text → Text
cleared [] = []
cleared (c ∷ s) = if c == 0 then [] else c ∷ s

-- unlink's edit of the directory's text; `none` is the exception that erase throws for npos.
unfoldable pub remove_entry : Text → Text → ℕ → Option Text
remove_entry dir_list name target_inode = elim (find dir_list name) [
  | none ↦ none
  | some begin_pos ↦
      let target_len = length name + 1 + length (filename target_inode) in
      let ends_here = length dir_list == begin_pos + target_len in
      some (
        cleared (
          if begin_pos == 0 && ends_here
          then erase dir_list begin_pos target_len
          else if ends_here
          then erase dir_list (begin_pos - 1) (target_len + 1)
          else erase dir_list begin_pos (target_len + 1)))
]
