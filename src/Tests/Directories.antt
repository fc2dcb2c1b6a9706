-- ===== src/Tests/Directories.antt =====
-- A directory with the entries ab, b and x.
use file_system_yfs.Base.{◌≡◌, refl, sym, ◌∙◌, arith, List, [], ◌∷◌, none, some}
use file_system_yfs.Base.Text.{Text, length, equal}
use file_system_yfs.Client.Number.{filename, digits}
use file_system_yfs.Client.Directory.{
  Dirent, in_name, read_entries, find_entry, find, starts_with, remove_entry,
}
use file_system_yfs.Client.Directory.Listing.{
  format, entry_text, AreNamed, IsPlain, read_entries-format,
}
use file_system_yfs.Client.Directory.Lookup.{first_named, find_entry-read_entries}
use file_system_yfs.Client.Directory.Erase.{offset, remove_entry-format, remove_entry-wrong}

abbrev pub ab : Dirent
ab = record { name = b'a' ∷ b'b' ∷ []; inum = 2 }

abbrev pub b : Dirent
b = record { name = b'b' ∷ []; inum = 3 }

abbrev pub x : Dirent
x = record { name = b'x' ∷ []; inum = 14 }

abbrev pub entries : List Dirent
entries = ab ∷ b ∷ x ∷ []

pub entries-AreNamed : AreNamed entries
unfolding AreNamed IsPlain
entries-AreNamed = (
  (refl, refl, (refl, refl, tt)),
  omega arith,
  ((refl, refl, tt), omega arith, ((refl, refl, tt), omega arith, tt)),
)

abbrev pub new_name : Text
new_name = b'n' ∷ []

pub new_name-IsPlain : IsPlain new_name
unfolding IsPlain
new_name-IsPlain = (refl, refl, tt)

pub new_name-fresh : first_named new_name entries ≡ none
unfolding first_named equal
new_name-fresh = refl

read_entries-format_example : read_entries (λ t. 0) in_name [] [] (format entries) ≡ entries
read_entries-format_example = read_entries-format (λ t. 0) entries entries-AreNamed

find_entry-read_entries_example :
    find_entry (λ t. 7) new_name in_name [] [] (format entries)
    ≡ first_named new_name (read_entries (λ t. 0) in_name [] [] (format entries))
find_entry-read_entries_example =
    find_entry-read_entries (λ t. 0) (λ t. 7) new_name (format entries)
      (λ f.
        read_entries-format f entries entries-AreNamed
        ∙ sym (read_entries-format (λ t. 0) entries entries-AreNamed))

-- The last entry's name occurs nowhere before it.
x_found : find (format entries) x.name ≡ some (offset (ab ∷ b ∷ []))
unfolding find starts_with format entry_text filename digits offset length
x_found = refl

remove_entry-format_example :
    remove_entry (format entries) x.name x.inum ≡ some (format (ab ∷ b ∷ []))
remove_entry-format_example = remove_entry-format (ab ∷ b ∷ []) x [] entries-AreNamed x_found

b_found : find (format (ab ∷ b ∷ [])) b.name ≡ some 1
unfolding find starts_with format entry_text filename digits
b_found = refl

as_long : length (filename 2) ≡ length (filename 3)
unfolding length filename digits
as_long = refl

remove_entry-wrong_example :
    remove_entry (format (ab ∷ b ∷ [])) b.name b.inum
    ≡ some (format (record { name = ab.name; inum = 3 } ∷ []))
remove_entry-wrong_example = remove_entry-wrong ab b b'a' refl refl as_long b_found
