-- ===== src/Tests/Renames.antt =====
-- NameNode::Rename's edit of a directory with the entries ab, x and b.
use file_system_yfs.Base.{◌+◌, ◌*◌, ◌%◌, ◌≡◌, refl, [], ◌∷◌, ◌++◌, some, arith}
use file_system_yfs.Base.Text.{length}
use file_system_yfs.Client.Number.{filename, digits, n2i}
use file_system_yfs.Client.Directory.{Dirent, in_name, semicolon, find, starts_with, read_entries}
use file_system_yfs.Client.Directory.Listing.{format, entry_text, IsPlain}
use file_system_yfs.Client.Directory.Erase.{offset}
use file_system_yfs.NameNode.Rename.{cut_entry}
use file_system_yfs.NameNode.Rename.Kept.{cut_entry-last, cut_entry-first, cut_entry-between}
use file_system_yfs.Tests.Directories.{ab, x}

abbrev c : Dirent
c = record { name = b'c' ∷ []; inum = 7 }

x-IsPlain : IsPlain x.name
unfolding IsPlain
x-IsPlain = (refl, refl, tt)

c-IsPlain : IsPlain c.name
unfolding IsPlain
c-IsPlain = (refl, refl, tt)

last_found : find (format ((ab ∷ []) ++ (x ∷ []))) x.name ≡ some (offset (ab ∷ []))
unfolding find starts_with format entry_text filename digits offset length
last_found = refl

last_length : length (format ((ab ∷ []) ++ (x ∷ []))) ≡ 9
unfolding format entry_text filename digits length
last_length = refl

cut_entry-last_example : cut_entry (format ((ab ∷ []) ++ (x ∷ []))) x.name ≡ some (format (ab ∷ []))
cut_entry-last_example =
    cut_entry-last (ab ∷ []) x x-IsPlain last_found (omega (arith, last_length))

first_found : find (format (x ∷ c ∷ [])) x.name ≡ some 0
unfolding find starts_with format entry_text filename digits
first_found = refl

first_length : length (format (x ∷ c ∷ [])) ≡ 8
unfolding format entry_text filename digits length
first_length = refl

cut_entry-first_example :
    (cut_entry (format (x ∷ c ∷ [])) x.name ≡ some (semicolon ∷ format (c ∷ [])))
    × (read_entries (λ t. 0) in_name [] [] (semicolon ∷ format (c ∷ []))
        ≡ record { name = []; inum = n2i 0 c.name }
          ∷ read_entries (λ t. 0) in_name [] [] (filename c.inum))
cut_entry-first_example =
    cut_entry-first (λ t. 0) x c x-IsPlain c-IsPlain (b'c', [], refl) first_found
      (omega (arith, first_length))

between_found :
    find (format (([] ++ (ab ∷ [])) ++ (x ∷ c ∷ []))) x.name ≡ some (offset ([] ++ (ab ∷ [])))
unfolding find starts_with format entry_text filename digits offset length
between_found = refl

between_length : length (format (([] ++ (ab ∷ [])) ++ (x ∷ c ∷ []))) ≡ 13
unfolding format entry_text filename digits length
between_length = refl

-- The number 2 of ab becomes 24.
cut_entry-between_example :
    cut_entry (format (([] ++ (ab ∷ [])) ++ (x ∷ c ∷ []))) x.name
    ≡ some (format (([] ++ (record { name = ab.name; inum = 2 * 10 + 14 % 10 } ∷ [])) ++ (c ∷ [])))
cut_entry-between_example =
    cut_entry-between [] ab x c [] x-IsPlain between_found (omega (arith, between_length))
      (omega arith) (omega arith)
