-- ===== src/Client/Directory/Listing.antt =====
-- The text of a list of entries, and that readdir reads the list back.
use file_system_yfs.Base.{ℕ, ◌^◌, ◌<◌, ◌≡◌, refl, ap, ◌∙◌, false, arith, ◌==◌, List, [], ◌∷◌, ◌++◌}
use file_system_yfs.Base.Text.{Text, length, append_assoc, append-nil}
use file_system_yfs.Client.Number.{
  filename, n2i, AreDigits, filename-AreDigits, filename-cons, n2i-filename,
}
use file_system_yfs.Client.Directory.{
  Dirent, in_name, in_number, semicolon, read_entries, add_entry,
}

-- The text that a directory with these entries should hold.
unfoldable pub entry_text : Dirent → Text
entry_text e = e.name ++ (semicolon ∷ filename e.inum)

unfoldable pub format : List Dirent → Text
format [] = []
format (e ∷ []) = entry_text e
format (e ∷ e' ∷ es) = entry_text e ++ (semicolon ∷ format (e' ∷ es))

-- No byte is a semicolon or the zero that ends a C string.
unfoldable pub IsPlain : Text → Type 0
IsPlain [] = Unit
IsPlain (c ∷ s) = ((c == semicolon) ≡ false) × ((c == 0) ≡ false) × IsPlain s

-- Names without semicolons, and numbers of 64 bits.
unfoldable pub AreNamed : List Dirent → Type 0
AreNamed [] = Unit
AreNamed (e ∷ es) = IsPlain e.name × (e.inum < 2 ^ 64) × AreNamed es

AreDigits-IsPlain : (s : Text) → AreDigits s → IsPlain s
unfolding AreDigits IsPlain
AreDigits-IsPlain [] all = tt
AreDigits-IsPlain (c ∷ s) (digit, others) = (ground arith, ground arith, AreDigits-IsPlain s others)

pub filename-IsPlain : (inum : ℕ) → IsPlain (filename inum)
filename-IsPlain inum = AreDigits-IsPlain (filename inum) (filename-AreDigits inum)

-- The loop reads a name up to its semicolon.
read_name :
    (finum : Text → ℕ) (name file_name inode_num s : Text)
    → IsPlain name
    → read_entries finum in_name file_name inode_num (name ++ (semicolon ∷ s))
      ≡ read_entries finum in_number (file_name ++ name) inode_num s
unfolding read_entries IsPlain
read_name finum [] file_name inode_num s plain = rw (append-nil file_name) refl
read_name finum (c ∷ name) file_name inode_num s (here, nonzero, later) =
    rw (read_entries, here)
      (read_name finum name (file_name ++ (c ∷ [])) inode_num s later
        ∙ rw (append_assoc file_name (c ∷ []) name) refl)

-- The loop reads the last number up to the end.
read_last_number :
    (finum : Text → ℕ) (num file_name inode_num : Text) (c : ℕ)
    → IsPlain (c ∷ num)
    → read_entries finum in_number file_name inode_num (c ∷ num)
      ≡ record { name = file_name; inum = n2i (finum []) (inode_num ++ (c ∷ num)) } ∷ []
unfolding read_entries IsPlain
read_last_number finum [] file_name inode_num c (here, nonzero, later) =
    rw (read_entries, here) refl
read_last_number finum (d ∷ num) file_name inode_num c (here, nonzero, later) =
    rw (read_entries, here)
      (read_last_number finum num file_name (inode_num ++ (c ∷ [])) d later
        ∙ rw (append_assoc inode_num (c ∷ []) (d ∷ num)) refl)

-- The loop reads another number up to its semicolon.
read_number :
    (finum : Text → ℕ) (num file_name inode_num s : Text) (c d : ℕ)
    → IsPlain (c ∷ num)
    → read_entries finum in_number file_name inode_num ((c ∷ num) ++ (semicolon ∷ d ∷ s))
      ≡ record { name = file_name; inum = n2i (finum (d ∷ s)) (inode_num ++ (c ∷ num)) }
        ∷ read_entries finum in_name [] [] (d ∷ s)
unfolding read_entries IsPlain
read_number finum [] file_name inode_num s c d (here, nonzero, later) = rw (read_entries, here) refl
read_number finum (c' ∷ num) file_name inode_num s c d (here, nonzero, later) =
    rw (read_entries, here)
      (read_number finum num file_name (inode_num ++ (c ∷ [])) s c' d later
        ∙ rw (append_assoc inode_num (c ∷ []) (c' ∷ num)) refl)

-- The loop reads one entry, at the end of the text or before another one.
read_entry_last :
    (finum : Text → ℕ) (file_name num : Text)
    → ((c : ℕ) × (u : Text) × (num ≡ c ∷ u))
    → IsPlain file_name
    → IsPlain num
    → read_entries finum in_name [] [] (file_name ++ (semicolon ∷ num))
      ≡ record { name = file_name; inum = n2i (finum []) num } ∷ []
read_entry_last finum file_name [] (c, u, e) plain number = absurd (ground arith)
read_entry_last finum file_name (c ∷ num) some_digit plain number =
    read_name finum file_name [] [] (c ∷ num) plain
    ∙ read_last_number finum num file_name [] c number

pub read_entry :
    (finum : Text → ℕ) (file_name num s : Text) (d : ℕ)
    → ((c : ℕ) × (u : Text) × (num ≡ c ∷ u))
    → IsPlain file_name
    → IsPlain num
    → read_entries finum in_name [] [] ((file_name ++ (semicolon ∷ num)) ++ (semicolon ∷ d ∷ s))
      ≡ record { name = file_name; inum = n2i (finum (d ∷ s)) num }
        ∷ read_entries finum in_name [] [] (d ∷ s)
read_entry finum file_name [] s d (c, u, e) plain number = absurd (ground arith)
read_entry finum file_name (c ∷ num) s d some_digit plain number =
    rw (append_assoc file_name (semicolon ∷ c ∷ num) (semicolon ∷ d ∷ s)) (
      read_name finum file_name [] [] ((c ∷ num) ++ (semicolon ∷ d ∷ s)) plain
      ∙ read_number finum num file_name [] s c d number)

starts : (s t : Text) (c : ℕ) → (d : ℕ) × (u : Text) × (s ++ (c ∷ t) ≡ d ∷ u)
starts [] t c = (c, t, refl)
starts (d ∷ s) t c = (d, s ++ (c ∷ t), refl)

-- The text of an entry is not empty.
pub format-cons : (e : Dirent) (es : List Dirent) → (d : ℕ) × (s : Text) × (format (e ∷ es) ≡ d ∷ s)
unfolding format entry_text
format-cons e [] = starts e.name (filename e.inum) semicolon
format-cons e (e' ∷ es) =
    rw (append_assoc e.name (semicolon ∷ filename e.inum) (semicolon ∷ format (e' ∷ es)))
      (starts e.name (filename e.inum ++ (semicolon ∷ format (e' ∷ es))) semicolon)

-- For entries whose names have no semicolon and no zero byte and whose numbers have 64 bits,
-- readdir's loop reads from the text of a directory the entries that the text was made of.
pub read_entries-format :
    (finum : Text → ℕ) (es : List Dirent)
    → AreNamed es
    → read_entries finum in_name [] [] (format es) ≡ es
unfolding AreNamed format entry_text read_entries
read_entries-format finum [] named = refl
read_entries-format finum (e ∷ []) (plain, small, others) =
    rw
      (
        read_entry_last finum e.name (filename e.inum) (filename-cons e.inum) plain
            (filename-IsPlain e.inum),
        n2i-filename (finum []) e.inum small,
      )
      refl
read_entries-format finum (e ∷ e' ∷ es) (plain, small, others) =
    let (d, s, same) = format-cons e' es in
    let later = read_entries-format finum (e' ∷ es) others in
    rw
      (
        same,
        read_entry finum e.name (filename e.inum) s d (filename-cons e.inum) plain
            (filename-IsPlain e.inum),
        n2i-filename (finum (d ∷ s)) e.inum small,
        ← same,
        later,
      )
      refl

pub format-append :
    (e : Dirent) (es : List Dirent) (next : Dirent) (others : List Dirent)
    → format ((e ∷ es) ++ (next ∷ others)) ≡ format (e ∷ es) ++ (semicolon ∷ format (next ∷ others))
unfolding format
format-append e [] next others = refl
format-append e (e' ∷ es) next others =
    rw
      (append_assoc (entry_text e) (semicolon ∷ format (e' ∷ es))
        (semicolon ∷ format (next ∷ others)))
      (ap (λ s. entry_text e ++ (semicolon ∷ s)) (format-append e' es next others))

-- Adding an entry to a directory's text gives the text with the entry at its end.
pub add_entry-format :
    (es : List Dirent) (name : Text) (ino : ℕ)
    → add_entry (format es) name ino ≡ format (es ++ (record { name = name; inum = ino } ∷ []))
unfolding add_entry entry_text format length
add_entry-format [] name ino = refl
add_entry-format (e ∷ es) name ino =
    let (d, s, same) = format-cons e es in
    let filled : (length (format (e ∷ es)) == 0) ≡ false = rw (same, length) (ground arith) in
    rw (filled, format-append e es (record { name = name; inum = ino }) []) refl
