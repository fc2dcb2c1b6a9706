-- ===== src/Client/Content.antt =====
-- The string work of yfs_client::read, yfs_client::write and yfs_client::setattr. Offsets are not
-- negative.
pub mod ReadBack
use file_system_yfs.Base.{
  ℕ, ◌+◌, ◌-◌, ◌%◌, ◌^◌, Option, none, some, ltb, leb, if◌then◌else◌, List, [], ◌∷◌, ◌++◌,
}
use file_system_yfs.Base.Memory.{Buf}
use file_system_yfs.Base.Text.{Text, length, take, drop, zeros, assign}

-- s.resize(size)
unfoldable pub resize : Text → ℕ → Text
resize s size = if leb size (length s) then take s size else s ++ zeros (size - length s)

-- read_content.substr(off); `none` is the exception for an offset behind the end.
unfoldable pub substr : Text → ℕ → Option Text
substr s off = if ltb (length s) off then none else some (drop s off)

-- What read makes of the content.
unfoldable pub read_part : Text → ℕ → ℕ → Option Text
read_part content size off =
    let part =
      if leb (length content % 2 ^ 32) (off % 2 ^ 32) then some [] else substr content off in
    elim part [ none ↦ none | some s ↦ some (if ltb size (length s) then resize s size else s) ]

-- s.replace(off, size, t), for an offset in the string.
unfoldable pub replace : Text → ℕ → ℕ → Text → Text
replace s off size t = take s off ++ (t ++ drop s (off + size))

-- The new content, and bytes_written.
unfoldable pub write_part : Text → ℕ → ℕ → Buf → Text × ℕ
write_part content size off bytes =
    let new_content = assign bytes 0 size in
    if ltb (length content) off
    then ((content ++ zeros (off - length content)) ++ new_content, (off - length content) + size)
    else (replace content off size new_content, size)
