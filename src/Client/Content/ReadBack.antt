-- ===== src/Client/Content/ReadBack.antt =====
-- What write_part does to the content, and that read_part reads it back.
use file_system_yfs.Base.{
  ℕ, ◌+◌, ◌-◌, ◌%◌, ◌^◌, ◌<◌, ◌≡◌, refl, ◌∙◌, ap, sym, true, false, arith, ltb, leb, Bool-cases,
  inl, inr, ltb→lt, some, if◌then◌else◌, [], ◌++◌,
}
use file_system_yfs.Base.Memory.{Buf}
use file_system_yfs.Base.Text.{Text, length, take, drop, zeros, assign, append-nil, length-append}
use file_system_yfs.Base.Slices.{
  length-zeros, length-assign, length-take, drop-append, take-append, no_length,
}
use file_system_yfs.Client.Content.{resize, substr, read_part, replace, write_part}

-- A text that is cut to the length of its first part.
cut_to_part :
    (part after : Text)
    → (if ltb (length part) (length (part ++ after))
        then resize (part ++ after) (length part)
        else part ++ after)
      ≡ part
unfolding resize
cut_to_part part after =
    let whole = length-append part after in
    elim (Bool-cases (ltb (length part) (length (part ++ after)))) [
      | inl e ↦
          let fits : leb (length part) (length (part ++ after)) ≡ true = ground (arith, whole) in
          rw (e, fits) (take-append part after)
      | inr e ↦
          let nothing : length after ≡ 0 = ground (arith, whole) in
          rw (e, no_length after nothing) (append-nil part)
    ]

-- The part behind `before`, of the length of `part`.
read_middle :
    (before part after : Text)
    → length (before ++ (part ++ after)) < 2 ^ 32
    → read_part (before ++ (part ++ after)) (length part) (length before) ≡ some part
unfolding read_part substr length
read_middle before part after small =
    let text = before ++ (part ++ after) in
    let whole = length-append before (part ++ after) in
    let behind = length-append part after in
    elim (Bool-cases (leb (length text % 2 ^ 32) (length before % 2 ^ 32))) [
      | inl e ↦
          let empty : length part ≡ 0 = ground (arith, whole, behind) in
          rw (read_part, e, no_length part empty) refl
      | inr e ↦
          let inside : ltb (length text) (length before) ≡ false = ground (arith, whole) in
          rw (read_part, e, inside, drop-append before (part ++ after))
            (ap some (cut_to_part part after))
    ]

-- How write lays the content out: what was before the offset, with zeros in a hole, the new bytes, and
-- what was behind them.
pub write_part-parts :
    (content : Text) (size off : ℕ) (bytes : Buf)
    → (before : Text) × (after : Text) × ((write_part content size off bytes).0
        ≡ before ++ (assign bytes 0 size ++ after))
      × (length before ≡ off)
unfolding write_part replace
write_part-parts content size off bytes = elim (Bool-cases (ltb (length content) off)) [
  | inl e ↦ (
    content ++ zeros (off - length content),
    [],
    rw (e, append-nil (assign bytes 0 size)) refl,
    omega (
      arith,
      length-append content (zeros (off - length content)),
      length-zeros (off - length content),
      ltb→lt (length content) off e,
    ),
  )
  | inr e ↦ (
    take content off,
    drop content (off + size),
    rw e refl,
    length-take content off (ground arith),
  )
]

-- What write puts into a content below 4 GB is read back at the same offset.
pub read_part-write_part :
    (content : Text) (size off : ℕ) (bytes : Buf)
    → length (write_part content size off bytes).0 < 2 ^ 32
    → read_part (write_part content size off bytes).0 size off ≡ some (assign bytes 0 size)
read_part-write_part content size off bytes small =
    let (before, after, parts, place) = write_part-parts content size off bytes in
    let long = length-assign bytes 0 size in
    let same = read_middle before (assign bytes 0 size) after (omega (arith, ap length parts)) in
    let text = before ++ (assign bytes 0 size ++ after) in
    ap (λ t. read_part t size off) parts
    ∙ ap (λ n. read_part text n off) (sym long)
    ∙ ap (λ o. read_part text (length (assign bytes 0 size)) o) (sym place)
    ∙ same
