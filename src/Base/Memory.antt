-- ===== src/Base/Memory.antt =====
-- Memory as the C++ code sees it through a `char *`: a cell for each offset, whose byte is the
-- cell's value modulo 256. Cells that nothing wrote hold arbitrary values.
use Prim.Native.Nat.{ℕ, ◌+◌, ◌-◌, ◌*◌, ◌/◌, ◌%◌, ◌^◌, ◌≤◌, ◌<◌}
use mathlib.Core.Path.{◌≡◌}
use mathlib.Core.Logic.{◌≢◌}
use mathlib.Core.Bool.{◌&&◌}
use native.Mathlib.Nat.{add-zero}
use native.Mathlib.Omega.{arith}
use mathlib.Core.Logic.{inl, inr}
use file_system_yfs.Base.Tests.{ltb, leb, ◌==◌, if◌then◌else◌, Bool-cases, ==_iff, le→ltb}

abbrev pub Buf : Type 0
Buf = ℕ → ℕ

-- memcpy(dst + to, src + from, n)
unfoldable pub memcpy : Buf → ℕ → Buf → ℕ → ℕ → Buf
memcpy dst to src from n i = if leb to i && ltb i (to + n) then src (from + (i - to)) else dst i

-- Byte `k` of a little-endian 32-bit word.
unfoldable pub byte_of : ℕ → ℕ → ℕ
byte_of v k =
    if k == 0
    then v % 256
    else if k == 1
    then v / 256 % 256
    else if k == 2
    then v / 65536 % 256
    else v / 16777216 % 256

-- ((uint32_t *) b)[i]
unfoldable pub load_word : Buf → ℕ → ℕ
load_word b i =
    b (4 * i) % 256
    + b (4 * i + 1) % 256 * 256
    + b (4 * i + 2) % 256 * 65536
    + b (4 * i + 3) % 256 * 16777216

-- ((uint32_t *) b)[i] = v
unfoldable pub store_word : Buf → ℕ → ℕ → Buf
store_word b i v k = if k / 4 == i then byte_of v (k % 4) else b k

-- The words of `w` over the first `n` words of `b`.
unfoldable pub store_words : Buf → (ℕ → ℕ) → ℕ → Buf
store_words b w n k = if ltb k (4 * n) then byte_of (w (k / 4)) (k % 4) else b k

-- A copied range reads the source; cells outside it keep their values.
pub memcpy_in :
    (dst : Buf) (to : ℕ) (src : Buf) (from n i : ℕ)
    → i < n
    → memcpy dst to src from n (to + i) ≡ src (from + i)
unfolding memcpy
memcpy_in dst to src from n i h = let e : (to + i) - to ≡ i = omega arith in rw e (ground arith)

pub memcpy_out :
    (dst : Buf) (to : ℕ) (src : Buf) (from n i : ℕ)
    → to + n ≤ i
    → memcpy dst to src from n i ≡ dst i
unfolding memcpy
memcpy_out dst to src from n i h = ground arith

pub memcpy_below :
    (dst : Buf) (to : ℕ) (src : Buf) (from n i : ℕ) → i < to → memcpy dst to src from n i ≡ dst i
unfolding memcpy
memcpy_below dst to src from n i h = ground arith

pub load_word-lt : (b : Buf) (i : ℕ) → load_word b i < 2 ^ 32
unfolding load_word
load_word-lt b i = omega arith

-- A word is what its four cells say.
pub load_word-bytes :
    (b : Buf) (i v : ℕ)
    → b (4 * i) ≡ byte_of v 0
    → b (4 * i + 1) ≡ byte_of v 1
    → b (4 * i + 2) ≡ byte_of v 2
    → b (4 * i + 3) ≡ byte_of v 3
    → load_word b i ≡ v % 2 ^ 32
unfolding load_word byte_of
load_word-bytes b i v h0 h1 h2 h3 = omega arith

load_word-cells :
    (b c : Buf) (i : ℕ)
    → b (4 * i) ≡ c (4 * i)
    → b (4 * i + 1) ≡ c (4 * i + 1)
    → b (4 * i + 2) ≡ c (4 * i + 2)
    → b (4 * i + 3) ≡ c (4 * i + 3)
    → load_word b i ≡ load_word c i
unfolding load_word
load_word-cells b c i h0 h1 h2 h3 = omega arith

pub load_word-same :
    (b c : Buf) (i n : ℕ)
    → ((k : ℕ) → k < n → b k ≡ c k)
    → 4 * i + 3 < n
    → load_word b i ≡ load_word c i
load_word-same b c i n h lt =
    load_word-cells b c i (h _ (omega arith)) (h _ (omega arith)) (h _ (omega arith))
      (h _ (omega arith))

store_words_at :
    (b : Buf) (w : ℕ → ℕ) (n i k : ℕ)
    → i < n
    → k < 4
    → store_words b w n (4 * i + k) ≡ byte_of (w i) k
unfolding store_words
store_words_at b w n i k h hk =
    let d : (4 * i + k) / 4 ≡ i = omega arith in
    let m : (4 * i + k) % 4 ≡ k = omega arith in rw (d, m) (ground arith)

-- Reading back a word of a structure that was stored.
pub load_word-store_words :
    (b : Buf) (w : ℕ → ℕ) (n i : ℕ) → i < n → load_word (store_words b w n) i ≡ w i % 2 ^ 32
load_word-store_words b w n i h =
    load_word-bytes _ i (w i) (rw add-zero at (store_words_at b w n i 0 h (omega arith)))
      (store_words_at b w n i 1 h (omega arith)) (store_words_at b w n i 2 h (omega arith))
      (store_words_at b w n i 3 h (omega arith))

store_word_at : (b : Buf) (i v k : ℕ) → k < 4 → store_word b i v (4 * i + k) ≡ byte_of v k
unfolding store_word
store_word_at b i v k hk =
    let d : (4 * i + k) / 4 ≡ i = omega arith in
    let m : (4 * i + k) % 4 ≡ k = omega arith in rw (d, m) (ground arith)

store_word_off :
    (b : Buf) (i j v k : ℕ) → k < 4 → i ≢ j → store_word b i v (4 * j + k) ≡ b (4 * j + k)
unfolding store_word
store_word_off b i j v k hk ne = ground arith

-- Reading back a stored word, and any other word.
pub load_word-store_word :
    (b : Buf) (i j v : ℕ)
    → load_word (store_word b i v) j ≡ (if i == j then v % 2 ^ 32 else load_word b j)
load_word-store_word b i j v = elim (Bool-cases (i == j)) [
  | inl e ↦ rw (e, (==_iff i j).0 e) (same j)
  | inr e ↦ rw e (other (λ q. ground arith))
]
  where
    same : (i : ℕ) → load_word (store_word b i v) i ≡ v % 2 ^ 32
    same i =
        load_word-bytes _ i v (rw add-zero at (store_word_at b i v 0 (omega arith)))
          (store_word_at b i v 1 (omega arith)) (store_word_at b i v 2 (omega arith))
          (store_word_at b i v 3 (omega arith))

    other : i ≢ j → load_word (store_word b i v) j ≡ load_word b j
    other ne =
        load_word-cells _ b j (rw add-zero at (store_word_off b i j v 0 (omega arith) ne))
          (store_word_off b i j v 1 (omega arith) ne) (store_word_off b i j v 2 (omega arith) ne)
          (store_word_off b i j v 3 (omega arith) ne)

-- Storing below word `n` leaves the words from `n` on.
pub load_word-store_words_out :
    (b : Buf) (w : ℕ → ℕ) (n i : ℕ) → n ≤ i → load_word (store_words b w n) i ≡ load_word b i
load_word-store_words_out b w n i h =
    load_word-cells _ b i (off _ (omega arith)) (off _ (omega arith)) (off _ (omega arith))
      (off _ (omega arith))
  where
    off : (k : ℕ) → 4 * n ≤ k → store_words b w n k ≡ b k
    off k le = unfold store_words in rw (le→ltb k (4 * n) le)
