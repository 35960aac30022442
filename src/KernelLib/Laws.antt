-- ===== src/KernelLib/Laws.antt =====
-- What `memset` and `memcpy` leave at each address.
use so_realtime.Prelude.{
  ℕ, zero, suc, ◌+◌, ◌-◌, ◌*◌, ◌/◌, ◌%◌, ◌≤◌, ◌<◌, ◌≡◌, ◌⊎◌, ◌&&◌, if◌then◌else◌, arith, ltb, leb,
}
use so_realtime.KernelLib.{
  Bytes, write_byte, memset, read_word, write_word, copy_words, copy_bytes, memcpy,
}

-- `memset` sets the bytes of its range to the low byte of `c`, and no others.
pub memset_lem :
    (m : Bytes) (dst c n q : ℕ)
    → memset m dst c n q ≡ (if leb dst q && ltb q (dst + n) then c % 256 else m q)
unfolding memset
memset_lem m dst c zero q = ground arith
memset_lem m dst c (suc n) q =
    ground (arith, memset_lem (write_byte m (dst + n) (c % 256)) dst c n q)

abbrev pub IsBytes : Bytes → Type 0
IsBytes m = (p : ℕ) → m p < 256

-- The destination lies apart from the source, or does not begin behind it.
abbrev pub Forward : ℕ → ℕ → ℕ → Type 0
Forward dst src n = (dst ≤ src) ⊎ (src + n ≤ dst)

-- What a forward copy of the bytes `[i, i + n)` of a range leaves at `q`.
abbrev copied : Bytes → ℕ → ℕ → ℕ → ℕ → ℕ → ℕ
copied m dst src i n q = if leb (dst + i) q && ltb q (dst + i + n) then m (src + (q - dst)) else m q

copy_bytes_lem :
    (m : Bytes) (dst src i n q : ℕ)
    → Forward dst src (i + n)
    → copy_bytes m dst src i n q ≡ copied m dst src i n q
unfolding copy_bytes
copy_bytes_lem m dst src i zero q h = ground arith
copy_bytes_lem m dst src i (suc n) q h =
    ground (
      arith,
      copy_bytes_lem (write_byte m (dst + i) (m (src + i))) dst src (i + 1) n q (omega arith),
    )

word_bytes :
    (m : Bytes) (p : ℕ)
    → IsBytes m
    → (read_word m p % 256 ≡ m p)
      × (read_word m p / 256 % 256 ≡ m (p + 1))
      × (read_word m p / 65536 % 256 ≡ m (p + 2))
      × (read_word m p / 16777216 % 256 ≡ m (p + 3))
unfolding read_word
word_bytes m p h = omega (arith, h p, h (p + 1), h (p + 2), h (p + 3))

-- A word that is read and written copies its four bytes.
copy_word_lem :
    (m : Bytes) (dst src q : ℕ)
    → IsBytes m
    → write_word m dst (read_word m src) q
      ≡ (if leb dst q && ltb q (dst + 4) then m (src + (q - dst)) else m q)
unfolding write_word
copy_word_lem m dst src q h = ground (arith, word_bytes m src h)

copy_word-IsBytes :
    (m : Bytes) (dst src : ℕ) → IsBytes m → IsBytes (write_word m dst (read_word m src))
unfolding write_word
copy_word-IsBytes m dst src h = λ q. ground (arith, h q)

copy_words_lem :
    (m : Bytes) (dst src i n q : ℕ)
    → IsBytes m
    → Forward dst src (4 * i + 4 * n)
    → copy_words m dst src i n q ≡ copied m dst src (4 * i) (4 * n) q
unfolding copy_words
copy_words_lem m dst src i zero q b h = ground arith
copy_words_lem m dst src i (suc n) q b h =
    let m' = write_word m (dst + 4 * i) (read_word m (src + 4 * i)) in
    ground (
      arith,
      copy_words_lem m' dst src (i + 1) n q (copy_word-IsBytes m (dst + 4 * i) (src + 4 * i) b)
          (omega arith),
      copy_word_lem m (dst + 4 * i) (src + 4 * i) q b,
      copy_word_lem m (dst + 4 * i) (src + 4 * i) (src + (q - dst)) b,
    )

-- In a memory of bytes, a `memcpy` whose destination does not begin inside its source behind the source's
-- first byte makes each byte of the destination the byte of the source that was there before, and changes
-- no other byte.
pub memcpy_lem :
    (m : Bytes) (dst src n q : ℕ)
    → IsBytes m
    → Forward dst src n
    → memcpy m dst src n q ≡ (if leb dst q && ltb q (dst + n) then m (src + (q - dst)) else m q)
unfolding memcpy
memcpy_lem m dst src n q b h =
    ground (arith, copy_words_lem m dst src 0 (n / 4) q b, copy_bytes_lem m dst src 0 n q)
