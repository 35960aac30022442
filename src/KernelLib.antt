-- ===== src/KernelLib.antt =====
-- Kernel/lib.c: the memory primitives, over a memory that maps addresses to bytes.
pub mod Laws
mod Tests
use so_realtime.Prelude.{
  ℕ, zero, suc, ◌+◌, ◌-◌, ◌*◌, ◌/◌, ◌%◌, ◌^◌, Bool, ◌&&◌, ◌==◌, if◌then◌else◌,
}

abbrev pub Bytes : Type 0
Bytes = ℕ → ℕ

abbrev pub write_byte : Bytes → ℕ → ℕ → Bytes
write_byte m p v q = if p == q then v else m q

-- `while (length--) dst[length] = chr;` The last argument is the number of rounds left.
unfoldable pub memset : Bytes → ℕ → ℕ → ℕ → Bytes
memset m dst c zero = m
memset m dst c (suc n) = memset (write_byte m (dst + n) (c % 256)) dst c n

-- A `uint32_t` is stored with its lowest byte first.
unfoldable pub read_word : Bytes → ℕ → ℕ
read_word m p = m p + 256 * m (p + 1) + 65536 * m (p + 2) + 16777216 * m (p + 3)

unfoldable pub write_word : Bytes → ℕ → ℕ → Bytes
write_word m p v =
    write_byte
      (write_byte (write_byte (write_byte m p (v % 256)) (p + 1) (v / 256 % 256)) (p + 2)
        (v / 65536 % 256))
      (p + 3) (v / 16777216 % 256)

-- The loop of `memcpy` over words, and the one over bytes: `i`, and the rounds left.
unfoldable pub copy_words : Bytes → ℕ → ℕ → ℕ → ℕ → Bytes
copy_words m dst src i zero = m
copy_words m dst src i (suc n) =
    copy_words (write_word m (dst + 4 * i) (read_word m (src + 4 * i))) dst src (i + 1) n

unfoldable pub copy_bytes : Bytes → ℕ → ℕ → ℕ → ℕ → Bytes
copy_bytes m dst src i zero = m
copy_bytes m dst src i (suc n) = copy_bytes (write_byte m (dst + i) (m (src + i))) dst src (i + 1) n

unfoldable pub memcpy : Bytes → ℕ → ℕ → ℕ → Bytes
memcpy m dst src n =
    if dst % 4 == 0 && src % 4 == 0 && n % 4 == 0
    then copy_words m dst src 0 (n / 4)
    else copy_bytes m dst src 0 n

-- The loop of `memsetw` from its last round on. A `short` is two bytes, the low one first.
unfoldable pub memsetw : Bytes → ℕ → ℕ → ℕ → Bytes
memsetw m dest val zero = m
memsetw m dest val (suc n) =
    write_byte (write_byte (memsetw m dest val n) (dest + 2 * n) (val % 256)) (dest + 2 * n + 1)
      (val / 256 % 256)

-- The loop of `memcmp`, on the rounds left; the result is an `int`.
unfoldable pub memcmp : Bytes → ℕ → ℕ → ℕ → ℕ
memcmp m p1 p2 zero = 0
memcmp m p1 p2 (suc n) =
    let rest = memcmp m (p1 + 1) (p2 + 1) n in
    if m p1 == m p2 then rest else (m p1 + 2 ^ 32 - m p2) % 2 ^ 32
