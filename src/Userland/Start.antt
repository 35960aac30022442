-- ===== src/Userland/Start.antt =====
-- Userland/CodeModule/_loader.c: what runs before `main` of the code module.
use so_realtime.Prelude.{
  ℕ, zero, suc, ◌+◌, ◌-◌, ◌%◌, ◌^◌, ◌≤◌, ◌<◌, ◌≡◌, ◌&&◌, leb, ltb, if◌then◌else◌, sub64, arith,
}
use so_realtime.KernelLib.{Bytes, write_byte}

-- `while (length--) dst[length] = chr;` on the rounds left.
unfoldable pub fill_down : ℕ → ℕ → ℕ → Bytes → Bytes
fill_down dst chr zero m = m
fill_down dst chr (suc length) m = fill_down dst chr length (write_byte m (dst + length) chr)

unfoldable pub user_memset : ℕ → ℕ → ℕ → Bytes → Bytes
user_memset destination c length m = fill_down destination (c % 256) length m

-- `_start`, for the addresses of `bss` and `endOfBinary` and for what `main` does with the memory.
unfoldable pub _start {ℓ} : {A : Type ℓ} → ℕ → ℕ → (Bytes → A) → Bytes → A
_start bss end_of_binary main m = main (user_memset bss 0 (sub64 end_of_binary bss) m)

fill_down_lem :
    (dst chr n : ℕ) (m : Bytes) (q : ℕ)
    → fill_down dst chr n m q ≡ (if leb dst q && ltb q (dst + n) then chr else m q)
unfolding fill_down
fill_down_lem dst chr zero m q = ground arith
fill_down_lem dst chr (suc n) m q =
    ground (arith, fill_down_lem dst chr n (write_byte m (dst + n) chr) q)

-- `main` finds 0 in each byte from `bss` up to the end of the binary, and every other byte as it was
-- loaded, if the end is not before `bss` and both are words.
_start_lem :
    (bss end_of_binary : ℕ) (m : Bytes) (q : ℕ)
    → bss ≤ end_of_binary
    → end_of_binary < 2 ^ 64
    → _start bss end_of_binary (λ memory. memory q) m
      ≡ (if leb bss q && ltb q end_of_binary then 0 else m q)
unfolding _start user_memset
_start_lem bss end_of_binary m q h k =
    let size : (end_of_binary + 2 ^ 64 - bss) % 2 ^ 64 ≡ end_of_binary - bss = omega arith in
    rw size (ground (arith, fill_down_lem bss (0 % 256) (end_of_binary - bss) m q))
