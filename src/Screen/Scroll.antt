-- ===== src/Screen/Scroll.antt =====
-- What `scroll` leaves on the screen.
use so_realtime.Prelude.{
  ℕ, zero, suc, ◌+◌, ◌-◌, ◌*◌, ◌/◌, ◌%◌, ◌≡◌, ◌∙◌, refl, ◌&&◌, leb, ltb, ◌==◌, if◌then◌else◌, inl,
  arith,
}
use so_realtime.KernelLib.{Bytes, memcpy, memsetw}
use so_realtime.KernelLib.Laws.{IsBytes, memcpy_lem}
use so_realtime.Screen.{Screen, scroll}

-- `memsetw` sets the words of its range, low byte first, and no other byte.
pub memsetw_lem :
    (m : Bytes) (dest val n q : ℕ)
    → memsetw m dest val n q ≡ (
        if leb dest q && ltb q (dest + 2 * n)
        then (if (q - dest) % 2 == 0 then val % 256 else val / 256 % 256)
        else m q)
unfolding memsetw
memsetw_lem m dest val zero q = ground arith
memsetw_lem m dest val (suc n) q = ground (arith, memsetw_lem m dest val n q)

-- The screen after a scroll: the first row stays, each other row but the last is what the one below it
-- was, the last row is blanks of attribute 0, and behind the screen nothing changes.
abbrev pub scrolled : Bytes → ℕ → ℕ
scrolled m q =
    if ltb q 160
    then m q
    else if ltb q 3840
    then m (q + 160)
    else if ltb q 4000
    then (if q % 2 == 0 then b' ' else 0)
    else m q

-- In a memory of bytes, `scroll` keeps the first row, moves each other row up by one over the one before
-- it, blanks the last row, and changes nothing behind the screen.
pub scroll_lem : (s : Screen) (q : ℕ) → IsBytes s.video → (scroll s).video q ≡ scrolled s.video q
unfolding scroll
scroll_lem s q b =
    memsetw_lem (memcpy s.video 160 320 3840) 3840 32 80 q
    ∙ ground (arith, memcpy_lem s.video 160 320 3840 q b (inl (omega arith)))

pub scroll_loc : (s : Screen) → (scroll s).current_loc ≡ s.current_loc - 160
unfolding scroll
scroll_loc s = refl
