-- ===== src/Syscalls/Output.antt =====
-- What the calls that write and set do.
use so_realtime.Prelude.{
  ℕ, zero, suc, ◌+◌, ◌-◌, ◌%◌, ◌^◌, ◌<◌, ◌≡◌, ◌⊎◌, inl, inr, refl, ap, some, List, [], ◌∷◌, length,
  take, ltb, ◌||◌, Bool-cases, minus_one, arith,
}
use so_realtime.Rtc.{Chip, time}
use so_realtime.Rtc.RoundTrip.{Keeps, two_digits, time-set_time}
use so_realtime.Syscalls.{stdout, light_grey, write_from, sys_write, sys_set_time}

-- The loop ends with `len` below 0, or with what is left over behind the end of the buffer.
write_from_lem :
    (len : ℕ) (buffer : List ℕ)
    → ((write_from len buffer).0 ≡ take len buffer)
      × ((((write_from len buffer).1 ≡ minus_one) × (length (take len buffer) ≡ len))
          ⊎ ((write_from len buffer).1 + 1 + length (take len buffer) ≡ len))
unfolding write_from
write_from_lem zero buffer = (refl, inl (refl, refl))
write_from_lem (suc len) [] = (refl, inr (omega arith))
write_from_lem (suc len) (c ∷ cs) =
    let (e, k) = write_from_lem len cs in
    (ap (λ xs. c ∷ xs) e, elim k [ inl (a, b) ↦ inl (a, omega arith) | inr a ↦ inr (omega arith) ])

-- `sys_write` to STDOUT of a size below 2^31 puts the first characters of the buffer on the screen in
-- grey, as many as the size or as there are before the first 0, and answers their number.
pub sys_write_lem :
    (buffer : List ℕ) (size : ℕ)
    → size < 2 ^ 31
    → sys_write stdout buffer size
      ≡ (some (light_grey, take size buffer), length (take size buffer))
unfolding sys_write
sys_write_lem buffer size h =
    let (e, k) = write_from_lem size buffer in
    let count : (size + 2 ^ 64 - (write_from size buffer).1 + 2 ^ 64 - 1) % 2 ^ 64
        ≡ length (take size buffer) =
      elim k [ inl (a, b) ↦ omega arith | inr a ↦ omega arith ] in
    rw (count, e) refl

-- On a chip whose registers keep what is written, `sys_set_time` either answers 0 and leaves the chip as
-- it is, or answers 1 and the clock shows the time that was set.
pub sys_set_time_lem :
    {S : Type 0} (chip : Chip S) (keeps : Keeps chip) (h m sec : ℕ) (s : S)
    → let (ok, s') = sys_set_time chip h m sec s in
      ((ok ≡ 0) × (s' ≡ s))
      ⊎ ((ok ≡ 1) × (time chip s' ≡ two_digits h (b':' ∷ two_digits m (b':' ∷ two_digits sec []))))
unfolding sys_set_time
sys_set_time_lem chip keeps h m sec s = elim (Bool-cases (ltb 23 h || ltb 59 m || ltb 59 sec)) [
  | inl bad ↦ rw bad (inl (refl, refl))
  | inr good ↦
      rw good (
        inr (refl, time-set_time chip keeps h m sec s (ground arith) (ground arith) (ground arith)))
]
