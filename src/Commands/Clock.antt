-- ===== src/Commands/Clock.antt =====
-- Setting the clock and the date by command.
use so_realtime.Prelude.{
  ℕ, ◌^◌, ◌<◌, ◌≡◌, ◌≢◌, inl, inr, refl, false, ◌||◌, Bool-cases, some, List, [], ◌∷◌, All, ltb,
  leb, arith, codes, String, done, Ensures, Ensures-bind,
}
use so_realtime.Rtc.{Chip, time}
use so_realtime.Rtc.RoundTrip.{Keeps, two_digits, time-set_time}
use so_realtime.Syscalls.{stderr, sys_set_time}
use so_realtime.Userland.Strings.{minus_one32}
use so_realtime.Userland.Numbers.{print_dec, is_negative}
use so_realtime.Userland.Stdio.{Written, fprintf, vfprintf}
use so_realtime.Userland.Stdio.Printed.{vfprintf-Ensures}
use so_realtime.Userland.Stdio.Scanned.{sscanf-print_dec}
use so_realtime.Commands.{
  Run, refuse, number_of, parse_number, shows, with_numbers, check_time, _set_time,
}

-- The command fails, and leaves the state as it was.
abbrev pub Refused : {S : Type 0} → S → Written × S → Type 0
Refused s r = (r.0.1 ≡ minus_one32) × (r.1 ≡ s)

pub refuse-Refused :
    {S : Type 0} (message : String) (s : S)
    → All (λ c. c ≢ b'%') (codes message)
    → Ensures (Refused s) (refuse message s)
unfolding refuse fprintf
refuse-Refused message s h =
    Ensures-bind (λ _. Unit {0}) (Refused s) (vfprintf stderr (codes message) []) _
      (λ w d. (refl, refl)) (vfprintf-Ensures stderr (codes message) [] h)

pub shows-Refused :
    {S : Type 0} (text : List ℕ) (s : S) (m : Run S)
    → Ensures (Refused s) m
    → Ensures (Refused s) (shows text m)
unfolding shows
shows-Refused [] s m h = h
shows-Refused (c ∷ cs) s m h = Ensures-bind (Refused s) (Refused s) m _ (λ r d. d) h

pub parse_number-print_dec : (n : ℕ) → n < 2 ^ 32 → parse_number (print_dec n) ≡ done (some n, [])
unfolding parse_number number_of
parse_number-print_dec n h = rw (sscanf-print_dec n h) refl

pub with_numbers-print_dec :
    {S : Type 0} (a b c : ℕ) (next : ℕ → ℕ → ℕ → Run S) (s : S)
    → a < 2 ^ 32
    → b < 2 ^ 32
    → c < 2 ^ 32
    → with_numbers (print_dec a ∷ print_dec b ∷ print_dec c ∷ []) next s ≡ next a b c
unfolding with_numbers shows
with_numbers-print_dec a b c next s ha hb hc =
    rw
      (
        with_numbers,
        parse_number-print_dec a ha,
        parse_number-print_dec b hb,
        parse_number-print_dec c hc,
      )
      refl

-- A time of the day.
abbrev pub IsTime : ℕ → ℕ → ℕ → Type 0
IsTime hour minutes seconds = (hour < 24) × (minutes < 60) × (seconds < 60)

module _ {S : Type 0} (chip : Chip S) (s : S) where
  abbrev pub Shows : List ℕ → Written × S → Type 0
  Shows text r = (r.0 ≡ ([], 1)) × (time chip r.1 ≡ text)

  check_time-valid :
      (keeps : Keeps chip) (h m sec : ℕ)
      → IsTime h m sec
      → Ensures
          (Shows (two_digits h (b':' ∷ two_digits m (b':' ∷ two_digits sec []))))
          (check_time chip s h m sec)
  unfolding check_time sys_set_time
  check_time-valid keeps h m sec (hh, hm, hs) =
      let a : (is_negative sec || leb 60 sec) ≡ false = ground arith in
      let b : (is_negative m || leb 60 m) ≡ false = ground arith in
      let c : (is_negative h || leb 24 h) ≡ false = ground arith in
      let d : (ltb 23 h || ltb 59 m || ltb 59 sec) ≡ false = ground arith in
      rw (a, b, c, d)
        (refl, time-set_time chip keeps h m sec s (omega arith) (omega arith) (omega arith))

  check_time-invalid :
      (h m sec : ℕ) → ¬ IsTime h m sec → Ensures (Refused s) (check_time chip s h m sec)
  unfolding check_time sys_set_time
  check_time-invalid h m sec bad = elim (Bool-cases (is_negative sec || leb 60 sec)) [
    | inl e ↦ rw e (refuse-Refused "Invalid seconds!\n" s (omega arith))
    | inr e ↦ rw e (elim (Bool-cases (is_negative m || leb 60 m)) [
      | inl f ↦ rw f (refuse-Refused "Invalid minutes!\n" s (omega arith))
      | inr f ↦ rw f (elim (Bool-cases (is_negative h || leb 24 h)) [
        | inl g ↦ rw g (refuse-Refused "Invalid hour!\n" s (omega arith))
        | inr g ↦ absurd (bad (ground arith, ground arith, ground arith))
      ])
    ])
  ]

  -- `settime` with the decimal numbers of a time of the day answers 1 and prints nothing, and the clock
  -- then shows that time, on a chip whose registers keep what is written.
  pub _set_time-valid :
      (keeps : Keeps chip) (h m sec : ℕ)
      → IsTime h m sec
      → Ensures
          (Shows (two_digits h (b':' ∷ two_digits m (b':' ∷ two_digits sec []))))
          (_set_time chip (print_dec h ∷ print_dec m ∷ print_dec sec ∷ []) s)
  unfolding _set_time
  _set_time-valid keeps h m sec v =
      rw
        (with_numbers-print_dec h m sec (check_time chip s) s (omega (arith, v.0))
          (omega (arith, v.1)) (omega (arith, v.1)))
        (check_time-valid keeps h m sec v)

  -- `settime` with the decimal numbers of three `int`s that are no time of the day answers -1, and
  -- changes nothing.
  pub _set_time-invalid :
      (h m sec : ℕ)
      → h < 2 ^ 32
      → m < 2 ^ 32
      → sec < 2 ^ 32
      → ¬ IsTime h m sec
      → Ensures (Refused s) (_set_time chip (print_dec h ∷ print_dec m ∷ print_dec sec ∷ []) s)
  unfolding _set_time
  _set_time-invalid h m sec a b c bad =
      rw (with_numbers-print_dec h m sec (check_time chip s) s a b c)
        (check_time-invalid h m sec bad)
