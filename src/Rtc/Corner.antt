-- ===== src/Rtc/Corner.antt =====
-- The clock in the top right corner of the screen.
use so_realtime.Prelude.{
  ℕ, ◌+◌, ◌*◌, ◌≡◌, ◌≢◌, refl, suc, ◌-◌, ◌<◌, ◌^◌, ◌≤◌, ◌&&◌, leb, ltb, get_or, length,
  if◌then◌else◌, Bool-cases, inl, inr, false, List, [], ◌∷◌, All, ◌==◌, arith, codes,
}
use so_realtime.KernelLib.{Bytes}
use so_realtime.Screen.{write_cell, puts_at, puts_from, putchar_at}
use so_realtime.Rtc.{
  Chip, hours_register, minutes_register, seconds_register, bcd2bin, tens, units, get_time, time,
  show_time, hide_time,
}

-- The characters of the last eight cells of the first row.
abbrev pub corner : Bytes → List ℕ
corner m = m 144 ∷ m 146 ∷ m 148 ∷ m 150 ∷ m 152 ∷ m 154 ∷ m 156 ∷ m 158 ∷ []

puts_from-next :
    (ch : ℕ) (str : List ℕ) (attr c : ℕ) (m : Bytes)
    → ch ≢ b'\n'
    → c < 80
    → puts_from (ch ∷ str) attr 0 c m
      ≡ puts_from str attr 0 (c + 1) (write_cell m ((c + 0) * 2) ch attr)
unfolding puts_from putchar_at
puts_from-next ch str attr c m h k =
    let a : (ch == b'\n') ≡ false = ground arith in
    let b : (c == 80) ≡ false = ground arith in
    let d : leb 80 c ≡ false = ground arith in rw (a, b, d) refl

-- A text without line ends that fits the first row is what the cells from column `c` on hold then.
pub puts_from-cell :
    (str : List ℕ) (attr c k : ℕ) (m : Bytes)
    → All (λ x. x ≢ b'\n') str
    → c + length str ≤ 80
    → (puts_from str attr 0 c m).1 (k * 2)
      ≡ (if leb c k && ltb k (c + length str) then get_or str (k - c) 0 else m (k * 2))
unfolding puts_from
puts_from-cell [] attr c k m h fits = ground arith
puts_from-cell (ch ∷ str) attr c k m h fits =
    let next = puts_from-next ch str attr c m h.0 (omega arith) in
    let ih =
      puts_from-cell str attr (c + 1) k (write_cell m ((c + 0) * 2) ch attr) h.1 (omega arith) in
    elim (Bool-cases (ltb c k)) [
      | inl later ↦
          let place : k - c ≡ suc (k - (c + 1)) = ground arith in
          rw (next, ih, place) (ground arith)
      | inr not_later ↦ elim (Bool-cases (c == k)) [
        | inl here ↦ let place : k - c ≡ 0 = ground arith in rw (next, ih, place) (ground arith)
        | inr before ↦ rw (next, ih) (ground arith)
      ]
    ]

corner-puts_at :
    (a b c d e f g h attr : ℕ) (m : Bytes)
    → All (λ x. x ≢ b'\n') (a ∷ b ∷ c ∷ d ∷ e ∷ f ∷ g ∷ h ∷ [])
    → corner (puts_at (a ∷ b ∷ c ∷ d ∷ e ∷ f ∷ g ∷ h ∷ []) attr 0 72 m).1
      ≡ a ∷ b ∷ c ∷ d ∷ e ∷ f ∷ g ∷ h ∷ []
unfolding puts_at
corner-puts_at a b c d e f g h attr m ne =
    let cell =
      λ (k : ℕ). puts_from-cell (a ∷ b ∷ c ∷ d ∷ e ∷ f ∷ g ∷ h ∷ []) attr 72 k m ne (omega arith) in
    rw (cell 72, cell 73, cell 74, cell 75, cell 76, cell 77, cell 78, cell 79) refl

-- No digit is a line end.
tens-ne : (n : ℕ) → tens n ≢ b'\n'
tens-ne n = elim (Bool-cases (ltb n (2 ^ 31))) [
  | inl plus ↦ rw plus (omega arith)
  | inr minus ↦ rw minus (omega arith)
]

units-ne : (n : ℕ) → units n ≢ b'\n'
units-ne n = elim (Bool-cases (ltb n (2 ^ 31))) [
  | inl plus ↦ rw plus (omega arith)
  | inr minus ↦ rw minus (omega arith)
]

-- `show_time` puts the time into the corner, and `hide_time` blanks it.
pub corner-show_time :
    {S : Type 0} (chip : Chip S) (s : S) (m : Bytes) → corner (show_time chip s m) ≡ time chip s
unfolding show_time time
corner-show_time chip s m =
    let hours = bcd2bin (get_time chip hours_register s) in
    let minutes = bcd2bin (get_time chip minutes_register s) in
    let seconds = bcd2bin (get_time chip seconds_register s) in
    let colon : b':' ≢ b'\n' = omega arith in
    corner-puts_at _ _ _ _ _ _ _ _ 2 m (
      tens-ne hours,
      (
        units-ne hours,
        (
          colon,
          (tens-ne minutes, (units-ne minutes, (colon, (tens-ne seconds, (units-ne seconds, tt))))),
        ),
      ),
    )

pub corner-hide_time : (m : Bytes) → corner (hide_time m) ≡ codes "        "
unfolding hide_time
corner-hide_time m = corner-puts_at _ _ _ _ _ _ _ _ 7 m (omega arith)
