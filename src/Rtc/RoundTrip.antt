-- ===== src/Rtc/RoundTrip.antt =====
-- What the clock shows of what was set.
use so_realtime.Prelude.{
  ℕ, ◌+◌, ◌/◌, ◌%◌, ◌<◌, ◌≡◌, ◌≢◌, refl, ◌^◌, ◌-◌, ◌≤◌, false, if◌then◌else◌, Bool-cases, inl, inr,
  ltb, true, List, [], ◌∷◌, arith,
}
use so_realtime.Rtc.{
  Chip, seconds_register, minutes_register, hours_register, day_register, month_register,
  year_register, bcd2bin, bin2bcd, char_to_int, tens, units, get_time, time, date, set_time,
  set_date,
}

-- A register keeps the low byte of what was written to it, and a write changes no other register. The
-- clock is taken not to tick between.
pub record Stores {S : Type 0} (read : ℕ → S → ℕ) (write : ℕ → ℕ → S → S) : Type 0 where
  pub same : (r v : ℕ) (s : S) → read r (write r v s) ≡ v % 256
  pub other : (r q v : ℕ) (s : S) → r ≢ q → read r (write q v s) ≡ read r s

-- That holds for writes of bytes and of words.
pub record Keeps {S : Type 0} (chip : Chip S) : Type 0 where
  pub bytes : Stores chip.read_register chip.write_register
  pub words : Stores chip.read_register chip.write_register_word

-- Below 80 the coded byte decodes to the number.
pub bcd2bin-bin2bcd : (n : ℕ) → n < 80 → bcd2bin (char_to_int (bin2bcd n % 256)) ≡ n
bcd2bin-bin2bcd n h =
    let small : ltb (bin2bcd n % 256 % 256) 128 ≡ true = ground arith in
    let plus : ltb (bin2bcd n % 256 % 256) (2 ^ 31) ≡ true = ground arith in
    rw (small, plus) (omega arith)

-- The two digits of a number below 100.
abbrev pub two_digits : ℕ → List ℕ → List ℕ
two_digits n rest = (n / 10 + b'0') ∷ (n % 10 + b'0') ∷ rest

tens-eq : (n : ℕ) → n < 100 → tens n ≡ n / 10 + b'0'
tens-eq n h = let plus : ltb n (2 ^ 31) ≡ true = ground arith in rw plus (omega arith)

units-eq : (n : ℕ) → n < 100 → units n ≡ n % 10 + b'0'
units-eq n h = let plus : ltb n (2 ^ 31) ≡ true = ground arith in rw plus refl

-- The two characters that `date` shows for a year below 100. The byte of a year from 80 on is negative as a
-- `char`.
abbrev pub year_digits : ℕ → List ℕ
year_digits y =
    if ltb y 80 then two_digits y [] else (b'0' - (160 - y) / 10) ∷ (b'0' - (160 - y) % 10) ∷ []

bcd2bin-negative :
    (n : ℕ) → 80 ≤ n → n < 100 → bcd2bin (char_to_int (bin2bcd n % 256)) ≡ 2 ^ 32 - (160 - n)
bcd2bin-negative n h k =
    let large : ltb (bin2bcd n % 256 % 256) 128 ≡ false = ground arith in
    let minus : ltb (bin2bcd n % 256 % 256 + (2 ^ 32 - 256)) (2 ^ 31) ≡ false = ground arith in
    rw (large, minus) (omega arith)

-- What `date` makes of the byte of a year.
year_shown :
    (y : ℕ)
    → y < 100
    → let v = bcd2bin (char_to_int (bin2bcd y % 256)) in tens v ∷ units v ∷ [] ≡ year_digits y
year_shown y h = elim (Bool-cases (ltb y 80)) [
  | inl early ↦
      rw
        (early, bcd2bin-bin2bcd y (ground arith), tens-eq y (omega arith), units-eq y (omega arith))
        refl
  | inr late ↦
      let minus : ltb (2 ^ 32 - (160 - y)) (2 ^ 31) ≡ false = ground arith in
      let back : 2 ^ 32 - (2 ^ 32 - (160 - y)) ≡ 160 - y = omega arith in
      let small : (160 - y) / 10 % 10 ≡ (160 - y) / 10 = ground arith in
      rw (late, bcd2bin-negative y (ground arith) h, minus, back, small) refl
]

module _ {S : Type 0} (read : ℕ → S → ℕ) (write : ℕ → ℕ → S → S) (keeps : Stores read write) where
  -- The register written first of three, second and last.
  read_first :
      (a b c va vb vc : ℕ) (s : S)
      → a ≢ b
      → a ≢ c
      → read a (write c vc (write b vb (write a va s))) ≡ va % 256
  read_first a b c va vb vc s ab ac = rw (keeps.other a c vc, keeps.other a b vb, keeps.same a va)

  read_second : (b c vb vc : ℕ) (s : S) → b ≢ c → read b (write c vc (write b vb s)) ≡ vb % 256
  read_second b c vb vc s bc = rw (keeps.other b c vc, keeps.same b vb)

  read_other :
      (r a b c va vb vc : ℕ) (s : S)
      → r ≢ a
      → r ≢ b
      → r ≢ c
      → read r (write c vc (write b vb (write a va s))) ≡ read r s
  read_other r a b c va vb vc s ra rb rc =
      rw (keeps.other r c vc _ rc, keeps.other r b vb _ rb, keeps.other r a va _ ra)

module _ {S : Type 0} (chip : Chip S) (keeps : Keeps chip) where
  -- On a chip whose registers keep what is written, `time` after `set_time` shows the hours, minutes and
  -- seconds that were set, as two digits each, if they are below 80.
  pub time-set_time :
      (h m sec : ℕ) (s : S)
      → h < 80
      → m < 80
      → sec < 80
      → time chip (set_time chip h m sec s)
        ≡ two_digits h (b':' ∷ two_digits m (b':' ∷ two_digits sec []))
  unfolding time set_time get_time
  time-set_time h m sec s hh hm hs =
      let e0 =
        read_first chip.read_register chip.write_register_word keeps.words hours_register
          minutes_register seconds_register (bin2bcd h) (bin2bcd m) (bin2bcd sec) s (omega arith)
          (omega arith) in
      let e1 =
        read_second chip.read_register chip.write_register_word keeps.words minutes_register
          seconds_register (bin2bcd m) (bin2bcd sec)
          (chip.write_register_word hours_register (bin2bcd h) s) (omega arith) in
      let e2 = keeps.words.same seconds_register (bin2bcd sec) (
        chip.write_register_word minutes_register (bin2bcd m)
          (chip.write_register_word hours_register (bin2bcd h) s)) in
      rw
        (
          e0,
          e1,
          e2,
          bcd2bin-bin2bcd h hh,
          bcd2bin-bin2bcd m hm,
          bcd2bin-bin2bcd sec hs,
          tens-eq h (omega arith),
          units-eq h (omega arith),
          tens-eq m (omega arith),
          units-eq m (omega arith),
          tens-eq sec (omega arith),
          units-eq sec (omega arith),
        )
        refl

  -- On a chip whose registers keep what is written, `date` after `set_date` of a day and a month below
  -- 80 and a year below 100 shows the day and the month as two digits, then "20", and the year as two digits
  -- if it is below 80; from 80 on it shows the characters that lie before '0' by the digits of 160 less the
  -- year.
  pub date-set_date :
      (d m y : ℕ) (s : S)
      → d < 80
      → m < 80
      → y < 100
      → date chip (set_date chip d m y s)
        ≡ two_digits d (b'/' ∷ two_digits m (b'/' ∷ b'2' ∷ b'0' ∷ year_digits y))
  unfolding date set_date get_time
  date-set_date d m y s hd hm hy =
      let e0 =
        read_first chip.read_register chip.write_register keeps.bytes day_register month_register
          year_register (bin2bcd d) (bin2bcd m) (bin2bcd y) s (omega arith) (omega arith) in
      let e1 =
        read_second chip.read_register chip.write_register keeps.bytes month_register year_register
          (bin2bcd m) (bin2bcd y) (chip.write_register day_register (bin2bcd d) s) (omega arith) in
      let e2 = keeps.bytes.same year_register (bin2bcd y) (
        chip.write_register month_register (bin2bcd m)
          (chip.write_register day_register (bin2bcd d) s)) in
      rw
        (
          e0,
          e1,
          e2,
          bcd2bin-bin2bcd d hd,
          bcd2bin-bin2bcd m hm,
          tens-eq d (omega arith),
          units-eq d (omega arith),
          tens-eq m (omega arith),
          units-eq m (omega arith),
          year_shown y hy,
        )
        refl

  -- On a chip whose registers keep what is written, `set_date` leaves the time as it was.
  pub time-set_date : (d m y : ℕ) (s : S) → time chip (set_date chip d m y s) ≡ time chip s
  unfolding time set_date get_time
  time-set_date d m y s =
      let out = λ (r : ℕ) (h : r < 7).
        read_other chip.read_register chip.write_register keeps.bytes r day_register month_register
          year_register (bin2bcd d) (bin2bcd m) (bin2bcd y) s (omega arith) (omega arith)
          (omega arith) in
      rw
        (
          out hours_register (omega arith),
          out minutes_register (omega arith),
          out seconds_register (omega arith),
        )
        refl
