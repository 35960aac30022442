-- ===== src/Rtc.antt =====
-- Kernel/system/rtc.c: the time and the date, kept by the clock chip in binary-coded decimals. The chip
-- is behind the port functions, which are assembly: it is a state with the two steps of an access, to
-- write a register and to read one. An `int` is a word of 32 bits, negative from 2^31 on.
pub mod RoundTrip
pub mod Corner
use so_realtime.Prelude.{
  ltb, if◌then◌else◌, ◌-◌, true, ℕ, ◌+◌, ◌*◌, ◌/◌, ◌%◌, ◌^◌, List, [], ◌∷◌, codes,
}
use so_realtime.KernelLib.{Bytes}
use so_realtime.Screen.{default_attr, puts_at}

-- The clock chip. `write_register r v` is `write_port(RTC_OUT, r)` with `write_port(RTC_IN, v)` behind it,
-- `write_register_word r v` is the same with `write_port_word`, and `read_register r` is
-- `write_port(RTC_OUT, r)` with the byte that `read_port(RTC_IN)` finds behind it.
pub record Chip (S : Type 0) : Type 0 where
  pub write_register : ℕ → ℕ → S → S
  pub write_register_word : ℕ → ℕ → S → S
  pub read_register : ℕ → S → ℕ

abbrev pub seconds_register : ℕ
seconds_register = 0

abbrev pub minutes_register : ℕ
minutes_register = 2

abbrev pub hours_register : ℕ
hours_register = 4

abbrev pub day_register : ℕ
day_register = 7

abbrev pub month_register : ℕ
month_register = 8

abbrev pub year_register : ℕ
year_register = 9

-- `read_port` answers a `char`, which is negative from 128 on.
abbrev pub char_to_int : ℕ → ℕ
char_to_int c = if ltb (c % 256) 128 then c % 256 else c % 256 + (2 ^ 32 - 256)

-- `BCD2BIN` of an `int`: the shift of a negative one brings in ones.
abbrev pub bcd2bin : ℕ → ℕ
bcd2bin val =
    (val % 16 + (if ltb val (2 ^ 31) then val / 16 else val / 16 + 15 * 2 ^ 28) * 10) % 2 ^ 32

-- `BIN2BCD` of an `unsigned int`
abbrev pub bin2bcd : ℕ → ℕ
bin2bcd val = (val / 10 * 16 + val % 10) % 2 ^ 32

-- The digits of an `int`: division and remainder go towards 0.
abbrev pub tens : ℕ → ℕ
tens n = if ltb n (2 ^ 31) then n / 10 % 10 + b'0' else b'0' - (2 ^ 32 - n) / 10 % 10

abbrev pub units : ℕ → ℕ
units n = if ltb n (2 ^ 31) then n % 10 + b'0' else b'0' - (2 ^ 32 - n) % 10

module _ {S : Type 0} (chip : Chip S) where
  unfoldable pub get_time : ℕ → S → ℕ
  get_time mode s = char_to_int (chip.read_register mode s)

  -- "hh:mm:ss"
  unfoldable pub time : S → List ℕ
  unfolding get_time
  time s =
      let seconds = bcd2bin (get_time seconds_register s) in
      let minutes = bcd2bin (get_time minutes_register s) in
      let hours = bcd2bin (get_time hours_register s) in
      tens hours
      ∷ units hours
      ∷ b':'
      ∷ tens minutes
      ∷ units minutes
      ∷ b':'
      ∷ tens seconds
      ∷ units seconds
      ∷ []

  -- "dd/mm/yyyy"
  unfoldable pub date : S → List ℕ
  unfolding get_time
  date s =
      let day = bcd2bin (get_time day_register s) in
      let month = bcd2bin (get_time month_register s) in
      let year = bcd2bin (get_time year_register s) in
      tens day
      ∷ units day
      ∷ b'/'
      ∷ tens month
      ∷ units month
      ∷ b'/'
      ∷ b'2'
      ∷ b'0'
      ∷ tens year
      ∷ units year
      ∷ []

  unfoldable pub set_time : ℕ → ℕ → ℕ → S → S
  set_time hours minutes seconds s = chip.write_register_word seconds_register (bin2bcd seconds) (
      chip.write_register_word minutes_register (bin2bcd minutes)
        (chip.write_register_word hours_register (bin2bcd hours) s))

  unfoldable pub set_date : ℕ → ℕ → ℕ → S → S
  set_date day month year s = chip.write_register year_register (bin2bcd year) (
      chip.write_register month_register (bin2bcd month)
        (chip.write_register day_register (bin2bcd day) s))

  -- `GREEN`
  unfoldable pub show_time : S → Bytes → Bytes
  show_time s m = (puts_at (time s) 2 0 72 m).1

unfoldable pub hide_time : Bytes → Bytes
hide_time m = (puts_at (codes "        ") default_attr 0 72 m).1
