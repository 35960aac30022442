-- ===== src/Screen.antt =====
-- Kernel/drivers/video.c: the text screen of 25 rows of 80 cells, a cell being a character and its
-- attribute. Its memory is taken from `video` on, and the two cursor registers are the number that they
-- make.
pub mod Scroll
pub mod Number
pub mod Bounds
mod Tests
use so_realtime.Prelude.{
  ℕ, zero, suc, ◌+◌, ◌-◌, ◌*◌, ◌/◌, ◌%◌, ◌^◌, ◌||◌, ◌&&◌, List, [], ◌∷◌, drop, leb, ltb, ◌==◌,
  if◌then◌else◌, Outcome, done, fault, timeout, ◌>>=◌,
}
use so_realtime.KernelLib.{Bytes, write_byte, memcpy, memsetw}
use so_realtime.Userland.Numbers.{is_negative, negate32}

abbrev pub rows : ℕ
rows = 25

abbrev pub cols : ℕ
cols = 80

-- `SCREENSIZE`
abbrev pub screen_size : ℕ
screen_size = 4000

-- `DEFAULT`
abbrev pub default_attr : ℕ
default_attr = 7

-- `INDEX_OUT_OF_BOUNDS_ERROR`, an `int`
abbrev pub out_of_bounds_error : ℕ
out_of_bounds_error = 2 ^ 32 - 1

pub record Screen : Type 0 where
  pub video : Bytes
  pub current_loc : ℕ
  pub cursor : ℕ

unfoldable pub update_cursor : Screen → Screen
update_cursor s = record s {
  cursor = s.current_loc / 2 / 256 % 256 * 256 + s.current_loc / 2 % 256;
}

abbrev pub write_cell : Bytes → ℕ → ℕ → ℕ → Bytes
write_cell m at ch attr = write_byte (write_byte m at ch) (at + 1) attr

-- A loop that sets `n` cells from index `i` on.
unfoldable pub fill_from : ℕ → ℕ → ℕ → ℕ → Bytes → Bytes
fill_from i zero ch attr m = m
fill_from i (suc n) ch attr m = fill_from (i + 2) n ch attr (write_cell m i ch attr)

unfoldable pub fill : ℕ → ℕ → Screen → Screen
fill ch attr s =
    update_cursor (record s { video = fill_from 0 (rows * cols) ch attr s.video; current_loc = 0 })

unfoldable pub clear_screen : Screen → Screen
clear_screen s = update_cursor (record (fill b' ' default_attr s) { current_loc = cols * 2 })

unfoldable pub clear_console : Screen → Screen
clear_console s = update_cursor (record s {
  video = fill_from (cols * 2) ((rows - 1) * cols) b' ' default_attr s.video;
  current_loc = cols * 2;
})

-- A negative row or column is a word from 2^31 on.
unfoldable pub putchar_at : ℕ → ℕ → ℕ → ℕ → Bytes → ℕ × Bytes
putchar_at ch attr r c m =
    if leb rows r || leb cols c
    then (out_of_bounds_error, m)
    else (0, write_cell m ((c + r * cols) * 2) ch attr)

-- The loop of `puts_at`.
unfoldable pub puts_from : List ℕ → ℕ → ℕ → ℕ → Bytes → ℕ × Bytes
puts_from [] attr r c m = (0, m)
puts_from (ch ∷ str) attr r c m =
    let newline = puts_from str attr (r + 1) 0 m in
    let wrapped = puts_from str attr (r + 1) 1 (putchar_at ch attr (r + 1) 0 m).1 in
    let next = puts_from str attr r (c + 1) (putchar_at ch attr r c m).1 in
    if ch == b'\n'
    then (if leb rows (r + 1) then (out_of_bounds_error, m) else newline)
    else if c == cols
    then (if leb rows (r + 1) then (out_of_bounds_error, m) else wrapped)
    else next

unfoldable pub puts_at : List ℕ → ℕ → ℕ → ℕ → Bytes → ℕ × Bytes
puts_at str attr r c m =
    if leb rows r || leb cols c then (out_of_bounds_error, m) else puts_from str attr r c m

-- `digits` behind its loop, on fuel.
unfoldable pub count_digits : ℕ → ℕ → ℕ
count_digits zero number = 1
count_digits (suc fuel) number =
    let rest = count_digits fuel (number / 10) in if ltb 0 (number / 10) then rest + 1 else 1

-- `while (i--) number /= 10;`
unfoldable pub divided : ℕ → ℕ → ℕ
divided zero number = number
divided (suc i) number = divided i (number / 10)

-- The characters of the second loop.
unfoldable pub digits_from : ℕ → ℕ → List ℕ
digits_from zero n = []
digits_from (suc digits) n = (divided digits n % 10 + b'0') ∷ digits_from digits n

-- The characters that `putnumber` puts. A number of 31 bits has at most 10 digits. The least `int` stays
-- negative when it is negated, and its last digit, -8, is put as the character 40.
unfoldable pub number_chars : ℕ → List ℕ
number_chars n =
    let m = if is_negative n then negate32 n else n in
    let chars = digits_from (count_digits 10 m) m in
    if n == 2 ^ 31 then b'-' ∷ 40 ∷ [] else if is_negative n then b'-' ∷ chars else chars

-- The second loop of `putnumber_at`, over the digits that it comes to. They go on in the next row.
unfoldable pub putnumber_from : List ℕ → ℕ → ℕ → ℕ → Bytes → ℕ × Bytes
putnumber_from [] attr r c m = (0, m)
putnumber_from (ch ∷ digits) attr r c m =
    let wrapped = putnumber_from digits attr (r + 1) 1 (putchar_at ch attr (r + 1) 0 m).1 in
    let next = putnumber_from digits attr r (c + 1) (putchar_at ch attr r c m).1 in
    if c == cols then (if leb rows (r + 1) then (out_of_bounds_error, m) else wrapped) else next

-- The characters are those of `putnumber`; the sign is put without a test of its place.
unfoldable pub putnumber_at : ℕ → ℕ → ℕ → ℕ → Bytes → ℕ × Bytes
putnumber_at n attr r c m =
    let signed =
      putnumber_from (drop 1 (number_chars n)) attr r (c + 1) (putchar_at b'-' attr r c m).1 in
    if leb rows r || leb cols c
    then (out_of_bounds_error, m)
    else if is_negative n
    then signed
    else putnumber_from (number_chars n) attr r c m

-- The loop that goes back over blanks, on fuel. Before the first cell the code reads in front of the
-- screen.
unfoldable pub skip_blanks : ℕ → Screen → Outcome Screen
skip_blanks zero s = timeout
skip_blanks (suc fuel) s =
    let rest = skip_blanks fuel (record s { current_loc = s.current_loc - 2 }) in
    if ltb s.current_loc 2
    then fault
    else if s.video (s.current_loc - 2) == b' '
    then rest
    else done s

-- `delete`: each round goes back by a cell.
unfoldable pub delete : Screen → Outcome Screen
delete s =
    if s.current_loc == 0
    then done s
    else if s.current_loc / 2 % cols == 0 && s.video (s.current_loc - 2) == b' '
    then skip_blanks (s.current_loc / 2 + 1) s
    else done (record s {
      video =
          write_byte (write_byte s.video (s.current_loc - 1) default_attr) (s.current_loc - 2) b' ';
      current_loc = s.current_loc - 2;
    })

unfoldable pub scroll : Screen → Screen
scroll s = record s {
  video =
      memsetw (memcpy s.video (cols * 2) (cols * 4) (screen_size - cols * 2))
        (screen_size - cols * 2) b' ' cols;
  current_loc = s.current_loc - cols * 2;
}

-- What `putchar` does behind its `switch`.
unfoldable pub settle : Screen → Screen
settle s = update_cursor (if leb screen_size s.current_loc then scroll s else s)

-- The default case.
unfoldable pub put_plain : ℕ → ℕ → Screen → Screen
put_plain ch attr s =
    settle (record s {
      video = write_cell s.video s.current_loc ch attr;
      current_loc = s.current_loc + 2;
    })

unfoldable pub putchar : ℕ → ℕ → Screen → Outcome Screen
putchar ch attr s =
    if ch == b'\n'
    then done (
        settle (record s { current_loc = s.current_loc + (cols * 2 - s.current_loc % (cols * 2)) }))
    else if ch == 8
    then (delete s >>= λ t. done (settle t))
    else if ch == b'\t'
    then done (
        settle
          (put_plain b' ' attr (put_plain b' ' attr (put_plain b' ' attr (put_plain b' ' attr s)))))
    else done (put_plain ch attr s)

unfoldable pub puts : List ℕ → ℕ → Screen → Outcome Screen
puts [] attr s = done s
puts (ch ∷ str) attr s = putchar ch attr s >>= λ t. puts str attr t

unfoldable pub putnumber : ℕ → ℕ → Screen → Outcome Screen
putnumber n attr s = puts (number_chars n) attr s
