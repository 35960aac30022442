-- ===== src/Fractals.antt =====
-- Userland/CodeModule/shell/fractals.c: the two fractals and the colors of the second. The arithmetic on
-- `double` is the processor's: it is a parameter, whose operations are those that the code uses.
pub mod Loops
pub mod Escape
pub mod Painting
pub mod Images
pub mod Hsv
pub mod Tests
use so_realtime.Prelude.{
  ℕ, zero, suc, ◌+◌, ◌-◌, ◌*◌, ◌/◌, ◌%◌, ◌^◌, Bool, true, false, ltb, ◌==◌, if◌then◌else◌, String,
}
use so_realtime.Userland.Numbers.{is_negative}
use so_realtime.Graphics.{Display, draw}
use so_realtime.Fractals.Loops.{loop_from}

-- `int` and `unsigned` values are 32-bit words.
pub record Doubles (D : Type 0) : Type 0 where
  pub literal : String → D
  pub of_int : ℕ → D
  pub of_unsigned : ℕ → D
  pub negate : D → D
  pub plus : D → D → D
  pub minus : D → D → D
  pub times : D → D → D
  pub divide : D → D → D
  pub greater : D → D → Bool

abbrev pub default_width : ℕ
default_width = 1024

abbrev pub default_height : ℕ
default_height = 768

abbrev pub Color : Type 0
Color = ℕ × ℕ × ℕ

-- `draw(x, y, color)`, whose three last parameters are bytes.
abbrev pub draw_color : ℕ → ℕ → ℕ → Color → Display → Display
draw_color buffer x y (r, g, b) d = (draw buffer x y (r % 256) (g % 256) (b % 256) d).1

-- `a / b` for an `int` that is not negative and an `int` that is not 0, as a word.
abbrev pub divide_int : ℕ → ℕ → ℕ
divide_int a b = if is_negative b then (2 ^ 32 - a / (2 ^ 32 - b)) % 2 ^ 32 else a / b

-- `(c / iter) * n`, which is unsigned.
abbrev pub shade : ℕ → ℕ → ℕ → ℕ
shade c iter n = divide_int c iter * n % 2 ^ 32

unfoldable pub hsv_to_rgb : ℕ → ℕ → ℕ → Color
hsv_to_rgb h s v =
    let region = h / 43 in
    let fpart = (h - region * 43) * 6 % 256 in
    let p = v * (255 - s) / 256 % 256 in
    let q = v * (255 - s * fpart / 256) / 256 % 256 in
    let t = v * (255 - s * (255 - fpart) / 256) / 256 % 256 in
    if s == 0
    then (v, v, v)
    else if region == 0
    then (v, t, p)
    else if region == 1
    then (q, v, p)
    else if region == 2
    then (p, v, t)
    else if region == 3
    then (p, q, v)
    else if region == 4
    then (t, p, v)
    else (v, p, q)

abbrev pub max_iterations : ℕ
max_iterations = 128

module _ {D : Type 0} (fl : Doubles D) where
  -- The square of the distance from 0 is greater than 4.
  abbrev pub is_far : D → D → Bool
  is_far re im = fl.greater (fl.plus (fl.times re re) (fl.times im im)) (fl.of_int 4)

  -- `re * re - im * im + c_re` and `2 * re * im + c_im`
  abbrev pub next_re : D → D → D → D
  next_re c re im = fl.plus (fl.minus (fl.times re re) (fl.times im im)) c

  abbrev pub next_im : D → D → D → D
  next_im c re im = fl.plus (fl.times (fl.times (fl.of_int 2) re) im) c

  -- The inner loop of `mandelbrot` from `n` on, on the rounds left: `isInside` and `n`.
  unfoldable pub mandelbrot_loop : ℕ → ℕ → D → D → D → D → Bool × ℕ
  mandelbrot_loop zero n c_re c_im re im = (true, n)
  mandelbrot_loop (suc left) n c_re c_im re im =
      let rest = mandelbrot_loop left (n + 1) c_re c_im (next_re c_re re im) (next_im c_im re im) in
      if is_far re im then (false, n) else rest

  abbrev pub min_re : D
  min_re = fl.negate (fl.literal "2.0")

  abbrev pub max_re : D
  max_re = fl.literal "1.0"

  abbrev pub min_im : D
  min_im = fl.negate (fl.literal "1.2")

  abbrev pub max_im : D
  max_im = fl.plus min_im (
      fl.divide (fl.times (fl.minus max_re min_re) (fl.of_int default_height))
        (fl.of_int default_width))

  abbrev pub re_factor : D
  re_factor = fl.divide (fl.minus max_re min_re) (fl.of_int (default_width - 1))

  abbrev pub im_factor : D
  im_factor = fl.divide (fl.minus max_im min_im) (fl.of_int (default_height - 1))

  abbrev pub mandelbrot_re : ℕ → D
  mandelbrot_re x = fl.plus min_re (fl.times (fl.of_unsigned x) re_factor)

  abbrev pub mandelbrot_im : ℕ → D
  mandelbrot_im y = fl.minus max_im (fl.times (fl.of_unsigned y) im_factor)

  -- The body of the loops: `iter` is compared as an unsigned number.
  abbrev pub mandelbrot_color : ℕ → Color → Color → ℕ → ℕ → Color
  mandelbrot_color iter inside (r2, g2, b2) x y =
      let c_re = mandelbrot_re x in
      let c_im = mandelbrot_im y in
      let (is_inside, n) = mandelbrot_loop iter 0 c_re c_im c_re c_im in
      if is_inside then inside else (shade r2 iter n, shade g2 iter n, shade b2 iter n)

  unfoldable pub mandelbrot : ℕ → ℕ → Color → Color → Display → Display
  mandelbrot buffer iter inside outside d =
      loop_from
        (λ y.
          loop_from (λ x. draw_color buffer x y (mandelbrot_color iter inside outside x y)) 0
            default_width)
        0 default_height d

  -- The inner loop of `juliaSet` from `i` on, on the rounds left: the test is behind the step.
  unfoldable pub julia_loop : ℕ → ℕ → D → D → D → D → ℕ
  julia_loop zero i c_re c_im re im = i
  julia_loop (suc left) i c_re c_im re im =
      let re' = next_re c_re re im in
      let im' = next_im c_im re im in
      let rest = julia_loop left (i + 1) c_re c_im re' im' in if is_far re' im' then i else rest

  abbrev pub julia_c_re : D
  julia_c_re = fl.negate (fl.literal "0.7")

  abbrev pub julia_c_im : D
  julia_c_im = fl.literal "0.27015"

  -- `0.5 * zoom * size`, with a `zoom` of 1
  abbrev pub half_of : ℕ → D
  half_of size = fl.times (fl.times (fl.literal "0.5") (fl.of_int 1)) (fl.of_int size)

  -- `a - b` as an `int`
  abbrev pub centered : ℕ → ℕ → ℕ
  centered a size = (a + 2 ^ 32 - size / 2) % 2 ^ 32

  abbrev pub julia_re : ℕ → D
  julia_re x =
      fl.plus
        (fl.divide (fl.times (fl.literal "1.5") (fl.of_int (centered x default_width)))
          (half_of default_width))
        (fl.of_int 0)

  abbrev pub julia_im : ℕ → D
  julia_im y =
      fl.plus (fl.divide (fl.of_int (centered y default_height)) (half_of default_height))
        (fl.of_int 0)

  abbrev pub julia_color : ℕ → ℕ → Color
  julia_color x y =
      let i = julia_loop max_iterations 0 julia_c_re julia_c_im (julia_re x) (julia_im y) in
      hsv_to_rgb (i % 256) 255 (if ltb i max_iterations then 255 else 0)

  unfoldable pub julia_set : ℕ → Display → Display
  julia_set buffer d =
      loop_from (λ y. loop_from (λ x. draw_color buffer x y (julia_color x y)) 0 default_width) 0
        default_height d
