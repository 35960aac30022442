-- ===== src/Fractals/Tests.antt =====
-- The fractals at concrete inputs.
use so_realtime.Prelude.{ℕ, ◌+◌, ◌-◌, ◌*◌, ◌/◌, ◌≡◌, refl, false, ltb, arith}
use so_realtime.Fractals.{Doubles, hsv_to_rgb, mandelbrot_loop, julia_loop}
use so_realtime.Fractals.Hsv.{Spans, hsv_to_rgb-Spans}

-- Whole numbers from 0 on in place of the processor's.
abbrev pub whole : Doubles ℕ
whole = record {
  literal = λ text. 1;
  of_int = λ n. n;
  of_unsigned = λ n. n;
  negate = λ a. 0;
  plus = λ a b. a + b;
  minus = λ a b. a - b;
  times = λ a b. a * b;
  divide = λ a b. a / b;
  greater = λ a b. ltb b a;
}

hsv_to_rgb-Spans_example : Spans (200 * (255 - 100) / 256) 200 (hsv_to_rgb 60 100 200)
hsv_to_rgb-Spans_example = hsv_to_rgb-Spans 60 100 200 (omega arith) (omega arith) (omega arith)

-- Pure red, green and blue.
primary_colors :
    (hsv_to_rgb 0 255 255 ≡ (255, 0, 0))
    × (hsv_to_rgb 86 255 255 ≡ (0, 255, 0))
    × (hsv_to_rgb 172 255 255 ≡ (0, 0, 255))
unfolding hsv_to_rgb
primary_colors = (refl, refl, refl)

-- From 1, the steps of z * z + 1 lead to 2 and 5: both loops test the points 1 and 2 first.
mandelbrot_loop_runs : mandelbrot_loop whole 10 0 1 0 1 0 ≡ (false, 2)
unfolding mandelbrot_loop
mandelbrot_loop_runs = refl

julia_loop_runs : julia_loop whole 10 0 1 0 1 0 ≡ 1
unfolding julia_loop
julia_loop_runs = refl
