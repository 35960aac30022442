-- ===== src/Commands/Fractal/Tests.antt =====
-- The command `fractal` at concrete inputs.
use so_realtime.Prelude.{
  ℕ, suc, ◌*◌, ◌/◌, ◌≡◌, refl, false, inl, [], ◌∷◌, ◌==◌, if◌then◌else◌, codes, arith, Ensures,
}
use so_realtime.Graphics.{Ports}
use so_realtime.Graphics.Pixel.{pixel}
use so_realtime.Fractals.{
  mandelbrot_re, mandelbrot_im, julia_re, julia_im, julia_c_re, julia_c_im, max_iterations,
  hsv_to_rgb,
}
use so_realtime.Fractals.Escape.{FirstBelow, far_after}
use so_realtime.Fractals.Tests.{whole}
use so_realtime.Userland.Strings.{minus_one32}
use so_realtime.Userland.Numbers.{print_dec, num_to_base, low_digits, digit, swap_ends}
use so_realtime.Commands.Fractal.{View, Parameters, fractal}
use so_realtime.Commands.Fractal.Lines.{IsEntry, line_of, data_of}
use so_realtime.Commands.Fractal.Shown.{fractal-mandelbrot_lem, fractal-julia_set_lem}

-- An adapter without registers.
abbrev ports : Ports ℕ
ports = record { write_port_word = λ p v s. s; read_port_word = λ p s. 0 }

abbrev fuji : Parameters
fuji = record { name = codes "fuji"; iter = 40; inside = (1, 2, 3); outside = (80, 120, 255) }

fuji_text : line_of fuji ≡ codes "fuji 40 1 2 3 80 120 255"
unfolding print_dec num_to_base low_digits digit swap_ends
fuji_text = refl

fuji-IsEntry : IsEntry fuji
unfolding print_dec num_to_base low_digits digit swap_ends
fuji-IsEntry = record {
  named = (omega arith, omega arith, omega arith);
  positive = omega arith;
  inside = (omega arith, omega arith, omega arith);
  outside = (omega arith, omega arith, omega arith);
  short = omega arith;
}

abbrev view : View ℕ
view = record {
  enabled = false;
  registers = 0;
  display = record { width = 0; height = 0; bpp = 0; memory = λ q. 0 };
  data_text = data_of (fuji ∷ fuji ∷ []) [];
}

fractal-mandelbrot_lem_example :
    let c_re = mandelbrot_re whole 3 in
    let c_im = mandelbrot_im whole 5 in
    (n : ℕ) × FirstBelow 40 (λ k. far_after whole c_re c_im k c_re c_im) n
    × Ensures
        (λ r.
          (r.0.1 ≡ minus_one32)
          × (r.1.data_text ≡ [])
          × (pixel 1000 r.1.display 3 5
              ≡ (if n == 40 then (1, 2, 3) else (80 / 40 * n, 120 / 40 * n, 255 / 40 * n))))
        (fractal ports whole 1000 3 (codes "1" ∷ []) view)
fractal-mandelbrot_lem_example =
    fractal-mandelbrot_lem ports whole 1000 3 (fuji ∷ []) fuji [] view 3 5 (omega arith)
      (fuji-IsEntry, tt) fuji-IsEntry refl (inl refl) (omega arith) (omega arith)

fractal-julia_set_lem_example :
    let far = far_after whole (julia_c_re whole) (julia_c_im whole) in
    (n : ℕ) × FirstBelow max_iterations (λ k. far (suc k) (julia_re whole 3) (julia_im whole 5)) n
    × Ensures
        (λ r.
          (r.0 ≡ ([], 0))
          × (pixel 1000 r.1.display 3 5
              ≡ (if n == max_iterations then (0, 0, 0) else hsv_to_rgb n 255 255)))
        (fractal ports whole 1000 1 (codes "2" ∷ []) view)
fractal-julia_set_lem_example =
    fractal-julia_set_lem ports whole 1000 1 view 3 5 (inl refl) (omega arith) (omega arith)
