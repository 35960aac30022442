-- ===== src/Fractals/Images.antt =====
-- The images that the two fractals leave on the screen.
use so_realtime.Prelude.{
  ℕ, suc, ◌+◌, ◌*◌, ◌/◌, ◌%◌, ◌^◌, ◌≤◌, ◌<◌, ◌≡◌, ◌∙◌, inl, inr, refl, Bool, true, false,
  Bool-cases, ltb, leb, ◌==◌, if◌then◌else◌, arith,
}
use so_realtime.Graphics.{Display}
use so_realtime.Graphics.Pixel.{pixel}
use so_realtime.Fractals.{
  Doubles, Color, default_width, default_height, shade, hsv_to_rgb, mandelbrot, mandelbrot_re,
  mandelbrot_im, mandelbrot_color, julia_set, julia_re, julia_im, julia_c_re, julia_c_im,
  julia_color, max_iterations,
}
use native.Mathlib.Nat.{zero-add, mul-le-mul_left, div-mul-le_self}
use so_realtime.Fractals.Hsv.{Spans, hsv_to_rgb-Spans}
use so_realtime.Fractals.Painting.{image-IsFull, IsFull, bytes, image}
use so_realtime.Fractals.Escape.{
  FirstBelow, far_after, mandelbrot_loop-FirstBelow, julia_loop-FirstBelow,
}

-- `n` steps of a share of a color do not pass the color.
shade-bytes :
    (c iter n : ℕ) → c < 256 → iter < 2 ^ 31 → n ≤ iter → shade c iter n % 256 ≡ c / iter * n
shade-bytes c iter n hc hi hn =
    let small : leb (2 ^ 31) iter ≡ false = ground arith in
    let share = mul-le-mul_left (c / iter) hn in
    rw small (omega (arith, share, div-mul-le_self c iter))

black : hsv_to_rgb 128 255 0 ≡ (0, 0, 0)
unfolding hsv_to_rgb
black = refl

FirstBelow-le : (limit : ℕ) (test : ℕ → Bool) (n : ℕ) → FirstBelow limit test n → n ≤ limit
FirstBelow-le limit test n (before, inl e) = omega arith
FirstBelow-le limit test n (before, inr e) = omega (arith, e.0)

bytes-Spans : (low high : ℕ) (c : Color) → high < 256 → Spans low high c → bytes c ≡ c
bytes-Spans low high (r, g, b) h (_, _, _, hr, _, hg, _, hb) = ground arith

pub mandelbrot-IsFull :
    {D : Type 0} (fl : Doubles D) (buffer iter : ℕ) (inside outside : Color) (d : Display)
    → IsFull d
    → IsFull (mandelbrot fl buffer iter inside outside d)
unfolding mandelbrot
mandelbrot-IsFull fl buffer iter inside outside d f =
    image-IsFull buffer (mandelbrot_color fl iter inside outside) d f

module _ {D : Type 0} (fl : Doubles D) (buffer : ℕ) (d : Display) (f : IsFull d) (x y : ℕ) where
  -- On a display of 1024 by 768 pixels, for bytes as colors and a positive `int` of rounds, `mandelbrot`
  -- gives every pixel the color that its own point stands for: the first color if the orbit stays in the
  -- disk of radius 2 for all the rounds, and else the second one's share for each round before it leaves.
  -- No share wraps around.
  pub mandelbrot_lem :
      (iter r g b r2 g2 b2 : ℕ)
      → x < default_width
      → y < default_height
      → iter < 2 ^ 31
      → r < 256
      → g < 256
      → b < 256
      → r2 < 256
      → g2 < 256
      → b2 < 256
      → let c_re = mandelbrot_re fl x in
        let c_im = mandelbrot_im fl y in
        (n : ℕ) × FirstBelow iter (λ k. far_after fl c_re c_im k c_re c_im) n
        × (pixel buffer (mandelbrot fl buffer iter (r, g, b) (r2, g2, b2) d) x y
            ≡ (if n == iter then (r, g, b) else (r2 / iter * n, g2 / iter * n, b2 / iter * n)))
  unfolding mandelbrot
  mandelbrot_lem iter r g b r2 g2 b2 hx hy hi hr hg hb hr2 hg2 hb2 =
      let c_re = mandelbrot_re fl x in
      let c_im = mandelbrot_im fl y in
      let (n, first, e) = mandelbrot_loop-FirstBelow fl c_re c_im iter 0 c_re c_im in
      (
        n,
        first,
        image buffer (mandelbrot_color fl iter (r, g, b) (r2, g2, b2)) d f x y hx hy
            ∙ rw e (color n (FirstBelow-le iter _ n first)),
      )
    where
      color :
          (n : ℕ)
          → n ≤ iter
          → bytes (
              if n == iter
              then (r, g, b)
              else (shade r2 iter (0 + n), shade g2 iter (0 + n), shade b2 iter (0 + n)))
            ≡ (if n == iter then (r, g, b) else (r2 / iter * n, g2 / iter * n, b2 / iter * n))
      color n le = elim (Bool-cases (n == iter)) [
        | inl same ↦ rw same (ground arith)
        | inr other ↦
            rw
              (
                other,
                zero-add n,
                shade-bytes r2 iter n hr2 hi le,
                shade-bytes g2 iter n hg2 hi le,
                shade-bytes b2 iter n hb2 hi le,
              )
              refl
      ]

  -- On a display of 1024 by 768 pixels, `julia_set` leaves black every pixel whose orbit stays in the disk
  -- of radius 2 for 128 steps, and gives each other one the full color whose hue is the number of steps
  -- that stayed in the disk.
  pub julia_set_lem :
      x < default_width
      → y < default_height
      → let far = far_after fl (julia_c_re fl) (julia_c_im fl) in
        (n : ℕ) × FirstBelow max_iterations (λ k. far (suc k) (julia_re fl x) (julia_im fl y)) n
        × (pixel buffer (julia_set fl buffer d) x y
            ≡ (if n == max_iterations then (0, 0, 0) else hsv_to_rgb n 255 255))
  unfolding julia_set
  julia_set_lem hx hy =
      let (n, first, e) =
        julia_loop-FirstBelow fl (julia_c_re fl) (julia_c_im fl) max_iterations 0 (julia_re fl x)
          (julia_im fl y) in
      (
        n,
        first,
        image buffer (julia_color fl) d f x y hx hy
            ∙ rw e (color n (FirstBelow-le max_iterations _ n first)),
      )
    where
      color :
          (n : ℕ)
          → n ≤ max_iterations
          → bytes (hsv_to_rgb ((0 + n) % 256) 255 (if ltb (0 + n) max_iterations then 255 else 0))
            ≡ (if n == max_iterations then (0, 0, 0) else hsv_to_rgb n 255 255)
      color n le =
          let hue : (0 + n) % 256 ≡ n = omega arith in
          elim (Bool-cases (n == max_iterations)) [
            | inl same ↦
                let over : ltb (0 + n) max_iterations ≡ false = ground arith in
                let last : n ≡ max_iterations = ground arith in
                rw (same, hue, over) (rw last (rw black refl))
            | inr other ↦
                let under : ltb (0 + n) max_iterations ≡ true = ground arith in
                rw (other, hue, under)
                  (bytes-Spans _ 255 (hsv_to_rgb n 255 255) (omega arith)
                    (hsv_to_rgb-Spans n 255 255 (omega arith) (omega arith) (omega arith)))
          ]
