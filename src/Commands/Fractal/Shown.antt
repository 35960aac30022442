-- ===== src/Commands/Fractal/Shown.antt =====
-- What `fractal` leaves on the screen.
use so_realtime.Prelude.{
  ℕ, suc, ◌*◌, ◌/◌, ◌<◌, ◌≡◌, ap, ◌∙◌, refl, Bool, true, false, inl, inr, ◌⊎◌, List, [], ◌∷◌, ◌++◌,
  length, All, ◌==◌, if◌then◌else◌, codes, arith, Ensures, Ensures-map,
}
use so_realtime.Graphics.{Ports, Display, sys_video, bga_set_video_mode, bga_fill_screen}
use so_realtime.Graphics.Pixel.{pixel}
use so_realtime.Fractals.{
  Doubles, default_width, default_height, mandelbrot, mandelbrot_re, mandelbrot_im, julia_re,
  julia_im, julia_c_re, julia_c_im, max_iterations, hsv_to_rgb,
}
use so_realtime.Fractals.Escape.{FirstBelow, far_after}
use so_realtime.Fractals.Painting.{IsFull}
use so_realtime.Fractals.Images.{mandelbrot-IsFull, mandelbrot_lem, julia_set_lem}
use so_realtime.Userland.Calls.{video}
use so_realtime.Userland.Strings.{minus_one32, strcmp}
use so_realtime.Commands.{refuse, shows}
use so_realtime.Commands.Clock.{Refused, refuse-Refused, shows-Refused}
use so_realtime.Commands.Fractal.{View, Parameters, enter_video, show_mandelbrot, fractal}
use so_realtime.Commands.Fractal.Lines.{
  IsEntry, All-append, complaint, data_of, after_lines, after_lines-data_text,
  mandelbrot_lines-data_of,
}

-- The screen is in text mode, or its size is that of the fractals.
abbrev pub IsReady : {S : Type 0} → View S → Type 0
IsReady v = (v.enabled ≡ false) ⊎ IsFull v.display

module _ {S D : Type 0} (ports : Ports S) (fl : Doubles D) (buffer : ℕ) where
  video-IsFull :
      (enabled : Bool) (s : S) (d : Display)
      → (enabled ≡ false) ⊎ IsFull d
      → IsFull (video ports buffer default_width default_height enabled (s, d)).2
  unfolding video sys_video bga_set_video_mode bga_fill_screen
  video-IsFull false s d r = (refl, refl)
  video-IsFull true s d (inl h) = cc
  video-IsFull true s d (inr f) = f

  enter_video-IsFull : (v : View S) → IsReady v → IsFull (enter_video ports fl buffer v).display
  enter_video-IsFull v r = video-IsFull v.enabled v.registers v.display r

  -- The display after the last line is the last image.
  after_lines-mandelbrot :
      (ps : List Parameters) (p : Parameters) (more : List ℕ) (v : View S)
      → IsReady v
      → (d : Display) × IsFull d
        × ((after_lines ports fl buffer (ps ++ (p ∷ [])) more v).display
            ≡ mandelbrot fl buffer p.iter p.inside p.outside d)
  after_lines-mandelbrot [] p more v r =
      ((enter_video ports fl buffer v).display, enter_video-IsFull v r, refl)
  after_lines-mandelbrot (q ∷ ps) p more v r =
      after_lines-mandelbrot ps p more
        (show_mandelbrot ports fl buffer q (record v { data_text = data_of (ps ++ (p ∷ [])) more }))
        (inr (mandelbrot-IsFull fl buffer q.iter q.inside q.outside _ (enter_video-IsFull v r)))

  -- `fractal 1`, in text mode or on a display of 1024 by 768 pixels, reads line after line of the data and
  -- draws each, until a line has another form, here an empty one: it then answers -1, and every pixel has
  -- the color that its point has in the Mandelbrot image with the parameters of the last line. The lines
  -- are a name of one to four visible characters and seven decimal numbers, of which the first is below
  -- 2^31 and the others are bytes, with fewer than 64 characters. The loop ends if more rounds are given than
  -- there are lines.
  pub fractal-mandelbrot_lem :
      (fuel : ℕ) (ps : List Parameters) (p : Parameters) (more : List ℕ) (v : View S) (x y : ℕ)
      → length (ps ++ (p ∷ [])) < fuel
      → All IsEntry ps
      → IsEntry p
      → v.data_text ≡ data_of (ps ++ (p ∷ [])) more
      → IsReady v
      → x < default_width
      → y < default_height
      → let c_re = mandelbrot_re fl x in
        let c_im = mandelbrot_im fl y in
        (n : ℕ) × FirstBelow p.iter (λ k. far_after fl c_re c_im k c_re c_im) n
        × Ensures
            (λ r.
              (r.0.1 ≡ minus_one32)
              × (r.1.data_text ≡ more)
              × (pixel buffer r.1.display x y ≡ (
                  if n == p.iter then p.inside else (
                    p.outside.0 / p.iter * n,
                    p.outside.1 / p.iter * n,
                    p.outside.2 / p.iter * n,
                  ))))
            (fractal ports fl buffer fuel (codes "1" ∷ []) v)
  unfolding fractal strcmp
  fractal-mandelbrot_lem fuel ps p more v x y enough k e text r hx hy =
      let last = after_lines ports fl buffer (ps ++ (p ∷ [])) more v in
      let (d, full, same) = after_lines-mandelbrot ps p more v r in
      let (n, first, color) =
        mandelbrot_lem fl buffer d full x y p.iter p.inside.0 p.inside.1 p.inside.2 p.outside.0
          p.outside.1 p.outside.2 hx hy e.positive e.inside.0 e.inside.1 e.inside.2 e.outside.0
          e.outside.1 e.outside.2 in
      (
        n,
        first,
        rw
            (mandelbrot_lines-data_of ports fl buffer fuel (ps ++ (p ∷ [])) more v enough
              (All-append IsEntry ps (p ∷ []) k (e, tt)) text)
            (Ensures-map (Refused last) _ (shows complaint (refuse "Wrong format!\n" last))
              (λ q (answer, state). (
                answer,
                ap (λ (w : View S). w.data_text) state
                    ∙ after_lines-data_text ports fl buffer (ps ++ (p ∷ [])) more v,
                rw (state, same) color,
              ))
              (shows-Refused complaint last (refuse "Wrong format!\n" last)
                (refuse-Refused "Wrong format!\n" last (omega arith)))),
      )

  -- `fractal 2`, in text mode or on a display of 1024 by 768 pixels, answers 0, and every pixel is black if
  -- its orbit stays in the disk of radius 2 for 128 steps, and else has the full color whose hue is the
  -- number of steps that stayed there.
  pub fractal-julia_set_lem :
      (fuel : ℕ) (v : View S) (x y : ℕ)
      → IsReady v
      → x < default_width
      → y < default_height
      → let far = far_after fl (julia_c_re fl) (julia_c_im fl) in
        (n : ℕ) × FirstBelow max_iterations (λ k. far (suc k) (julia_re fl x) (julia_im fl y)) n
        × Ensures
            (λ r.
              (r.0 ≡ ([], 0))
              × (pixel buffer r.1.display x y
                  ≡ (if n == max_iterations then (0, 0, 0) else hsv_to_rgb n 255 255)))
            (fractal ports fl buffer fuel (codes "2" ∷ []) v)
  unfolding fractal strcmp
  fractal-julia_set_lem fuel v x y r hx hy =
      let (n, first, color) =
        julia_set_lem fl buffer (enter_video ports fl buffer v).display (enter_video-IsFull v r) x y
          hx hy in
      (n, first, (refl, color))
