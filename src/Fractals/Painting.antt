-- ===== src/Fractals/Painting.antt =====
-- What a loop over all pixels leaves on the screen.
use so_realtime.Prelude.{ℕ, ◌%◌, ◌<◌, ◌≡◌, ◌∙◌, refl, false, ◌&&◌, ◌==◌, if◌then◌else◌, arith}
use so_realtime.Graphics.{Display}
use so_realtime.Graphics.Pixel.{IsOn, pixel, draw-drawn, draw_lem}
use so_realtime.Fractals.{Color, default_width, default_height, draw_color}
use so_realtime.Fractals.Loops.{loop_from, loop_from-each}

-- A display of the size that the fractals are drawn in.
abbrev pub IsFull : Display → Type 0
IsFull d = (d.width ≡ default_width) × (d.height ≡ default_height)

abbrev pub bytes : Color → Color
bytes (r, g, b) = (r % 256, g % 256, b % 256)

on_full : (d : Display) (x y : ℕ) → IsFull d → x < default_width → y < default_height → IsOn d x y
on_full d x y (w, h) hx hy = record {
  column = omega arith;
  row = omega arith;
  fits = rw (w, h) (omega arith);
}

module _ (buffer : ℕ) where
  draw_color-IsFull :
      (x y : ℕ) (c : Color) (d : Display)
      → IsFull d
      → x < default_width
      → y < default_height
      → IsFull (draw_color buffer x y c d)
  draw_color-IsFull x y (r, g, b) d f hx hy =
      let e =
        draw-drawn buffer d x y (r % 256) (g % 256) (b % 256) (on_full d x y f hx hy) (omega arith)
          (omega arith) (omega arith) in
      rw (e, draw_color) f

  draw_color-pixel :
      (x y x' y' : ℕ) (c : Color) (d : Display)
      → IsFull d
      → x < default_width
      → y < default_height
      → x' < default_width
      → y' < default_height
      → pixel buffer (draw_color buffer x y c d) x' y'
        ≡ (if x' == x && y' == y then bytes c else pixel buffer d x' y')
  draw_color-pixel x y x' y' (r, g, b) d f hx hy hx' hy' =
      (draw_lem buffer d x y (r % 256) (g % 256) (b % 256) x' y' (on_full d x y f hx hy)
        (omega arith) (omega arith) (omega arith) (on_full d x' y' f hx' hy')).1

  module _ (color : ℕ → ℕ → Color) where
    abbrev pub row : ℕ → Display → Display
    row y = loop_from (λ x. draw_color buffer x y (color x y)) 0 default_width

    -- The pixel has its color.
    abbrev Painted : ℕ → ℕ → Display → Type 0
    Painted y x d = pixel buffer d x y ≡ bytes (color x y)

    row-Painted :
        (y : ℕ) (d : Display)
        → IsFull d
        → y < default_height
        → IsFull (row y d) × ((x : ℕ) → x < default_width → Painted y x (row y d))
    row-Painted y d f hy =
        loop_from-each IsFull (Painted y) (λ x. draw_color buffer x y (color x y)) default_width
          (λ x s hx k. (
            draw_color-IsFull x y (color x y) s k hx hy,
            rw (draw_color-pixel x y x y (color x y) s k hx hy hx hy) (ground arith),
          ))
          (λ x x' s hx lt k p.
            let other : (x' == x && y == y) ≡ false = ground arith in
            rw (draw_color-pixel x y x' y (color x y) s k hx hy (omega arith) hy, other) p)
          default_width 0 d (omega arith) f (λ j h. absurd (omega arith))

    -- A row leaves the pixels of the rows before it.
    row-pixel :
        (y x' y' : ℕ) (d : Display)
        → IsFull d
        → y < default_height
        → y' < y
        → x' < default_width
        → pixel buffer (row y d) x' y' ≡ pixel buffer d x' y'
    row-pixel y x' y' d f hy lt hx' =
        (loop_from-each (λ s. IsFull s × (pixel buffer s x' y' ≡ pixel buffer d x' y'))
          (λ j s. Unit {0}) (λ x. draw_color buffer x y (color x y)) default_width
          (λ x s hx k.
            let hy' : y' < default_height = omega arith in
            let other : (x' == x && y' == y) ≡ false = ground arith in
            (
              (
                draw_color-IsFull x y (color x y) s k.0 hx hy,
                rw (draw_color-pixel x y x' y' (color x y) s k.0 hx hy hx' hy', other) k.1,
              ),
              tt,
            ))
          (λ x j s hx h k p. tt) default_width 0 d (omega arith) (f, refl)
          (λ j h. absurd (omega arith))).0.1

    -- The image has the color of each pixel.
    pub image :
        (d : Display)
        → IsFull d
        → (x y : ℕ) → x < default_width
        → y < default_height
        → Painted y x (loop_from row 0 default_height d)
    image d f x y hx hy =
        (loop_from-each IsFull (λ y s. (x : ℕ) → x < default_width → Painted y x s) row
            default_height (λ y s hy k. row-Painted y s k hy)
            (λ y y' s hy lt k p x hx. row-pixel y x y' s k hy lt hx ∙ p x hx) default_height 0 d
            (omega arith) f (λ j h. absurd (omega arith))).1
          y hy x hx

    pub image-IsFull : (d : Display) → IsFull d → IsFull (loop_from row 0 default_height d)
    image-IsFull d f =
        (loop_from-each IsFull (λ y s. Unit {0}) row default_height
          (λ y s hy k. ((row-Painted y s k hy).0, tt)) (λ y y' s hy lt k p. tt) default_height 0 d
          (omega arith) f (λ j h. absurd (omega arith))).0
