-- ===== src/Graphics/Pixel.antt =====
-- What drawing a pixel changes.
use so_realtime.Prelude.{
  ℕ, suc, ◌+◌, ◌*◌, ◌/◌, ◌%◌, ◌^◌, ◌<◌, ◌≤◌, ◌≡◌, ◌≢◌, ◌⊎◌, inl, inr, refl, sym, false, Bool-cases,
  ◌&&◌, leb, ltb, ◌==◌, if◌then◌else◌, arith,
}
use native.Mathlib.Nat.{mul-le-mul_left, mul-le-mul_right, suc-mul, mul_comm, mul-one, add-mul}
use so_realtime.KernelLib.{write_byte}
use so_realtime.Graphics.{Display, bga_draw_pixel, sys_draw, draw}

-- The colors of a pixel: red, green and blue.
abbrev pub pixel : ℕ → Display → ℕ → ℕ → ℕ × ℕ × ℕ
pixel buffer d x y =
    let at = buffer + (y * d.width * 3 + x * 3) in
    (d.memory (at + 2), d.memory (at + 1), d.memory at)

-- The position is on the screen, and the screen is not larger than 2^32 bytes.
pub record IsOn (d : Display) (x y : ℕ) : Type 0 where
  pub column : x < d.width
  pub row : y < d.height
  pub fits : d.width * d.height * 3 < 2 ^ 32

-- A row after another starts at least a width behind it.
rows_apart : (y y' w : ℕ) → y < y' → y * w + w ≤ y' * w
rows_apart y y' w h =
    let below : suc y * w ≤ y' * w = mul-le-mul_right w h in rw (suc-mul y w) at below

-- The last byte of a pixel is within the buffer, and its coordinates are words.
pub inside :
    (d : Display) (x y : ℕ)
    → IsOn d x y
    → (y * d.width * 3 + x * 3 + 2 < d.width * d.height * 3) × (x < 2 ^ 32) × (y < 2 ^ 32)
inside d x y on =
    let last = rows_apart y d.height d.width on.row in
    let wide = mul-le-mul_left y (suc-le d.width (omega (arith, on.column))) in
    let within : y * d.width * 3 + x * 3 + 2 < d.width * d.height * 3 =
      omega (arith, last, on.column, mul_comm d.width d.height) in
    (within, omega (arith, within, on.fits), omega (arith, within, on.fits, wide, mul-one y))
  where
    suc-le : (w : ℕ) → 0 < w → 1 ≤ w
    suc-le w h = omega arith

-- Two pixels of the screen have no byte in common.
apart :
    (d : Display) (x y x' y' : ℕ)
    → IsOn d x y
    → IsOn d x' y'
    → (x' ≡ x → y' ≢ y)
    → (y * d.width * 3 + x * 3 + 2 < y' * d.width * 3 + x' * 3)
      ⊎ (y' * d.width * 3 + x' * 3 + 2 < y * d.width * 3 + x * 3)
apart d x y x' y' on on' ne = elim (compare-cases y y') [
  | inl lt ↦ inl (omega (arith, rows_apart y y' d.width lt, on.column))
  | inr (inl gt) ↦ inr (omega (arith, rows_apart y' y d.width gt, on'.column))
  | inr (inr e) ↦ elim (compare-cases x x') [
    | inl lt ↦ inl (rw e (omega arith))
    | inr (inl gt) ↦ inr (rw e (omega arith))
    | inr (inr f) ↦ absurd (ne (sym f) (sym e))
  ]
]
  where
    compare-cases : (a b : ℕ) → (a < b) ⊎ ((b < a) ⊎ (a ≡ b))
    compare-cases a b = elim (Bool-cases (ltb a b)) [
      | inl e ↦ inl (ground arith)
      | inr e ↦ elim (Bool-cases (ltb b a)) [
        | inl f ↦ inr (inl (ground arith))
        | inr f ↦ inr (inr (ground arith))
      ]
    ]

module _ (buffer : ℕ) (d : Display) (x y r g b : ℕ) where
  -- The display with that pixel drawn.
  abbrev pub drawn : Display
  drawn = record d {
    memory =
        write_byte
          (write_byte (write_byte d.memory (buffer + (y * d.width * 3 + x * 3)) b)
            (buffer + (y * d.width * 3 + x * 3 + 1)) g)
          (buffer + (y * d.width * 3 + x * 3 + 2)) r;
  }

  pub draw-drawn : IsOn d x y → r < 256 → g < 256 → b < 256 → draw buffer x y r g b d ≡ (1, drawn)
  unfolding draw sys_draw bga_draw_pixel
  draw-drawn on hr hg hb =
      let (last, hx, hy) = inside d x y on in
      let color = (((0 + r) * 256 % 2 ^ 32 + g) % 2 ^ 32 * 256 % 2 ^ 32 + b) % 2 ^ 32 in
      let red : color / 65536 % 256 ≡ r = omega arith in
      let green : color / 256 % 256 ≡ g = omega arith in
      let blue : color % 256 ≡ b = omega arith in
      let column : x % 2 ^ 32 ≡ x = omega arith in
      let row : y % 2 ^ 32 ≡ y = omega arith in
      let size : d.width * d.height * 3 % 2 ^ 32 ≡ d.width * d.height * 3 =
        omega (arith, on.fits) in
      let pos = y * d.width * 3 + x * 3 in
      let first : pos % 2 ^ 32 ≡ pos = omega (arith, last, on.fits) in
      let second : (pos + 1) % 2 ^ 32 ≡ pos + 1 = omega (arith, last, on.fits) in
      let third : (pos + 2) % 2 ^ 32 ≡ pos + 2 = omega (arith, last, on.fits) in
      let valid : leb (d.width * d.height * 3) pos ≡ false = ground (arith, last) in
      rw (red, green, blue, column, row, size, first, second, third, valid) refl

  -- Bytes that are not among the pixel's stay.
  drawn-other :
      (q : ℕ)
      → (q < buffer + (y * d.width * 3 + x * 3)) ⊎ (buffer + (y * d.width * 3 + x * 3) + 2 < q)
      → drawn.memory q ≡ d.memory q
  drawn-other q (inl h) =
      let a : (buffer + (y * d.width * 3 + x * 3) == q) ≡ false = ground arith in
      let c : (buffer + (y * d.width * 3 + x * 3 + 1) == q) ≡ false = ground arith in
      let e : (buffer + (y * d.width * 3 + x * 3 + 2) == q) ≡ false = ground arith in
      rw (a, c, e) refl
  drawn-other q (inr h) =
      let a : (buffer + (y * d.width * 3 + x * 3) == q) ≡ false = ground arith in
      let c : (buffer + (y * d.width * 3 + x * 3 + 1) == q) ≡ false = ground arith in
      let e : (buffer + (y * d.width * 3 + x * 3 + 2) == q) ≡ false = ground arith in
      rw (a, c, e) refl

  drawn_self : pixel buffer drawn x y ≡ (r, g, b)
  drawn_self =
      let at = buffer + (y * d.width * 3 + x * 3) in
      let r_at : drawn.memory (at + 2) ≡ r = ground arith in
      let g_at : drawn.memory (at + 1) ≡ g = ground arith in
      let b_at : drawn.memory at ≡ b = ground arith in rw (r_at, g_at, b_at) refl

-- Off the pixel, each pixel of the screen stays.
drawn-pixel :
    (buffer : ℕ) (d : Display) (x y r g b x' y' : ℕ)
    → IsOn d x y
    → IsOn d x' y'
    → (x' ≡ x → y' ≢ y)
    → pixel buffer (drawn buffer d x y r g b) x' y' ≡ pixel buffer d x' y'
drawn-pixel buffer d x y r g b x' y' on on' ne =
    let keep = drawn-other buffer d x y r g b in
    let at = buffer + (y' * d.width * 3 + x' * 3) in
    elim (apart d x y x' y' on on' ne) [
      | inl far ↦
          rw
            (
              keep at (inr (omega arith)),
              keep (at + 1) (inr (omega arith)),
              keep (at + 2) (inr (omega arith)),
            )
            refl
      | inr near ↦
          rw
            (
              keep at (inl (omega arith)),
              keep (at + 1) (inl (omega arith)),
              keep (at + 2) (inl (omega arith)),
            )
            refl
    ]

-- At a position on the screen, `draw` of a color answers 1, that pixel then has this color, and every
-- other pixel of the screen has the color that it had.
pub draw_lem :
    (buffer : ℕ) (d : Display) (x y r g b x' y' : ℕ)
    → IsOn d x y
    → r < 256
    → g < 256
    → b < 256
    → IsOn d x' y'
    → let (ok, after) = draw buffer x y r g b d in
      (ok ≡ 1)
      × (pixel buffer after x' y'
          ≡ (if x' == x && y' == y then (r, g, b) else pixel buffer d x' y'))
draw_lem buffer d x y r g b x' y' on hr hg hb on' = rw (draw-drawn buffer d x y r g b on hr hg hb) (
  refl,
  elim (Bool-cases (x' == x && y' == y)) [
    | inl same ↦
        let e : x' ≡ x = ground arith in
        let f : y' ≡ y = ground arith in rw same (rw (e, f) (drawn_self buffer d x y r g b))
    | inr other ↦
        rw other (drawn-pixel buffer d x y r g b x' y' on on' (λ e f. absurd (differ e f other)))
  ],
)
  where
    differ : x' ≡ x → y' ≡ y → (x' == x && y' == y) ≡ false → ⊥
    differ e f h = ground arith

-- `draw` tests the place in the buffer only, so a column past the right end is one of the next row.
pub draw-next_row :
    (buffer : ℕ) (d : Display) (x y r g b : ℕ)
    → x + d.width < 2 ^ 32
    → y + 1 < 2 ^ 32
    → draw buffer (x + d.width) y r g b d ≡ draw buffer x (y + 1) r g b d
unfolding draw sys_draw bga_draw_pixel
draw-next_row buffer d x y r g b hx hy =
    let a : (x + d.width) % 2 ^ 32 ≡ x + d.width = omega arith in
    let c : y % 2 ^ 32 ≡ y = omega arith in
    let e : x % 2 ^ 32 ≡ x = omega arith in
    let f : (y + 1) % 2 ^ 32 ≡ y + 1 = omega arith in
    let same : y * d.width * 3 + (x + d.width) * 3 ≡ (y + 1) * d.width * 3 + x * 3 =
      omega (arith, add-mul y 1 d.width) in
    rw (a, c, e, f, same) refl
