-- ===== src/Fractals/Hsv.antt =====
-- The colors of the Julia set.
use so_realtime.Prelude.{ℕ, ◌-◌, ◌*◌, ◌/◌, ◌%◌, ◌≤◌, ◌<◌, ◌≡◌, ◌⊎◌, ◌==◌, if◌then◌else◌, arith}
use native.Mathlib.Nat.{mul-le-mul_left}
use so_realtime.Fractals.{Color, hsv_to_rgb}

-- The largest and the smallest of the three components.
abbrev pub Spans : ℕ → ℕ → Color → Type 0
Spans low high (r, g, b) =
    ((r ≡ high) ⊎ (g ≡ high) ⊎ (b ≡ high))
    × ((r ≡ low) ⊎ (g ≡ low) ⊎ (b ≡ low))
    × (low ≤ r)
    × (r ≤ high)
    × (low ≤ g)
    × (g ≤ high)
    × (low ≤ b)
    × (b ≤ high)

-- A part of the way from the smallest to the largest.
between :
    (s v f : ℕ)
    → s < 256
    → f < 256
    → v < 256
    → (v * (255 - s) / 256 ≤ v * (255 - s * f / 256) / 256) × (v * (255 - s * f / 256) / 256 ≤ v)
between s v f hs hf hv =
    let part = mul-le-mul_left s f≤ in
    let less : 255 - s ≤ 255 - s * f / 256 = omega (arith, part) in
    let most : 255 - s * f / 256 ≤ 256 = omega arith in
    (omega (arith, mul-le-mul_left v less), omega (arith, mul-le-mul_left v most))
  where
    f≤ : f ≤ 256
    f≤ = omega arith

-- The largest component of the color is the value `v`, the smallest is `v` times what the saturation
-- leaves of 256, and no component is above a byte: for bytes `h`, `s` and `v`.
pub hsv_to_rgb-Spans :
    (h s v : ℕ)
    → h < 256
    → s < 256
    → v < 256
    → Spans (if s == 0 then v else v * (255 - s) / 256) v (hsv_to_rgb h s v)
unfolding hsv_to_rgb
hsv_to_rgb-Spans h s v hh hs hv =
    let f = (h - h / 43 * 43) * 6 % 256 in
    let (p_q, q_v) = between s v f hs (omega arith) hv in
    let (p_t, t_v) = between s v (255 - f) hs (omega arith) hv in
    let p : v * (255 - s) / 256 % 256 ≡ v * (255 - s) / 256 = omega arith in
    let q : v * (255 - s * f / 256) / 256 % 256 ≡ v * (255 - s * f / 256) / 256 = omega arith in
    let t : v * (255 - s * (255 - f) / 256) / 256 % 256 ≡ v * (255 - s * (255 - f) / 256) / 256 =
      omega arith in
    rw (p, q, t)
      (spans (v * (255 - s) / 256) (v * (255 - s * f / 256) / 256)
        (v * (255 - s * (255 - f) / 256) / 256) (h / 43) p_q q_v p_t t_v)
  where
    spans :
        (p q t region : ℕ)
        → p ≤ q
        → q ≤ v
        → p ≤ t
        → t ≤ v
        → Spans (if s == 0 then v else p) v (
            if s == 0
            then (v, v, v)
            else if region == 0
            then (v, t, p)
            else if region == 1
            then (q, v, p)
            else if region == 2
            then (p, v, t)
            else if region == 3
            then (p, q, v)
            else if region == 4
            then (t, p, v)
            else (v, p, q))
    spans p q t region a b c e = ground arith
