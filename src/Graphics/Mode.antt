-- ===== src/Graphics/Mode.antt =====
-- Starting the video mode.
use so_realtime.Prelude.{
  ℕ, zero, suc, ◌+◌, ◌-◌, ◌*◌, ◌/◌, ◌%◌, ◌^◌, ◌<◌, ◌≤◌, ◌≡◌, refl, ◌∙◌, ◌&&◌, true, false, leb, ltb,
  ◌==◌, if◌then◌else◌, arith,
}
use so_realtime.KernelLib.{Bytes, write_byte}
use so_realtime.Graphics.{
  Ports, index_port, data_port, Display, buffer_bytes, xres_register, yres_register, bpp_register,
  enable_register, bga_write_register, bga_read_register, bga_set_video_mode, fill_pixels,
  bga_fill_screen, sys_video, char_to_short,
}
use so_realtime.Graphics.Pixel.{IsOn, inside, pixel}

-- The adapter keeps its registers: the index port selects one, and the data port writes it and reads it.
pub record KeepsRegisters {S : Type 0} (ports : Ports S) (register : ℕ → S → ℕ) : Type 0 where
  pub read :
      (i : ℕ) (s : S)
      → ports.read_port_word data_port (ports.write_port_word index_port i s) ≡ register i s
  pub write :
      (i j v : ℕ) (s : S)
      → register j (ports.write_port_word data_port v (ports.write_port_word index_port i s))
        ≡ (if i == j then v else register j s)

-- The bytes of the pixels from `i` on, below 2^31.
fill_pixels_lem :
    (buffer r g b i n q : ℕ) (m : Bytes)
    → i + 3 * n ≤ 2 ^ 31
    → fill_pixels buffer r g b i n m q ≡ (
        if leb (buffer + i) q && ltb q (buffer + i + 3 * n)
        then (if (q - (buffer + i)) % 3 == 0
            then b
            else if (q - (buffer + i)) % 3 == 1
            then g
            else r)
        else m q)
unfolding fill_pixels
fill_pixels_lem buffer r g b i zero q m fits = ground arith
fill_pixels_lem buffer r g b i (suc n) q m fits =
    let first : ltb i (2 ^ 31) ≡ true = ground arith in
    let second : ltb (i + 1) (2 ^ 31) ≡ true = ground arith in
    let third : ltb (i + 2) (2 ^ 31) ≡ true = ground arith in
    let rest =
      fill_pixels_lem buffer r g b (i + 3) n q
        (write_byte (write_byte (write_byte m (buffer + i) b) (buffer + (i + 1)) g)
          (buffer + (i + 2)) r)
        (omega arith) in
    rw (first, second, third) (ground (arith, rest))

-- Once a screen of fewer than 2^31 bytes has been filled, each of its pixels has the color.
pub bga_fill_screen_lem :
    (buffer r g b : ℕ) (d : Display) (x y : ℕ)
    → IsOn d x y
    → d.width * d.height * 3 < 2 ^ 31
    → pixel buffer (bga_fill_screen buffer r g b d) x y ≡ (r, g, b)
unfolding bga_fill_screen
bga_fill_screen_lem buffer r g b d x y on small =
    let (last, hx, hy) = inside d x y on in
    let n = (buffer_bytes d + 2) / 3 in
    let place = y * d.width * 3 + x * 3 in
    let at = buffer + place in
    let fits : 0 + 3 * n ≤ 2 ^ 31 = omega arith in
    let all : place + 2 < 3 * n = omega (arith, last, on.fits) in
    let b_at : fill_pixels buffer r g b 0 n d.memory at ≡ b =
      fill_pixels_lem buffer r g b 0 n at d.memory fits ∙ ground (arith, all) in
    let g_at : fill_pixels buffer r g b 0 n d.memory (at + 1) ≡ g =
      fill_pixels_lem buffer r g b 0 n (at + 1) d.memory fits ∙ ground (arith, all) in
    let r_at : fill_pixels buffer r g b 0 n d.memory (at + 2) ≡ r =
      fill_pixels_lem buffer r g b 0 n (at + 2) d.memory fits ∙ ground (arith, all) in
    rw (b_at, g_at, r_at) refl

module _ {S : Type 0} (ports : Ports S) (register : ℕ → S → ℕ)
    (keeps : KeepsRegisters ports register) where
  register-write :
      (i v j : ℕ) (s : S)
      → i < 2 ^ 16
      → register j (bga_write_register ports i v s) ≡ (if i == j then v % 2 ^ 16 else register j s)
  unfolding bga_write_register
  register-write i v j s h =
      let small : i % 2 ^ 16 ≡ i = omega arith in
      rw (bga_write_register, small) (keeps.write i j (v % 2 ^ 16) s)

  register-read :
      (i : ℕ) (s : S) → i < 2 ^ 16 → (bga_read_register ports i s).0 ≡ char_to_short (register i s)
  unfolding bga_read_register
  register-read i s h = let small : i % 2 ^ 16 ≡ i = omega arith in rw (small, keeps.read i s) refl

  -- The adapter's registers and the display after the mode was set.
  abbrev pub InMode : ℕ → ℕ → ℕ → S × Display → Type 0
  InMode w h depth r =
      (register xres_register r.0 ≡ w % 2 ^ 16)
      × (register yres_register r.0 ≡ h % 2 ^ 16)
      × (register bpp_register r.0 ≡ depth % 2 ^ 16)
      × (register enable_register r.0 ≡ 65)
      × (r.1.width ≡ w)
      × (r.1.height ≡ h)
      × (r.1.bpp ≡ depth)

  bga_set_video_mode-InMode :
      (w h depth : ℕ) (s : S) (d : Display)
      → InMode w h depth (bga_set_video_mode ports w h depth true true (s, d))
  unfolding bga_set_video_mode
  bga_set_video_mode-InMode w h depth s d =
      let s1 = bga_write_register ports enable_register 0 s in
      let s2 = bga_write_register ports xres_register w s1 in
      let s3 = bga_write_register ports yres_register h s2 in
      let s4 = bga_write_register ports bpp_register depth s3 in
      (
        register-write enable_register 65 xres_register s4 (omega arith)
            ∙ register-write bpp_register depth xres_register s3 (omega arith)
            ∙ register-write yres_register h xres_register s2 (omega arith)
            ∙ register-write xres_register w xres_register s1 (omega arith),
        register-write enable_register 65 yres_register s4 (omega arith)
            ∙ register-write bpp_register depth yres_register s3 (omega arith)
            ∙ register-write yres_register h yres_register s2 (omega arith),
        register-write enable_register 65 bpp_register s4 (omega arith)
            ∙ register-write bpp_register depth bpp_register s3 (omega arith),
        register-write enable_register 65 enable_register s4 (omega arith),
        refl,
        refl,
        refl,
      )

  -- The first `sys_video` for a screen of fewer than 2^31 bytes sets the registers of the adapter, if it
  -- keeps them, to the width, the height, 24 bits and the linear buffer, and leaves every pixel black.
  pub sys_video_lem :
      (buffer w h x y : ℕ) (s : S) (d : Display)
      → w < 2 ^ 16
      → h < 2 ^ 16
      → w * h * 3 < 2 ^ 31
      → x < w
      → y < h
      → let (enabled, s', d') = sys_video ports buffer w h false (s, d) in
        (enabled ≡ true) × InMode w h 24 (s', d') × (pixel buffer d' x y ≡ (0, 0, 0))
  unfolding sys_video bga_fill_screen bga_set_video_mode
  sys_video_lem buffer w h x y s d hw hh fits hx hy =
      let column : w % 2 ^ 32 ≡ w = omega arith in
      let row : h % 2 ^ 32 ≡ h = omega arith in
      let set = bga_set_video_mode ports w h 24 true true (s, d) in
      let mode = bga_set_video_mode-InMode w h 24 s d in
      rw (column, row)
        (
          refl,
          mode,
          bga_fill_screen_lem buffer 0 0 0 set.1 x y
              (record { column = hx; row = hy; fits = omega (arith, fits) }) fits,
        )
