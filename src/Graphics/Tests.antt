-- ===== src/Graphics/Tests.antt =====
-- The graphics adapter at concrete inputs.
use so_realtime.Prelude.{ℕ, ◌≡◌, refl, true, false, ◌==◌, if◌then◌else◌, arith}
use so_realtime.Graphics.{Ports, index_port, Display, draw, sys_video}
use so_realtime.Graphics.Pixel.{IsOn, pixel, draw_lem}
use so_realtime.Graphics.Mode.{KeepsRegisters, InMode, sys_video_lem}

-- Two by two pixels, all 0.
abbrev small : Display
small = record { width = 2; height = 2; bpp = 24; memory = λ q. 0 }

abbrev on_small : IsOn small 1 1
on_small = record { column = omega arith; row = omega arith; fits = omega arith }

draw_lem_example :
    let (ok, after) = draw 1000 1 1 7 8 9 small in (ok ≡ 1) × (pixel 1000 after 1 1 ≡ (7, 8, 9))
draw_lem_example =
    draw_lem 1000 small 1 1 7 8 9 1 1 on_small (omega arith) (omega arith) (omega arith) on_small

-- The selected register, and the registers.
abbrev Adapter : Type 0
Adapter = ℕ × (ℕ → ℕ)

abbrev ports : Ports Adapter
ports = record {
  write_port_word =
      λ p v s. if p == index_port then (v, s.1) else (s.0, λ j. if s.0 == j then v else s.1 j);
  read_port_word = λ p s. s.1 s.0;
}

abbrev register : ℕ → Adapter → ℕ
register j s = s.1 j

ports-KeepsRegisters : KeepsRegisters ports register
ports-KeepsRegisters = record { read = λ i s. refl; write = λ i j v s. refl }

abbrev reset : Adapter
reset = (0, λ j. 0)

sys_video_lem_example :
    let (enabled, s, d) = sys_video ports 1000 640 480 false (reset, small) in
    (enabled ≡ true)
    × InMode ports register ports-KeepsRegisters 640 480 24 (s, d)
    × (pixel 1000 d 5 6 ≡ (0, 0, 0))
sys_video_lem_example =
    sys_video_lem ports register ports-KeepsRegisters 1000 640 480 5 6 reset small (omega arith)
      (omega arith) (omega arith) (omega arith) (omega arith)
