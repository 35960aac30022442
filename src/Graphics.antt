-- ===== src/Graphics.antt =====
-- Kernel/system/video/bga.c, its system calls in Kernel/system/syscalls.c, and `draw` of
-- Userland/CodeModule/lib/syscalls.c: the graphics adapter. Its registers are behind the port functions,
-- which are assembly: they are the two steps on a state, to write a word and to read one. The linear frame
-- buffer is a part of memory from its address on.
pub mod Pixel
pub mod Mode
mod Tests
use so_realtime.Prelude.{
  ℕ, zero, suc, ◌+◌, ◌-◌, ◌*◌, ◌/◌, ◌%◌, ◌^◌, Bool, true, false, ltb, leb, ◌==◌, if◌then◌else◌,
  Outcome, ◌>>=◌,
}
use so_realtime.Console.{Console, nc_print_dec, nc_newline}
use so_realtime.KernelLib.{Bytes, write_byte}

-- `write_port_word` and `read_port_word`
pub record Ports (S : Type 0) : Type 0 where
  pub write_port_word : ℕ → ℕ → S → S
  pub read_port_word : ℕ → S → ℕ

-- `VBE_DISPI_IOPORT_INDEX`
abbrev pub index_port : ℕ
index_port = 462

-- `VBE_DISPI_IOPORT_DATA`
abbrev pub data_port : ℕ
data_port = 463

-- `VBE_DISPI_INDEX_ID` and those after it, up to `VBE_DISPI_INDEX_BANK`
abbrev pub id_register : ℕ
id_register = 0

abbrev pub xres_register : ℕ
xres_register = 1

abbrev pub yres_register : ℕ
yres_register = 2

abbrev pub bpp_register : ℕ
bpp_register = 3

abbrev pub enable_register : ℕ
enable_register = 4

abbrev pub bank_register : ℕ
bank_register = 5

-- `VBE_DISPI_ID4`
abbrev pub bga_id : ℕ
bga_id = 45252

-- The static variables of the file, and the memory.
pub record Display : Type 0 where
  pub width : ℕ
  pub height : ℕ
  pub bpp : ℕ
  pub memory : Bytes

-- `read_port_word` answers a `char`, which is negative from 128 on: the `unsigned short` that it becomes.
abbrev pub char_to_short : ℕ → ℕ
char_to_short c = if ltb (c % 256) 128 then c % 256 else c % 256 + (2 ^ 16 - 256)

module _ {S : Type 0} (ports : Ports S) where
  unfoldable pub bga_write_register : ℕ → ℕ → S → S
  bga_write_register index value s =
      ports.write_port_word data_port (value % 2 ^ 16)
        (ports.write_port_word index_port (index % 2 ^ 16) s)

  unfoldable pub bga_read_register : ℕ → S → ℕ × S
  bga_read_register index s =
      let s' = ports.write_port_word index_port (index % 2 ^ 16) s in
      (char_to_short (ports.read_port_word data_port s'), s')

  unfoldable pub bga_is_available : S → ℕ × S
  bga_is_available s =
      let r = bga_read_register id_register s in ((if r.0 == bga_id then 1 else 0), r.1)

  unfoldable pub bga_set_bank : ℕ → S → S
  bga_set_bank bank s = bga_write_register bank_register bank s

  -- `VBE_DISPI_ENABLED`, `VBE_DISPI_LFB_ENABLED` and `VBE_DISPI_NOCLEARMEM`, which have no bit in common
  abbrev pub enable_flags : Bool → Bool → ℕ
  enable_flags linear clear = 1 + (if linear then 64 else 0) + (if clear then 0 else 128)

  unfoldable pub bga_set_video_mode : ℕ → ℕ → ℕ → Bool → Bool → S × Display → S × Display
  bga_set_video_mode w h depth linear clear (s, d) = (
    bga_write_register enable_register (enable_flags linear clear) (
        bga_write_register bpp_register depth (
          bga_write_register yres_register h
            (bga_write_register xres_register w (bga_write_register enable_register 0 s)))),
    record d { width = w; height = h; bpp = depth },
  )

  -- `BgaGetCapabilities` prints the three sizes that it reads, on the early console.
  unfoldable pub bga_get_capabilities : S × Console → S × Outcome Console
  bga_get_capabilities (s, console) =
      let w = bga_read_register xres_register (bga_write_register enable_register 2 s) in
      let h = bga_read_register yres_register w.1 in
      let depth = bga_read_register bpp_register h.1 in
      (
        depth.1,
        nc_newline (nc_print_dec w.0 console) >>= λ c.
            nc_newline (nc_print_dec h.0 c) >>= λ e. nc_newline (nc_print_dec depth.0 e),
      )

-- `width * height * 3`, an `unsigned int`
abbrev pub buffer_bytes : Display → ℕ
buffer_bytes d = d.width * d.height * 3 % 2 ^ 32

-- The three bytes of a pixel at `pos`, an `uint32_t` that grows by one.
abbrev pub write_pixel : Bytes → ℕ → ℕ → ℕ → ℕ → ℕ → Bytes
write_pixel m buffer pos r g b =
    write_byte (write_byte (write_byte m (buffer + pos) b) (buffer + (pos + 1) % 2 ^ 32) g)
      (buffer + (pos + 2) % 2 ^ 32) r

-- In what follows, `buffer` is the address that `addressAddress` points to.
unfoldable pub bga_draw_pixel : ℕ → ℕ → ℕ → ℕ → ℕ → ℕ → Display → ℕ × Display
bga_draw_pixel buffer x y r g b d =
    let pos = (y * d.width * 3 + x * 3) % 2 ^ 32 in
    if leb (buffer_bytes d) pos
    then (0, d)
    else (1, record d { memory = write_pixel d.memory buffer pos r g b })

-- The inner loop of `BgaDrawRect` from `j` on, on the rounds left: whether it came to its end.
unfoldable pub draw_column : ℕ → ℕ → ℕ → ℕ → ℕ → ℕ → ℕ → Display → Bool × Display
draw_column buffer r g b i j zero d = (true, d)
draw_column buffer r g b i j (suc n) d =
    let drawn = bga_draw_pixel buffer i j r g b d in
    let rest = draw_column buffer r g b i (j + 1) n drawn.1 in
    if drawn.0 == 0 then (false, drawn.1) else rest

-- The outer loop from `i` on, on the rounds left; each column has `h` rounds from `y` on.
unfoldable pub draw_columns : ℕ → ℕ → ℕ → ℕ → ℕ → ℕ → ℕ → ℕ → Display → Display
draw_columns buffer r g b i y h zero d = d
draw_columns buffer r g b i y h (suc n) d =
    let column = draw_column buffer r g b i y h d in
    let rest = draw_columns buffer r g b (i + 1) y h n column.1 in
    if column.0 then rest else column.1

-- The rounds of a loop from `x` to below `x + w`, an `unsigned int`. Both ends are below 2^31.
abbrev pub rounds : ℕ → ℕ → ℕ
rounds x w = (x + w) % 2 ^ 32 - x

unfoldable pub bga_draw_rect : ℕ → ℕ → ℕ → ℕ → ℕ → ℕ → ℕ → ℕ → Display → Display
bga_draw_rect buffer r g b x y w h d = draw_columns buffer r g b x y (rounds y h) (rounds x w) d

-- Where `linearBuffer[i]` stands for an `int` `i`, which is negative from 2^31 on.
abbrev pub at_index : ℕ → ℕ → ℕ
at_index buffer i = if ltb i (2 ^ 31) then buffer + i else (buffer + i + (2 ^ 64 - 2 ^ 32)) % 2 ^ 64

-- The loop of `BgaFillScreen` from `i` on, on the rounds left. The test compares `i` as an `unsigned int`,
-- and what `i++` makes of 2^31 - 1 is taken to wrap around.
unfoldable pub fill_pixels : ℕ → ℕ → ℕ → ℕ → ℕ → ℕ → Bytes → Bytes
fill_pixels buffer r g b i zero m = m
fill_pixels buffer r g b i (suc n) m = fill_pixels buffer r g b (i + 3) n (
    write_byte (write_byte (write_byte m (at_index buffer i) b) (at_index buffer (i + 1)) g)
      (at_index buffer (i + 2)) r)

-- A last round that starts within the size is done whole. A size is at most 2^32 - 1, which 3 divides, so
-- that `i` reaches it without passing 2^32.
unfoldable pub bga_fill_screen : ℕ → ℕ → ℕ → ℕ → Display → Display
bga_fill_screen buffer r g b d = record d {
  memory = fill_pixels buffer r g b 0 ((buffer_bytes d + 2) / 3) d.memory;
}

-- `sys_draw`: the color has a byte for each of red, green and blue.
unfoldable pub sys_draw : ℕ → ℕ → ℕ → ℕ → Display → ℕ × Display
sys_draw buffer x y color d =
    bga_draw_pixel buffer (x % 2 ^ 32) (y % 2 ^ 32) (color / 65536 % 256) (color / 256 % 256)
      (color % 256) d

-- `draw` of the user's library
unfoldable pub draw : ℕ → ℕ → ℕ → ℕ → ℕ → ℕ → Display → ℕ × Display
draw buffer x y r g b d =
    let color = (((0 + r) * 256 % 2 ^ 32 + g) % 2 ^ 32 * 256 % 2 ^ 32 + b) % 2 ^ 32 in
    sys_draw buffer x y color d

-- `sys_video`, for `video_mode_enabled`, without the line that it prints. The depth that is asked for does
-- not count.
unfoldable pub sys_video :
    {S : Type 0} → Ports S → ℕ → ℕ → ℕ → Bool → S × Display → Bool × S × Display
sys_video ports buffer w h enabled (s, d) =
    let set = bga_set_video_mode ports (w % 2 ^ 32) (h % 2 ^ 32) 24 true true (s, d) in
    if enabled then (true, s, d) else (true, set.0, bga_fill_screen buffer 0 0 0 set.1)
