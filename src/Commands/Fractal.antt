-- ===== src/Commands/Fractal.antt =====
-- Userland/CodeModule/shell/commands.c: the command `fractal`.
pub mod Lines
pub mod Shown
mod Tests
use so_realtime.Prelude.{
  ℕ, zero, suc, ◌%◌, Bool, Option, none, some, List, [], ◌∷◌, ◌++◌, length, ltb, ◌==◌, true,
  if◌then◌else◌, codes, Outcome, done, fault, timeout, ◌>>=◌,
}
use so_realtime.Graphics.{Ports, Display}
use so_realtime.Fractals.{Doubles, default_width, default_height, mandelbrot, julia_set}
use so_realtime.Syscalls.{stderr, stddata}
use so_realtime.Userland.Calls.{video}
use so_realtime.Userland.Strings.{minus_one32, strcmp}
use so_realtime.Userland.Stdio.{Arg, str, int, Scan, printf, fprintf, fscanf, before}
use so_realtime.Commands.{Run, refuse, shows}

-- Whether the screen is in video mode, the registers of the adapter and the display; and the characters
-- that STDDATA has to come.
pub record View (S : Type 0) : Type 0 where
  pub enabled : Bool
  pub registers : S
  pub display : Display
  pub data_text : List ℕ

-- What a line of the data has to have: a name for the array of 5 characters, and seven numbers.
pub record Parameters : Type 0 where
  pub name : List ℕ
  pub iter : ℕ
  pub inside : ℕ × ℕ × ℕ
  pub outside : ℕ × ℕ × ℕ

abbrev pub name_size : ℕ
name_size = 5

-- Whether "%s" stays in the array.
unfoldable pub name_fits : List Arg → Bool
name_fits (str name ∷ values) = ltb (length name) name_size
name_fits values = true

-- `args == 8`, with the values. The colors become bytes in the call of `mandelbrot`.
unfoldable pub parameters : Scan → Option Parameters
parameters
      (read, str name ∷ int iter ∷ int r ∷ int g ∷ int b ∷ int r2 ∷ int g2 ∷ int b2 ∷ [], shown) =
    if read == 8
    then some (record {
      name = name;
      iter = iter;
      inside = (r % 256, g % 256, b % 256);
      outside = (r2 % 256, g2 % 256, b2 % 256);
    })
    else none
parameters r = none

-- "%s %d %d %d %d %d %d %d"
abbrev pub data_format : List ℕ
data_format = codes "%s %d %d %d %d %d %d %d"

module _ {S D : Type 0} (ports : Ports S) (fl : Doubles D) (buffer : ℕ) where
  abbrev pub enter_video : View S → View S
  enter_video v =
      let (enabled, s, d) =
        video ports buffer default_width default_height v.enabled (v.registers, v.display) in
      record v { enabled = enabled; registers = s; display = d }

  -- One round of the loop with these parameters.
  abbrev pub show_mandelbrot : Parameters → View S → View S
  show_mandelbrot p v =
      let w = enter_video v in
      record w { display = mandelbrot fl buffer p.iter p.inside p.outside w.display }

  -- `while (1)`, on fuel.
  unfoldable pub mandelbrot_lines : ℕ → View S → Run (View S)
  mandelbrot_lines zero v = timeout
  mandelbrot_lines (suc fuel) v = fscanf stddata data_format v.data_text >>= λ r.
      let left = record v { data_text = r.2 } in
      let drawn = λ (p : Parameters). mandelbrot_lines fuel (show_mandelbrot p left) in
      if name_fits r.0.1
      then shows r.1
          (elim (parameters r.0) [ none ↦ refuse "Wrong format!\n" left | some p ↦ drawn p ])
      else fault

  unfoldable pub fractal : ℕ → List (List ℕ) → View S → Run (View S)
  fractal fuel [] v = printf (codes "Available fractals: \n") [] >>= λ a.
      printf (codes "\t1- Mandelbrot\n") [] >>= λ b.
      printf (codes "\t2- Julia Set\n") [] >>= λ c. done ((a.0 ++ b.0 ++ c.0, 0), v)
  fractal fuel (option ∷ []) v =
      let lines = mandelbrot_lines fuel v in
      let julia = λ (w : View S). record w { display = julia_set fl buffer w.display } in
      let invalid = fprintf stderr (codes "Invalid option '%s'\n") (str option ∷ []) >>= λ w.
      done ((w.0, minus_one32), v) in
      if strcmp option (codes "1") == 0
      then lines
      else if strcmp option (codes "2") == 0
      then done (([], 0), julia (enter_video v))
      else invalid
  fractal fuel (option ∷ other ∷ argv) v = refuse "Too many arguments!\n" v
