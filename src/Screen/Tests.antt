-- ===== src/Screen/Tests.antt =====
-- The screen at concrete inputs.
use so_realtime.Prelude.{◌-◌, ◌≡◌, ◌^◌, refl, [], ◌∷◌, arith, UnlessFault}
use so_realtime.KernelLib.{Bytes}
use so_realtime.Userland.Numbers.{print_dec}
use so_realtime.Screen.{
  Screen, scroll, putchar, number_chars, count_digits, digits_from, divided, puts_at, puts_from,
  putchar_at,
}
use so_realtime.Screen.Scroll.{scrolled, scroll_lem}
use so_realtime.Screen.Number.{number_chars-eq-print_dec}
use so_realtime.Screen.Bounds.{IsScreen, Kept, putchar-Kept}

-- Blanks everywhere.
abbrev blanks : Bytes
blanks q = b' '

-- The last cell is next.
abbrev full : Screen
full = record { video = blanks; current_loc = 3998; cursor = 0 }

full-IsScreen : IsScreen full
full-IsScreen = record { bytes = λ q. omega arith; even = refl; inside = omega arith }

number_42 : number_chars (2 ^ 32 - 42) ≡ b'-' ∷ b'4' ∷ b'2' ∷ []
unfolding number_chars count_digits digits_from divided
number_42 = refl

-- The least `int` is not printed as a number.
number_least : number_chars (2 ^ 31) ≡ b'-' ∷ b'(' ∷ []
unfolding number_chars
number_least = refl

puts_at_wraps : (puts_at (b'a' ∷ b'b' ∷ []) 7 3 79 blanks).1 640 ≡ b'b'
unfolding puts_at puts_from putchar_at
puts_at_wraps = refl

scroll_lem_example : (scroll full).video 200 ≡ scrolled blanks 200
scroll_lem_example = scroll_lem full 200 (λ q. omega arith)

putchar-Kept_example : UnlessFault (Kept full) (putchar b'x' 7 full)
putchar-Kept_example = putchar-Kept b'x' 7 full (omega arith) (omega arith) full-IsScreen

number_chars-eq-print_dec_example : number_chars 1980 ≡ print_dec 1980
number_chars-eq-print_dec_example =
    number_chars-eq-print_dec 1980 (omega arith) (λ e. absurd (omega arith))
