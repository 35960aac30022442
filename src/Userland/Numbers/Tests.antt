-- ===== src/Userland/Numbers/Tests.antt =====
-- Numbers printed and read at concrete inputs.
use so_realtime.Prelude.{◌-◌, ◌^◌, ◌≡◌, refl, [], ◌∷◌}
use so_realtime.Userland.Numbers.{digit, low_digits, swap_ends, num_to_base, print_dec, print_hex}

print_minus_42 : print_dec (2 ^ 32 - 42) ≡ b'-' ∷ b'4' ∷ b'2' ∷ []
unfolding print_dec num_to_base low_digits swap_ends digit
print_minus_42 = refl

print_hex_beef : print_hex 0xbeef ≡ b'B' ∷ b'E' ∷ b'E' ∷ b'F' ∷ []
unfolding print_hex num_to_base low_digits swap_ends digit
print_hex_beef = refl
