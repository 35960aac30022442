-- ===== src/Userland/Ctype/Tests.antt =====
-- Character classes at concrete inputs.
use so_realtime.Prelude.{◌≡◌, refl, true}
use so_realtime.Userland.Ctype.{isalpha, islower, tolower}

-- The underscore is taken for a letter.
isalpha_underscore : isalpha b'_' ≡ true
unfolding isalpha
isalpha_underscore = refl

tolower_letter : tolower b'Q' ≡ b'q'
unfolding tolower islower
tolower_letter = refl

-- A digit becomes a capital letter less.
tolower_digit : tolower b'5' ≡ b'U'
unfolding tolower islower
tolower_digit = refl
