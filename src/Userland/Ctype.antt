-- ===== src/Userland/Ctype.antt =====
-- Userland/CodeModule/lib/ctype.c: the classes of characters, over the codes from 0 on. (The code's
-- `char` is signed; the bytes above 127, which it takes for negative numbers, are not passed here.)
pub mod Classes
mod Tests
use so_realtime.Prelude.{ℕ, ◌+◌, ◌-◌, ◌%◌, ◌^◌, Bool, ◌&&◌, ◌||◌, not, leb, ◌==◌, if◌then◌else◌}

unfoldable pub isdigit : ℕ → Bool
isdigit c = leb b'0' c && leb c b'9'

unfoldable pub isalpha : ℕ → Bool
isalpha c = leb b'A' c && leb c b'z'

unfoldable pub isalnum : ℕ → Bool
unfolding isalpha isdigit
isalnum c = isalpha c || isdigit c

unfoldable pub islower : ℕ → Bool
islower c = leb b'a' c && leb c b'z'

unfoldable pub isupper : ℕ → Bool
isupper c = leb b'A' c && leb c b'Z'

-- space, `\t`, `\n`, `\v`, `\f`, `\r`
unfoldable pub isspace : ℕ → Bool
isspace c = c == 32 || c == 9 || c == 10 || c == 11 || c == 12 || c == 13

unfoldable pub isxdigit : ℕ → Bool
unfolding isdigit
isxdigit c = isdigit c || leb b'A' c && leb c b'F' || leb b'a' c && leb c b'f'

unfoldable pub tolower : ℕ → ℕ
unfolding islower
tolower c = if islower c then c else c + 32

-- The result is an `int`: below 32 it is negative.
unfoldable pub toupper : ℕ → ℕ
unfolding isupper
toupper c = if isupper c then c else (c + 2 ^ 32 - 32) % 2 ^ 32

unfoldable pub iscntrl : ℕ → Bool
iscntrl c = leb 0 c && leb c 31 || c == 127

unfoldable pub isprint : ℕ → Bool
unfolding iscntrl
isprint c = not (iscntrl c)

unfoldable pub isgraph : ℕ → Bool
unfolding isprint
isgraph c = isprint c && not (c == 32)

unfoldable pub ispunct : ℕ → Bool
unfolding isgraph isalnum
ispunct c = isgraph c && not (isalnum c)

unfoldable pub isblank : ℕ → Bool
isblank c = c == 32 || c == 9
