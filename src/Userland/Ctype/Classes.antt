-- ===== src/Userland/Ctype/Classes.antt =====
-- How the classes relate, and where the conversions of case depart from what their names say.
use so_realtime.Prelude.{ℕ, ◌+◌, ◌≡◌, true, false, ◌||◌, ◌&&◌, not, leb, ◌==◌, arith}
use so_realtime.Userland.Ctype.{
  isalpha, isalnum, islower, isupper, tolower, toupper, iscntrl, isgraph, ispunct,
}

-- Every code is a control character, the space, alphanumeric or punctuation, and is one of these only.
pub classes_partition :
    (c : ℕ)
    → ((iscntrl c || (c == 32)) ≡ not (isgraph c))
      × (isgraph c ≡ isalnum c || ispunct c)
      × ((isalnum c && ispunct c) ≡ false)
unfolding iscntrl isgraph isalnum ispunct
classes_partition c = ground arith

-- `isalpha` accepts the letters and the six codes between 'Z' and 'a'.
pub isalpha-eq : (c : ℕ) → isalpha c ≡ (islower c || isupper c || leb 91 c && leb c 96)
unfolding isalpha islower isupper
isalpha-eq c = ground arith

-- `tolower` makes a lower-case letter of each letter.
pub tolower-islower : (c : ℕ) → (islower c || isupper c) ≡ true → islower (tolower c) ≡ true
unfolding tolower isupper
tolower-islower c h = ground arith

pub toupper-isupper : (c : ℕ) → (islower c || isupper c) ≡ true → isupper (toupper c) ≡ true
unfolding toupper islower
toupper-isupper c h = ground arith

-- A digit is not left alone: `tolower` moves every code that is no lower-case letter.
pub tolower_moves : (c : ℕ) → islower c ≡ false → tolower c ≡ c + 32
unfolding tolower
tolower_moves c h = ground arith
