-- ===== src/Packer.antt =====
-- Toolchain/ModulePacker/main.c: the image of the kernel with the modules behind it. A file is its bytes;
-- a stream that is read is what is left of it and its end-of-file mark, and one that is written is what
-- was written.
pub mod Image
pub mod Loaded
pub mod Boot
pub mod Options
mod Tests
use so_realtime.Prelude.{
  ℕ, zero, suc, ◌+◌, ◌/◌, ◌%◌, ◌^◌, Bool, true, false, Option, none, some, List, [], ◌∷◌, ◌++◌,
  length, take, drop, ltb, if◌then◌else◌, Outcome, done, timeout, ◌>>=◌,
}

-- `BUFFER_SIZE`
abbrev pub block_size : ℕ
block_size = 128

pub record Stream : Type 0 where
  pub rest : List ℕ
  pub at_end : Bool

abbrev pub opened : List ℕ → Stream
opened bytes = record { rest = bytes; at_end = false }

-- `fread` of single bytes: a read that finds fewer than it asks for sets the mark.
abbrev pub fread : ℕ → Stream → List ℕ × Stream
fread n s = (take n s.rest, record { rest = drop n s.rest; at_end = ltb (length s.rest) n })

-- The four bytes of a word, lowest first.
abbrev pub word_bytes : ℕ → List ℕ
word_bytes n = n % 256 ∷ n / 256 % 256 ∷ n / 65536 % 256 ∷ n / 16777216 % 256 ∷ []

-- The loop of `write_file`, on fuel.
unfoldable pub write_blocks : ℕ → List ℕ → Stream → Outcome (List ℕ)
write_blocks zero target source = timeout
write_blocks (suc fuel) target source =
    let read = fread block_size source in
    let rest = write_blocks fuel (target ++ read.0) read.1 in
    if source.at_end then done target else rest

-- Each round but the last two takes a byte at least.
unfoldable pub write_file : List ℕ → Stream → Outcome (List ℕ)
unfolding write_blocks
write_file target source = write_blocks (length source.rest + 2) target source

unfoldable pub write_size : List ℕ → List ℕ → List ℕ
write_size target file = target ++ word_bytes (length file % 2 ^ 32)

-- The loop of `buildImage`, for the modules left.
unfoldable pub write_modules : List (List ℕ) → List ℕ → Outcome (List ℕ)
unfolding write_size write_file
write_modules [] target = done target
write_modules (file ∷ files) target =
    write_file (write_size target file) (opened file) >>= λ t. write_modules files t

-- `none` as the target stands for a file that cannot be created; the result is what was written, if it
-- succeeds.
unfoldable pub build_image : List ℕ → List (List ℕ) → Option (List ℕ) → Outcome (Option (List ℕ))
unfolding write_file write_modules
build_image kernel modules none = done none
build_image kernel modules (some target) = write_file target (opened kernel) >>= λ t.
    write_modules modules (t ++ word_bytes (length modules % 2 ^ 32)) >>= λ image. done (some image)

-- A file that cannot be read is `none`. The readable files, if all are.
unfoldable pub check_files : List (Option (List ℕ)) → Option (List (List ℕ))
check_files [] = some []
check_files (none ∷ files) = none
check_files (some bytes ∷ files) = elim (check_files files) [
  | none ↦ none
  | some r ↦ some (bytes ∷ r)
]

-- `main` behind the parser of its arguments: the exit status and the image that is written, if any. The
-- target is empty when it is opened.
unfoldable pub pack : List (Option (List ℕ)) → Bool → Outcome (ℕ × Option (List ℕ))
unfolding check_files build_image
pack files can_create = elim (check_files files) [
  | none ↦ done (1, none)
  | some [] ↦ done (1, none)
  | some (kernel ∷ modules) ↦
      (build_image kernel modules (if can_create then some [] else none) >>= λ o. elim o [
        | none ↦ done (1, none)
        | some image ↦ done (0, some image)
      ])
]
