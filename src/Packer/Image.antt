-- ===== src/Packer/Image.antt =====
-- What the packer writes.
use so_realtime.Prelude.{
  ℕ, zero, suc, ◌+◌, ◌-◌, ◌%◌, ◌^◌, ◌≤◌, ◌<◌, ◌≡◌, refl, ap, true, Bool-cases, inl, inr, some, List,
  [], ◌∷◌, ◌++◌, length, take, drop, ltb, arith, done, append_assoc, append-nil,
}
use so_realtime.Packer.{
  block_size, opened, word_bytes, write_blocks, write_file, write_size, write_modules, build_image,
}

-- What stands in the image for the modules.
abbrev pub packed : List (List ℕ) → List ℕ
packed [] = []
packed (file ∷ files) = word_bytes (length file % 2 ^ 32) ++ (file ++ packed files)

length-drop : (n : ℕ) (xs : List ℕ) → length (drop n xs) ≡ length xs - n
length-drop zero xs = omega arith
length-drop (suc n) [] = omega arith
length-drop (suc n) (x ∷ xs) = omega (arith, length-drop n xs)

take-drop : (n : ℕ) (xs : List ℕ) → take n xs ++ drop n xs ≡ xs
take-drop zero xs = refl
take-drop (suc n) [] = refl
take-drop (suc n) (x ∷ xs) = ap (λ l. x ∷ l) (take-drop n xs)

drop_all : (n : ℕ) (xs : List ℕ) → length xs ≤ n → drop n xs ≡ []
drop_all zero [] h = refl
drop_all zero (x ∷ xs) h = absurd (omega arith)
drop_all (suc n) [] h = refl
drop_all (suc n) (x ∷ xs) h = drop_all n xs (omega arith)

write_blocks_end :
    (fuel : ℕ) (target rest : List ℕ)
    → write_blocks (suc fuel) target (record { rest = rest; at_end = true }) ≡ done target
unfolding write_blocks
write_blocks_end fuel target rest = refl

write_blocks_step :
    (fuel : ℕ) (target rest : List ℕ)
    → write_blocks (suc fuel) target (opened rest)
      ≡ write_blocks fuel
          (target ++ take block_size rest)
          (record { rest = drop block_size rest; at_end = ltb (length rest) block_size })
unfolding write_blocks
write_blocks_step fuel target rest = refl

take_all : (n : ℕ) (xs : List ℕ) → length xs ≤ n → take n xs ≡ xs
take_all n xs h = rw (drop_all n xs h, append-nil (take n xs)) at (take-drop n xs)

write_blocks_lem :
    (fuel : ℕ) (target rest : List ℕ)
    → length rest + 1 < fuel
    → write_blocks fuel target (opened rest) ≡ done (target ++ rest)
write_blocks_lem zero target rest h = absurd (omega arith)
write_blocks_lem (suc zero) target rest h = absurd (omega arith)
write_blocks_lem (suc (suc fuel)) target rest h = elim (Bool-cases (ltb (length rest) block_size)) [
  | inl last ↦
      let all : take block_size rest ≡ rest = take_all block_size rest (ground arith) in
      rw (write_blocks_step (suc fuel) target rest, last, all)
        (write_blocks_end fuel (target ++ rest) (drop block_size rest))
  | inr more ↦
      let here =
        write_blocks_lem (suc fuel) (target ++ take block_size rest) (drop block_size rest)
          (ground (arith, length-drop block_size rest)) in
      rw (write_blocks_step (suc fuel) target rest, more)
        (rw
          (
            append_assoc target (take block_size rest) (drop block_size rest),
            take-drop block_size rest,
          )
          at here)
]

write_file_lem : (target bytes : List ℕ) → write_file target (opened bytes) ≡ done (target ++ bytes)
unfolding write_file
write_file_lem target bytes = write_blocks_lem (length bytes + 2) target bytes (omega arith)

write_modules_lem :
    (files : List (List ℕ)) (target : List ℕ)
    → write_modules files target ≡ done (target ++ packed files)
unfolding write_modules write_size
write_modules_lem [] target = rw (append-nil target)
write_modules_lem (file ∷ files) target =
    rw
      (
        write_modules,
        write_file_lem (target ++ word_bytes (length file % 2 ^ 32)) file,
        write_modules_lem files ((target ++ word_bytes (length file % 2 ^ 32)) ++ file),
        append_assoc (target ++ word_bytes (length file % 2 ^ 32)) file (packed files),
        append_assoc target (word_bytes (length file % 2 ^ 32)) (file ++ packed files),
      )
      refl

-- `build_image` on a new target writes the kernel, the number of the modules as a word, and each module
-- behind its size as a word.
pub build_image_lem :
    (kernel : List ℕ) (modules : List (List ℕ))
    → build_image kernel modules (some [])
      ≡ done (some (kernel ++ (word_bytes (length modules % 2 ^ 32) ++ packed modules)))
unfolding build_image
build_image_lem kernel modules =
    rw
      (
        write_file_lem [] kernel,
        write_modules_lem modules (kernel ++ word_bytes (length modules % 2 ^ 32)),
        append_assoc kernel (word_bytes (length modules % 2 ^ 32)) (packed modules),
      )
      refl
