-- ===== src/Syscalls/Input.antt =====
-- What the reading calls deliver.
use so_realtime.Prelude.{
  ℕ, zero, suc, ◌+◌, ◌<◌, ◌≡◌, ◌≢◌, refl, ap, ap₂, false, List, [], ◌∷◌, ◌++◌, length, take,
  drop-append, replicate, ◌==◌, arith, All, Ensures, Ensures-bind,
}
use so_realtime.Keyboard.{Keyboard, empty_key, get_key}
use so_realtime.Keyboard.Ring.{Waiting, get_key-Waiting}
use so_realtime.Syscalls.{press_all, read_stdin, read_data_from, read_stddata}

-- What is read, and the keys that wait then.
abbrev pub Delivers : List ℕ → List ℕ → List ℕ × Keyboard → Type 0
Delivers read left r = (r.0 ≡ read) × Waiting r.1 left

-- While enough keys wait, none of them 255, `read_stdin` needs one poll for each character, delivers them
-- in the order in which they were typed, and leaves the others waiting.
pub read_stdin-Waiting :
    (len : ℕ) (keys more : List ℕ) (k : Keyboard)
    → length keys ≡ len
    → All (λ c. c ≢ empty_key) keys
    → Waiting k (keys ++ more)
    → Ensures (Delivers keys more) (read_stdin len (replicate len []) k)
unfolding read_stdin
read_stdin-Waiting zero [] more k h real w = (refl, w)
read_stdin-Waiting zero (key ∷ keys) more k h real w = absurd (omega arith)
read_stdin-Waiting (suc len) [] more k h real w = absurd (omega arith)
read_stdin-Waiting (suc len) (key ∷ keys) more k h real w =
    let (here, rest) = get_key-Waiting k key (keys ++ more) w in
    let key_real : ((get_key k).0 == empty_key) ≡ false = ground (arith, real.0) in
    rw (press_all, key_real)
      (Ensures-bind (Delivers keys more) (Delivers (key ∷ keys) more)
        (read_stdin len (replicate len []) (get_key k).1) _
        (λ q d. (ap₂ (λ x xs. x ∷ xs) here d.0, d.1))
        (read_stdin-Waiting len keys more (get_key k).1 (omega arith) real.1 rest))

take-nil : (len : ℕ) → take {A = ℕ} len [] ≡ []
take-nil zero = refl
take-nil (suc len) = refl

read_data_from-eq : (len : ℕ) (text : List ℕ) → read_data_from len text ≡ take len text
unfolding read_data_from
read_data_from-eq zero text = refl
read_data_from-eq (suc len) [] = refl
read_data_from-eq (suc len) (c ∷ cs) = ap (λ xs. c ∷ xs) (read_data_from-eq len cs)

-- What a read at the place `before` with `rest` behind it comes to.
abbrev pub next_part : ℕ → ℕ → List ℕ → List ℕ × ℕ × ℕ
next_part len before [] = (empty_key ∷ [], 0, 0)
next_part len before (c ∷ cs) =
    (take len (c ∷ cs), length (take len (c ∷ cs)), before + length (take len (c ∷ cs)))

-- At any place of the module's text that is not its end, `read_stddata` of at least one character
-- delivers what comes next, at most `len` characters, and moves on by as many. At the end it delivers
-- `EOF`, answers 0, and goes back to the start.
pub read_stddata_lem :
    (len : ℕ) (before rest : List ℕ)
    → 0 < len
    → read_stddata len (before ++ rest) (length before) ≡ next_part len (length before) rest
unfolding read_stddata
read_stddata_lem len before [] h =
    rw (drop-append before [], read_data_from-eq len [], take-nil len) refl
read_stddata_lem zero before (c ∷ cs) h = absurd (omega arith)
read_stddata_lem (suc len) before (c ∷ cs) h =
    let something : (suc (length (read_data_from len cs)) == 0) ≡ false = ground arith in
    rw (drop-append before (c ∷ cs), something, read_data_from-eq len cs) refl
