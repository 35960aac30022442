-- ===== src/Session/Typing.antt =====
-- How a typed line reaches the shell.
use so_realtime.Prelude.{
  ℕ, zero, suc, ◌+◌, ◌-◌, ◌<◌, ◌≡◌, ◌≢◌, ◌∙◌, ap, ap₂, refl, sym, false, ◌||◌, ◌&&◌, List, [], ◌∷◌,
  ◌++◌, length, length-snoc, append_assoc, append-nil, replicate, set, set-middle, All, leb, ◌==◌,
  arith, Outcome, done, fault, timeout,
}
use so_realtime.Userland.Stdio.{putchar}
use so_realtime.Userland.Stdio.Printed.{fputc_lem}
use so_realtime.Shell.{Line, buffer_size, command_names, update_shell}
use so_realtime.Session.{World, Platform, echo_key, update, and_then, main_loop}

-- A character that a key puts into the line.
abbrev pub IsTyped : ℕ → Type 0
IsTyped c = (c < 128) × (c ≢ 0) × (c ≢ 8) × (c ≢ 10)

-- The line with this text and nothing behind it.
abbrev pub line_with : List ℕ → Line
line_with text = record {
  buffer = text ++ replicate (buffer_size - length text) 0;
  current_pos = length text;
}

-- The first character is no space.
abbrev pub Starts : List ℕ → Type 0
Starts [] = Unit
Starts (c ∷ cs) = (c ≢ 32) × (c ≢ 9)

-- Behind a text with room for two characters more stand two characters 0.
pub buffer-line_with :
    (text : List ℕ)
    → length text + 1 < buffer_size
    → (line_with text).buffer ≡ text ++ (0 ∷ 0 ∷ replicate (buffer_size - 2 - length text) 0)
buffer-line_with text h =
    let two : buffer_size - length text ≡ suc (suc (buffer_size - 2 - length text)) = omega arith in
    rw two refl

pub and_then-and_then :
    {W : Type 0} (xs ys : List ℕ) (m : Outcome (List ℕ × Line × W))
    → and_then xs (and_then ys m) ≡ and_then (xs ++ ys) m
and_then-and_then xs ys (done r) = ap (λ o. done (o, r.1, r.2)) (sym (append_assoc xs ys r.0))
and_then-and_then xs ys fault = refl
and_then-and_then xs ys timeout = refl

kept_in :
    (text : List ℕ) (c : ℕ)
    → Starts (text ++ (c ∷ []))
    → ((c == 32 || c == 9) && length text == 0) ≡ false
kept_in [] c (a, b) = ground arith
kept_in (t ∷ text) c s = ground arith

-- Storing a character at the end of the text.
set-line_with :
    (text : List ℕ) (c : ℕ)
    → length text + 1 < buffer_size
    → set (line_with text).buffer (length text) c ≡ (line_with (text ++ (c ∷ []))).buffer
set-line_with text c k =
    let left = buffer_size - length (text ++ (c ∷ [])) in
    let one_more : buffer_size - length text ≡ suc left = omega (arith, length-snoc text c) in
    rw one_more
      (set-middle text (replicate left 0) 0 c ∙ sym (append_assoc text (c ∷ []) (replicate left 0)))

and_then-nil : {W : Type 0} (m : Outcome (List ℕ × Line × W)) → and_then [] m ≡ m
and_then-nil (done r) = refl
and_then-nil fault = refl
and_then-nil timeout = refl

Starts-append :
    (before : List ℕ) (c : ℕ) (text : List ℕ)
    → Starts (before ++ (c ∷ text))
    → Starts (before ++ (c ∷ []))
Starts-append [] c text s = s
Starts-append (b ∷ before) c text s = s

-- One character at the end of the line.
update_shell-line_with :
    (text : List ℕ) (c : ℕ)
    → IsTyped c
    → length text + 1 < buffer_size
    → Starts (text ++ (c ∷ []))
    → (update_shell command_names c (line_with text)).1 ≡ line_with (text ++ (c ∷ []))
unfolding update_shell
update_shell-line_with text c (a, b, e, f) k s =
    let real : (c == 0 || leb 128 c) ≡ false = ground arith in
    let no_end : (c == 10) ≡ false = ground arith in
    let no_erase : (c == 8) ≡ false = ground arith in
    let kept : ((c == 32 || c == 9) && length text == 0) ≡ false = kept_in text c s in
    let room : (length text == buffer_size) ≡ false = ground arith in
    rw (real, no_end, no_erase, kept, room)
      (ap₂ (λ (cells : List ℕ) (pos : ℕ). record { buffer = cells; current_pos = pos })
        (set-line_with text c k) (omega (arith, length-snoc text c)))

-- The world with these keys to come, and the processor at work.
abbrev pub awake : {S A : Type 0} → List ℕ → World S A → World S A
awake keys w = record w { keys = keys; halted = false }

module _ {S A D : Type 0} (platform : Platform S A D) (username : List ℕ) where
  -- A key that is no line end.
  update-line_with :
      (text : List ℕ) (c : ℕ) (w : World S A)
      → IsTyped c
      → length text + 1 < buffer_size
      → Starts (text ++ (c ∷ []))
      → update platform username c (line_with text) w
        ≡ done (c ∷ [], line_with (text ++ (c ∷ [])), w)
  unfolding update echo_key putchar
  update-line_with text c w t k s =
      let real : (c == 0 || leb 128 c) ≡ false = ground (arith, t) in
      let no_end : (c == 10) ≡ false = ground (arith, t) in
      let no_erase : (c == 8) ≡ false = ground (arith, t) in
      let kept = kept_in text c s in
      rw (no_end, real, no_erase, kept, fputc_lem c t.1, update_shell-line_with text c t k s) refl

  -- The keys of a text, one after the other, put it at the end of the line and show it.
  pub main_loop-typed :
      (text before keys : List ℕ) (fuel n : ℕ) (w : World S A)
      → n ≡ length text + fuel
      → All IsTyped text
      → length before + length text < buffer_size
      → Starts (before ++ text)
      → main_loop platform n username (line_with before) (awake (text ++ keys) w)
        ≡ and_then text
            (main_loop platform fuel username (line_with (before ++ text)) (awake keys w))
  unfolding main_loop
  main_loop-typed [] before keys fuel n w e t k s =
      let same : n ≡ fuel = omega arith in rw (same, append-nil before) (sym (and_then-nil _))
  main_loop-typed (c ∷ text) before keys fuel zero w e t k s = absurd (omega arith)
  main_loop-typed (c ∷ text) before keys fuel (suc n) w e (t, ts) k s =
      let one = Starts-append before c text s in
      let longer = length-snoc before c in
      let rest = awake (text ++ keys) w in
      let whole = append_assoc before (c ∷ []) text in
      rw (update-line_with before c rest t (omega arith) one) (
        ap (λ m. and_then (c ∷ []) m)
          (main_loop-typed text (before ++ (c ∷ [])) keys fuel n w (omega arith) ts
            (omega (arith, longer)) (rw whole s))
        ∙ and_then-and_then (c ∷ []) text _
        ∙ ap
            (λ l.
              and_then (c ∷ text) (main_loop platform fuel username (line_with l) (awake keys w)))
            whole)
