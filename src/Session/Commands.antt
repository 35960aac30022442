-- ===== src/Session/Commands.antt =====
-- A command line in the shell, from the keys to the command and back to the prompt.
use so_realtime.Prelude.{
  ℕ, zero, suc, ◌+◌, ◌≤◌, ◌<◌, ◌≡◌, ◌∙◌, ap, refl, Bool, true, false, List, [], ◌∷◌, ◌++◌, length,
  replicate, ◌-◌, append_assoc, All, ◌==◌, if◌then◌else◌, arith, Outcome, done, fault, timeout,
  ◌>>=◌,
}
use so_realtime.Userland.Stdio.{Written, putchar}
use so_realtime.Userland.Stdio.Printed.{fputc_lem}
use so_realtime.Shell.{
  Line, buffer_size, clean_buffer, commands_size, max_args, command_names, get_command,
  update_shell, execute_command, init_commands, add_command,
}
use so_realtime.Shell.Args.{IsWord, spaced, ended}
use so_realtime.Shell.Table.{execute_command-init_commands}
use so_realtime.Session.{
  World, Platform, perform, prompt, command_fn, echo_key, update, and_then, main_loop,
}
use so_realtime.Session.Typing.{
  IsTyped, Starts, line_with, buffer-line_with, awake, and_then-and_then, main_loop-typed,
}

-- A command with its words, each behind a space.
abbrev pub command_line : ℕ → List (List ℕ) → List ℕ
command_line id ws = (get_command id).name ++ spaced ws

command_line-Starts :
    (id : ℕ) (ws : List (List ℕ)) → id < commands_size → Starts (command_line id ws)
unfolding get_command init_commands add_command
command_line-Starts zero ws h = omega arith
command_line-Starts (suc zero) ws h = omega arith
command_line-Starts (suc (suc zero)) ws h = omega arith
command_line-Starts (suc (suc (suc zero))) ws h = omega arith
command_line-Starts (suc (suc (suc (suc zero)))) ws h = omega arith
command_line-Starts (suc (suc (suc (suc (suc zero))))) ws h = omega arith
command_line-Starts (suc (suc (suc (suc (suc (suc zero)))))) ws h = omega arith
command_line-Starts (suc (suc (suc (suc (suc (suc (suc zero))))))) ws h = omega arith
command_line-Starts (suc (suc (suc (suc (suc (suc (suc (suc zero)))))))) ws h = omega arith
command_line-Starts (suc (suc (suc (suc (suc (suc (suc (suc (suc zero))))))))) ws h = omega arith
command_line-Starts (suc (suc (suc (suc (suc (suc (suc (suc (suc (suc zero)))))))))) ws h =
    omega arith
command_line-Starts (suc (suc (suc (suc (suc (suc (suc (suc (suc (suc (suc zero))))))))))) ws h =
    omega arith
command_line-Starts (suc (suc (suc (suc (suc (suc (suc (suc (suc (suc (suc (suc n)))))))))))) ws h =
    absurd (omega arith)

command_line-nonempty :
    (id : ℕ) (ws : List (List ℕ)) → id < commands_size → 0 < length (command_line id ws)
unfolding get_command init_commands add_command
command_line-nonempty zero ws h = omega arith
command_line-nonempty (suc zero) ws h = omega arith
command_line-nonempty (suc (suc zero)) ws h = omega arith
command_line-nonempty (suc (suc (suc zero))) ws h = omega arith
command_line-nonempty (suc (suc (suc (suc zero)))) ws h = omega arith
command_line-nonempty (suc (suc (suc (suc (suc zero))))) ws h = omega arith
command_line-nonempty (suc (suc (suc (suc (suc (suc zero)))))) ws h = omega arith
command_line-nonempty (suc (suc (suc (suc (suc (suc (suc zero))))))) ws h = omega arith
command_line-nonempty (suc (suc (suc (suc (suc (suc (suc (suc zero)))))))) ws h = omega arith
command_line-nonempty (suc (suc (suc (suc (suc (suc (suc (suc (suc zero))))))))) ws h = omega arith
command_line-nonempty (suc (suc (suc (suc (suc (suc (suc (suc (suc (suc zero)))))))))) ws h =
    omega arith
command_line-nonempty (suc (suc (suc (suc (suc (suc (suc (suc (suc (suc (suc zero))))))))))) ws h =
    omega arith
command_line-nonempty (suc (suc (suc (suc (suc (suc (suc (suc (suc (suc (suc (suc n)))))))))))) ws
      h =
    absurd (omega arith)

-- What follows a command: the prompt, unless the processor stands, and the loop.
abbrev pub resume :
    {W : Type 0} (halted : W → Bool) (p : Outcome Written)
    (k : Line → W → Outcome (List ℕ × Line × W)) (out : List ℕ) (l : Line) (r : List ℕ × W)
    → Outcome (List ℕ × Line × W)
resume halted p k out l r =
    let goes_on = p >>= λ q. and_then (out ++ (r.0 ++ q.0)) (k clean_buffer r.1) in
    if halted r.1 then and_then (out ++ r.0) (k l r.1) else goes_on

-- What `update` and the loop make of a command that is done.
abbrev entered :
    {W : Type 0} (halted : W → Bool) (p : Outcome Written) (l : Line) (r : List ℕ × W)
    → Outcome (List ℕ × Line × W)
entered halted p l r =
    let stands = done (r.0, l, r.1) in
    let goes_on = p >>= λ q. done (r.0 ++ q.0, clean_buffer, r.1) in
    if halted r.1 then stands else goes_on

abbrev then_loop :
    {W : Type 0} (k : Line → W → Outcome (List ℕ × Line × W)) (m : Outcome (List ℕ × Line × W))
    → Outcome (List ℕ × Line × W)
then_loop k m = m >>= λ r. and_then r.0 (k r.1 r.2)

-- The binds of one round, in order.
module _ {W : Type 0} (halted : W → Bool) (k : Line → W → Outcome (List ℕ × Line × W)) where
  flatten_done :
      (p : Outcome Written) (out : List ℕ) (l : Line) (r : List ℕ × W) (b : Bool)
      → then_loop k (
          and_then out
            (if b then done (r.0, l, r.1) else (p >>= λ q. done (r.0 ++ q.0, clean_buffer, r.1))))
        ≡ (if b
            then and_then (out ++ r.0) (k l r.1)
            else (p >>= λ q. and_then (out ++ (r.0 ++ q.0)) (k clean_buffer r.1)))
  flatten_done p out l r true = refl
  flatten_done (done q) out l r false = refl
  flatten_done fault out l r false = refl
  flatten_done timeout out l r false = refl

  flatten :
      (p : Outcome Written) (out : List ℕ) (l : Line) (m : Outcome (List ℕ × W))
      → then_loop k (and_then out (m >>= entered halted p l)) ≡ (m >>= resume halted p k out l)
  flatten p out l (done r) = flatten_done p out l r (halted r.1)
  flatten p out l fault = refl
  flatten p out l timeout = refl

  behind_text :
      (p : Outcome Written) (text out : List ℕ) (l : Line) (r : List ℕ × W) (b : Bool)
      → and_then text (
          if b
          then and_then (out ++ r.0) (k l r.1)
          else (p >>= λ q. and_then (out ++ (r.0 ++ q.0)) (k clean_buffer r.1)))
        ≡ (if b
            then and_then ((text ++ out) ++ r.0) (k l r.1)
            else (p >>= λ q. and_then ((text ++ out) ++ (r.0 ++ q.0)) (k clean_buffer r.1)))
  behind_text p text out l r true =
      rw (append_assoc text out r.0) (and_then-and_then text (out ++ r.0) (k l r.1))
  behind_text (done q) text out l r false =
      rw (append_assoc text out (r.0 ++ q.0))
        (and_then-and_then text (out ++ (r.0 ++ q.0)) (k clean_buffer r.1))
  behind_text fault text out l r false = refl
  behind_text timeout text out l r false = refl

  -- A text in front of a command and of what follows it.
  and_then-resume :
      (p : Outcome Written) (text out : List ℕ) (l : Line) (m : Outcome (Written × W))
      → and_then text ((m >>= λ r. done (r.0.0, r.1)) >>= resume halted p k out l)
        ≡ (m >>= λ r. resume halted p k (text ++ out) l (r.0.0, r.1))
  and_then-resume p text out l (done r) = behind_text p text out l (r.0.0, r.1) (halted r.1)
  and_then-resume p text out l fault = refl
  and_then-resume p text out l timeout = refl

module _ {S A D : Type 0} (platform : Platform S A D) (username : List ℕ) where
  abbrev pub go_on : ℕ → List ℕ → Line → List ℕ × World S A → Outcome (List ℕ × Line × World S A)
  go_on fuel out l r =
      resume (λ (w : World S A). w.halted) (prompt platform username)
        (main_loop platform fuel username) out l r

  -- The line end.
  main_loop-enter :
      (fuel : ℕ) (text keys : List ℕ) (w : World S A)
      → 0 < length text
      → main_loop platform (suc fuel) username (line_with text) (awake (b'\n' ∷ keys) w) ≡ (
          perform platform username (execute_command command_names (line_with text)) (awake keys w)
          >>= go_on fuel (b'\n' ∷ []) (line_with text))
  unfolding main_loop update echo_key update_shell putchar
  main_loop-enter fuel text keys w h =
      let typed : (length text == 0) ≡ false = ground arith in
      rw (typed, fputc_lem b'\n' (λ e. absurd (omega arith)))
        (flatten (λ (v : World S A). v.halted) (main_loop platform fuel username)
          (prompt platform username) (b'\n' ∷ []) (line_with text)
          (perform platform username (execute_command command_names (line_with text))
            (awake keys w)))

  -- A line that names a command of the table, typed at the prompt with its words, each behind one space,
  -- shows itself and runs that command with these words on the world, whose other keys still wait. Behind
  -- the command comes the prompt with an empty line, or nothing if the processor stands. The line has
  -- fewer than 255 characters, none of them a line end or an erasure, and at most `MAX_ARGS` words.
  pub main_loop-command :
      (id : ℕ) (ws : List (List ℕ)) (keys : List ℕ) (fuel : ℕ) (w : World S A)
      → id < commands_size
      → All IsWord ws
      → length ws ≤ max_args
      → All IsTyped (command_line id ws)
      → length (command_line id ws) + 1 < buffer_size
      → main_loop platform
          (length (command_line id ws) + suc fuel)
          username
          clean_buffer
          (awake (command_line id ws ++ (b'\n' ∷ keys)) w)
        ≡ (command_fn platform username id ws (awake keys w) >>= λ r.
            go_on fuel
              (command_line id ws ++ (b'\n' ∷ []))
              (line_with (command_line id ws))
              (r.0.0, r.1))
  unfolding clean_buffer perform
  main_loop-command id ws keys fuel w h k few typed short =
      let text = command_line id ws in
      let found =
        execute_command-init_commands id ws (replicate (buffer_size - 2 - length text) 0)
          (line_with text) h k few
          (buffer-line_with text short
            ∙ append_assoc (get_command id).name (spaced ws)
                (ended (replicate (buffer_size - 2 - length text) 0))) in
      main_loop-typed platform username text [] (b'\n' ∷ keys) (suc fuel) (length text + suc fuel) w
        refl typed (omega (arith, short)) (command_line-Starts id ws h)
      ∙ ap (λ m. and_then text m)
          (main_loop-enter fuel text keys w (command_line-nonempty id ws h)
            ∙ ap
                (λ a.
                  perform platform username a (awake keys w)
                  >>= go_on fuel (b'\n' ∷ []) (line_with text))
                found)
      ∙ and_then-resume (λ (v : World S A). v.halted) (main_loop platform fuel username)
          (prompt platform username) text (b'\n' ∷ []) (line_with text)
          (command_fn platform username id ws (awake keys w))
