-- ===== src/Session/Clock.antt =====
-- Setting the clock from the keyboard.
use so_realtime.Prelude.{
  ℕ, ◌+◌, ◌<◌, ◌≡◌, ◌≢◌, refl, inl, inr, ◌⊎◌, List, [], ◌∷◌, ◌++◌, length, length-append,
  append-nil, All, codes, arith, done, Ensures, Ensures-value,
}
use so_realtime.Rtc.{time}
use so_realtime.Rtc.RoundTrip.{Keeps, two_digits}
use so_realtime.Syscalls.{sys_write, write_from}
use so_realtime.Userland.Strings.{strchr}
use so_realtime.Userland.Numbers.{print_dec}
use so_realtime.Userland.Numbers.Digits.{IsDecimal}
use so_realtime.Userland.Numbers.Decimal.{print_dec-All}
use so_realtime.Userland.Stdio.{printf, vfprintf, print_arg, fputs, fputc, write}
use so_realtime.Userland.Stdio.Printed.{fputs_lem, print_dec_bound}
use so_realtime.Shell.{Line, buffer_size, clean_buffer, get_command, init_commands, add_command}
use so_realtime.Shell.Args.{spaced}
use so_realtime.Commands.{_set_time}
use so_realtime.Commands.Clock.{IsTime, Shows, _set_time-valid}
use so_realtime.Commands.Line.{set_time_id, print_dec-IsWord}
use so_realtime.Commands.Fractal.Lines.{All-append}
use so_realtime.Session.{World, Platform, within, prompt, command_fn, main_loop}
use so_realtime.Session.Typing.{IsTyped, awake}
use so_realtime.Session.Commands.{command_line, main_loop-command}

-- The prompt, as it stands on the screen.
abbrev pub prompt_text : List ℕ → List ℕ
prompt_text username = username ++ codes "@os> "

digits-IsTyped : (cs : List ℕ) → All (λ c. IsDecimal c ⊎ (c ≡ b'-')) cs → All IsTyped cs
digits-IsTyped [] h = tt
digits-IsTyped (c ∷ cs) (inl d, h) = (omega arith, digits-IsTyped cs h)
digits-IsTyped (c ∷ cs) (inr d, h) = (omega arith, digits-IsTyped cs h)

-- The numbers of a time, as the words of a command.
abbrev pub time_words : ℕ → ℕ → ℕ → List (List ℕ)
time_words h m s = print_dec h ∷ print_dec m ∷ print_dec s ∷ []

module _ {S A D : Type 0} (platform : Platform S A D) where
  prompt_lem :
      (username : List ℕ)
      → All (λ c. c ≢ 0) username
      → Ensures (λ w. w.0 ≡ prompt_text username) (prompt platform username)
  unfolding prompt printf vfprintf print_arg strchr fputs fputc write sys_write write_from
  prompt_lem username h = rw (fputs_lem username h) refl

  line-IsTyped : (h m s : ℕ) → All IsTyped (command_line set_time_id (time_words h m s))
  unfolding get_command init_commands add_command
  line-IsTyped h m s =
      let digits = λ (n : ℕ). digits-IsTyped (print_dec n) (print_dec-All n) in
      All-append IsTyped (codes "settime") (spaced (time_words h m s)) (omega arith) (
        omega arith,
        All-append IsTyped (print_dec h) _ (digits h) (
          omega arith,
          All-append IsTyped (print_dec m) _ (digits m)
              (omega arith, All-append IsTyped (print_dec s) [] (digits s) tt),
        ),
      )

  line_short : (h m s : ℕ) → length (command_line set_time_id (time_words h m s)) + 1 < buffer_size
  unfolding get_command init_commands add_command
  line_short h m s = omega (
    arith,
    print_dec_bound h,
    print_dec_bound m,
    print_dec_bound s,
    length-append (print_dec h) (b' ' ∷ (print_dec m ++ (b' ' ∷ (print_dec s ++ [])))),
    length-append (print_dec m) (b' ' ∷ (print_dec s ++ [])),
    length-append (print_dec s) [],
  )

  -- Where no key is left, the loop waits.
  main_loop-nil :
      (username : List ℕ) (l : Line) (w : World S A)
      → main_loop platform 1 username l (awake [] w) ≡ done ([], l, awake [] w)
  unfolding main_loop
  main_loop-nil username l w = refl

  command_fn-_set_time :
      (username : List ℕ) (argv : List (List ℕ)) (w : World S A)
      → command_fn platform username set_time_id argv w
        ≡ within (_set_time platform.chip argv w.clock) (λ s. record w { clock = s })
  unfolding command_fn
  command_fn-_set_time username argv w = refl

  -- Whoever types "settime h m s" and a line end at the prompt, with the decimal numbers of a time of the
  -- day, sees just the line, and then the prompt again with an empty line; the clock shows the time that
  -- was typed. The clock's registers keep what is written, and the user's name has no 0 in it.
  pub main_loop-_set_time :
      (keeps : Keeps platform.chip) (username : List ℕ) (h m s : ℕ) (w : World S A)
      → All (λ c. c ≢ 0) username
      → IsTime h m s
      → let line = command_line set_time_id (time_words h m s) in
        Ensures
          (λ r.
            (r.0 ≡ (line ++ (b'\n' ∷ [])) ++ prompt_text username)
            × (r.1 ≡ clean_buffer)
            × (r.2.keys ≡ [])
            × (time platform.chip r.2.clock
                ≡ two_digits h (b':' ∷ two_digits m (b':' ∷ two_digits s []))))
          (main_loop platform
            (length line + 2)
            username
            clean_buffer
            (awake (line ++ (b'\n' ∷ [])) w))
  main_loop-_set_time keeps username h m s w named valid =
      let words = time_words h m s in
      let (p, shown, name) =
        Ensures-value (λ q. q.0 ≡ prompt_text username) (prompt platform username)
          (prompt_lem username named) in
      let (r, ran, (printed, set)) =
        Ensures-value
          (Shows platform.chip w.clock
            (two_digits h (b':' ∷ two_digits m (b':' ∷ two_digits s []))))
          (_set_time platform.chip words w.clock)
          (_set_time-valid platform.chip w.clock keeps h m s valid) in
      rw
        (main_loop-command platform username set_time_id words [] 1 w (omega arith)
          (print_dec-IsWord h, (print_dec-IsWord m, (print_dec-IsWord s, tt))) (omega arith)
          (line-IsTyped h m s) (line_short h m s))
        (rw
          (
            command_fn-_set_time username words (awake [] w),
            ran,
            shown,
            main_loop-nil username clean_buffer (record w { clock = r.1 }),
          )
          (rw (printed, name) (append-nil _), refl, refl, set))
