-- ===== src/Packer/Options/Tests.antt =====
-- The packer at a concrete command line.
use so_realtime.Prelude.{
  ℕ, ◌+◌, ◌≡◌, refl, false, true, some, List, [], ◌∷◌, get_or, All, ◌==◌, if◌then◌else◌, codes,
  arith, done, ◌>>=◌,
}
use so_realtime.Packer.{pack}
use so_realtime.Packer.Options.{
  Name, Event, exit_with, packer_main, numbered, told, IsPlain, IsArgp, Argp, call_all,
}
use so_realtime.Packer.Options.Parsed.{packer_main_lem}

-- A parser that knows the option in front only, and calls for a key of its own.
abbrev calls : List Name → List Event
calls [] = Event.other ∷ numbered 0 []
calls (word ∷ []) = Event.other ∷ numbered 0 (word ∷ [])
calls (word ∷ name ∷ names) =
    Event.other
    ∷ (if get_or word 0 0 == b'-'
        then Event.output name ∷ numbered 0 names
        else numbered 0 (word ∷ name ∷ names))

told-numbered : (i : ℕ) (names : List Name) → told (numbered i names) ≡ numbered i names
told-numbered i [] = refl
told-numbered i (n ∷ ns) = rw (told-numbered (i + 1) ns) refl

calls-files : (names : List Name) → All IsPlain names → told (calls names) ≡ numbered 0 names
calls-files [] h = refl
calls-files (w ∷ []) h = refl
calls-files (w ∷ n ∷ ns) h =
    let plain : (get_or w 0 0 == b'-') ≡ false = ground (arith, h.0) in
    rw plain (told-numbered 0 (w ∷ n ∷ ns))

abbrev argp : Argp
argp parser argv a = call_all parser (calls argv) a

argp-IsArgp : IsArgp argp
argp-IsArgp = record {
  calls = calls;
  runs = λ parser argv a. refl;
  files = calls-files;
  option = λ name names h. rw (told-numbered 0 names) refl;
}

-- Each file holds its own name.
packer_main_lem_example :
    packer_main argp
      (λ name. some name)
      (λ name. true)
      (codes "-o" ∷ codes "image" ∷ codes "kernel" ∷ codes "shell" ∷ [])
    ≡ (pack (some (codes "kernel") ∷ some (codes "shell") ∷ []) true >>= λ r.
        done (exit_with (codes "image") r))
packer_main_lem_example =
    packer_main_lem argp (λ name. some name) (λ name. true) argp-IsArgp (some (codes "image"))
      (codes "kernel" ∷ codes "shell" ∷ []) (omega arith)
