-- ===== src/Keyboard/Ring.antt =====
-- The ring of keys as a queue.
use so_realtime.Prelude.{
  ℕ, zero, suc, ◌+◌, ◌%◌, ◌≤◌, ◌<◌, ◌≡◌, ◌≢◌, ◌⊎◌, inl, inr, refl, sym, ◌∙◌, Bool, true, false,
  List, [], ◌∷◌, ◌++◌, length, length-snoc, length-set, set, get_or, get_or-set_self, get_or-set_ne,
  append-nil, replicate, leb, ◌==◌, if◌then◌else◌, not, ◌||◌, arith, Bool-cases,
}
use so_realtime.Keyboard.Keymap.{keyboard_map}
use so_realtime.Keyboard.{
  Keyboard, empty_key, idle, next_pos, shift_of, store_key, key_pressed, get_key,
}

-- The place of the entry `i` from the reading position on.
abbrev pub place : Keyboard → ℕ → ℕ
place k i = (k.read_pos + i) % 64

-- The keys that wait in the ring, oldest first; all other places hold no key.
pub record Waiting (k : Keyboard) (keys : List ℕ) : Type 0 where
  pub size : length k.kb_buffer ≡ 64
  pub reading : k.read_pos < 64
  pub writing : k.write_pos ≡ place k (length keys)
  pub room : length keys ≤ 64
  pub held :
      (i : ℕ) → i < length keys → get_or k.kb_buffer (place k i) empty_key ≡ get_or keys i empty_key
  pub blank :
      (i : ℕ)
      → length keys ≤ i
      → i < 64
      → (get_or k.kb_buffer (place k i) empty_key ≡ empty_key)
        ⊎ (get_or k.kb_buffer (place k i) empty_key ≡ 0)

get_or-blank :
    (n i : ℕ)
    → (get_or (replicate n 0) i empty_key ≡ empty_key) ⊎ (get_or (replicate n 0) i empty_key ≡ 0)
get_or-blank zero i = inl refl
get_or-blank (suc n) zero = inr refl
get_or-blank (suc n) (suc i) = get_or-blank n i

get_or-idle :
    (i : ℕ)
    → (get_or idle.kb_buffer i empty_key ≡ empty_key) ⊎ (get_or idle.kb_buffer i empty_key ≡ 0)
get_or-idle zero = inl refl
get_or-idle (suc i) = get_or-blank 63 i

-- No key waits at the start.
pub idle-Waiting : Waiting idle []
idle-Waiting = record {
  size = refl;
  reading = omega arith;
  writing = refl;
  room = omega arith;
  held = λ i h. absurd (omega arith);
  blank = λ i h h'. get_or-idle ((0 + i) % 64);
}

get_or-snoc_front :
    (xs : List ℕ) (x d i : ℕ) → i < length xs → get_or (xs ++ (x ∷ [])) i d ≡ get_or xs i d
get_or-snoc_front [] x d i h = absurd (omega arith)
get_or-snoc_front (y ∷ xs) x d zero h = refl
get_or-snoc_front (y ∷ xs) x d (suc i) h = get_or-snoc_front xs x d i (omega arith)

get_or-snoc_end : (xs : List ℕ) (x d : ℕ) → get_or (xs ++ (x ∷ [])) (length xs) d ≡ x
get_or-snoc_end [] x d = refl
get_or-snoc_end (y ∷ xs) x d = get_or-snoc_end xs x d

-- Two entries of the ring stand at two places.
place-injective :
    (k : Keyboard) (i j : ℕ) → k.read_pos < 64 → i < 64 → j < 64 → i ≢ j → place k i ≢ place k j
place-injective k i j h hi hj ne e = ne (omega arith)

module _ (k : Keyboard) (keys : List ℕ) (w : Waiting k keys) where
  -- A write at the place of an entry changes that entry only.
  write_there :
      (i v : ℕ) → i < 64 → get_or (set k.kb_buffer (place k i) v) (place k i) empty_key ≡ v
  write_there i v h = get_or-set_self k.kb_buffer (place k i) v empty_key (omega (arith, w.size))

  write_elsewhere :
      (i j v : ℕ)
      → i < 64
      → j < 64
      → i ≢ j
      → get_or (set k.kb_buffer (place k i) v) (place k j) empty_key
        ≡ get_or k.kb_buffer (place k j) empty_key
  write_elsewhere i j v hi hj ne =
      get_or-set_ne k.kb_buffer (place k i) (place k j) v empty_key
        (place-injective k i j w.reading hi hj ne)

  -- A key that is stored while fewer than 64 wait goes to the end.
  pub store_key-Waiting :
      (ascii : ℕ) → length keys < 64 → Waiting (store_key ascii k) (keys ++ (ascii ∷ []))
  store_key-Waiting ascii h = record {
    size = length-set k.kb_buffer k.write_pos ascii ∙ w.size;
    reading = w.reading;
    writing = ground (arith, w.writing, length-snoc keys ascii);
    room = omega (arith, length-snoc keys ascii);
    held = λ i hi. elim (Bool-cases (i == length keys)) [
      | inl last ↦
          let e : i ≡ length keys = ground arith in
          rw (e, w.writing)
            (write_there (length keys) ascii h ∙ sym (get_or-snoc_end keys ascii empty_key))
      | inr before ↦
          let small : i < length keys = ground (arith, length-snoc keys ascii) in
          rw w.writing (
            write_elsewhere (length keys) i ascii h (omega (arith, w.room)) (omega arith)
            ∙ w.held i small
            ∙ sym (get_or-snoc_front keys ascii empty_key i small))
    ];
    blank = λ i hi hi'.
        rw
          (
            w.writing,
            write_elsewhere (length keys) i ascii h hi' (omega (arith, length-snoc keys ascii)),
          )
          (w.blank i (omega (arith, length-snoc keys ascii)) hi');
  }

-- The keys that a key code adds to those that wait: none for a release, for the shift and caps lock
-- keys and for a key without a character.
abbrev pub typed : ℕ → Keyboard → List ℕ
typed keycode k =
    if leb 128 keycode
      || (keycode == 58 || (keycode == 54 || keycode == 42))
      || keyboard_map (shift_of keycode k) keycode == 0
    then []
    else keyboard_map (shift_of keycode k) keycode ∷ []

flags-Waiting :
    (k : Keyboard) (keys : List ℕ)
    → Waiting k keys
    → (s c : Bool) → Waiting (record k { shift_on = s; caps_lock_on = c }) (keys ++ [])
flags-Waiting k keys w s c = rw (append-nil keys) (record {
  size = w.size;
  reading = w.reading;
  writing = w.writing;
  room = w.room;
  held = w.held;
  blank = w.blank;
})

-- While fewer than 64 keys wait, a key code adds the character that the map has for it, under the shift
-- and caps lock in force, behind them, or nothing if it is a release, a shift or caps lock key, or a key
-- without a character.
pub key_pressed-Waiting :
    (k : Keyboard) (keys : List ℕ) (keycode : ℕ)
    → Waiting k keys
    → length keys < 64
    → Waiting (key_pressed keycode k) (keys ++ typed keycode k)
unfolding key_pressed
key_pressed-Waiting k keys keycode w h = elim (Bool-cases (keycode == 58)) [
  | inl e ↦
      let q : keycode ≡ 58 = ground arith in
      rw q (flags-Waiting k keys w k.shift_on (not k.caps_lock_on))
  | inr n58 ↦ elim (Bool-cases (keycode == 54 || keycode == 42)) [
    | inl e ↦
        let small : leb 128 keycode ≡ false = ground arith in
        rw (n58, e, small) (flags-Waiting k keys w true k.caps_lock_on)
    | inr on ↦ elim (Bool-cases (keycode == 170 || keycode == 182)) [
      | inl e ↦
          let big : leb 128 keycode ≡ true = ground arith in
          rw (n58, on, e, big) (flags-Waiting k keys w false k.caps_lock_on)
      | inr off ↦ elim (Bool-cases (leb 128 keycode)) [
        | inl big ↦ rw (n58, on, off, big) (flags-Waiting k keys w k.shift_on k.caps_lock_on)
        | inr small ↦ elim (Bool-cases (keyboard_map (shift_of keycode k) keycode == 0)) [
          | inl e ↦ rw (n58, on, off, small, e) (flags-Waiting k keys w k.shift_on k.caps_lock_on)
          | inr e ↦
              rw (n58, on, off, small, e)
                (store_key-Waiting k keys w (keyboard_map (shift_of keycode k) keycode) h)
        ]
      ]
    ]
  ]
]

-- `get_key` answers the key that has waited longest, and takes it out.
pub get_key-Waiting :
    (k : Keyboard) (key : ℕ) (keys : List ℕ)
    → Waiting k (key ∷ keys)
    → ((get_key k).0 ≡ key) × Waiting (get_key k).1 keys
unfolding get_key
get_key-Waiting k key keys w = (
  first,
  record {
    size = length-set k.kb_buffer k.read_pos empty_key ∙ w.size;
    reading = ground (arith, w.reading);
    writing = ground (arith, w.writing, w.reading);
    room = omega (arith, w.room);
    held = λ i hi. rw (next i) (kept i (omega (arith, w.room)) ∙ w.held (suc i) (omega arith));
    blank = λ i hi hi'. elim (Bool-cases (i == 63)) [
      | inl last ↦
          let e : (next_pos k.read_pos + i) % 64 ≡ k.read_pos = ground (arith, w.reading) in
          inl (
            rw e (
              get_or-set_self k.kb_buffer k.read_pos empty_key empty_key
                (omega (arith, w.size, w.reading))))
      | inr before ↦
          let small : suc i < 64 = ground arith in
          rw (next i, kept i small) (w.blank (suc i) (omega arith) small)
    ];
  },
)
  where
    here : place k 0 ≡ k.read_pos
    here = omega (arith, w.reading)

    first : get_or k.kb_buffer k.read_pos empty_key ≡ key
    first = rw here at (w.held 0 (omega arith))

    next : (i : ℕ) → (next_pos k.read_pos + i) % 64 ≡ place k (suc i)
    next i = ground (arith, w.reading)

    kept :
        (i : ℕ)
        → suc i < 64
        → get_or (set k.kb_buffer k.read_pos empty_key) (place k (suc i)) empty_key
          ≡ get_or k.kb_buffer (place k (suc i)) empty_key
    kept i h =
        get_or-set_ne k.kb_buffer k.read_pos (place k (suc i)) empty_key empty_key
          (λ e. absurd (omega (arith, w.reading)))

-- While no key waits, `get_key` answers 255 or 0, and moves on: the key that is stored next is not what
-- the next `get_key` answers.
pub get_key-store_key :
    (k : Keyboard) (ascii : ℕ)
    → Waiting k []
    → let (key, k') = get_key k in
      let (next, k'') = get_key (store_key ascii k') in
      ((key ≡ empty_key) ⊎ (key ≡ 0)) × ((next ≡ empty_key) ⊎ (next ≡ 0))
unfolding get_key
get_key-store_key k ascii w =
    rw
      (
        here,
        get_or-set_ne (set k.kb_buffer k.read_pos empty_key) k.read_pos (next_pos k.read_pos) ascii
            empty_key moved,
        get_or-set_ne k.kb_buffer k.read_pos (next_pos k.read_pos) empty_key empty_key moved,
        next,
      )
      (rw now at (w.blank 0 (omega arith) (omega arith)), w.blank 1 (omega arith) (omega arith))
  where
    now : place k 0 ≡ k.read_pos
    now = omega (arith, w.reading)

    here : k.write_pos ≡ k.read_pos
    here = w.writing ∙ now

    next : next_pos k.read_pos ≡ place k 1
    next = ground (arith, w.reading)

    moved : k.read_pos ≢ next_pos k.read_pos
    moved e = absurd (ground (arith, w.reading))
