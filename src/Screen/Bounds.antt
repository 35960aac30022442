-- ===== src/Screen/Bounds.antt =====
-- What is printed stays on the screen.
use so_realtime.Prelude.{
  ℕ, zero, suc, ◌+◌, ◌-◌, ◌*◌, ◌/◌, ◌%◌, ◌≤◌, ◌<◌, ◌≡◌, ◌≢◌, ◌∙◌, refl, ◌&&◌, leb, ltb, ◌==◌, true,
  false, inl, inr, Bool-cases, arith, List, [], ◌∷◌, All, done, Ensures, Ensures-map, Ensures-bind,
  UnlessFault, UnlessFault-bind, UnlessFault-map, Ensures-of_both,
}
use so_realtime.KernelLib.Laws.{IsBytes}
use so_realtime.Screen.{
  Screen, update_cursor, write_cell, skip_blanks, delete, scroll, settle, put_plain, putchar, puts,
}
use so_realtime.Screen.Scroll.{scroll_lem, scroll_loc}

-- The next cell lies on the screen, and the memory holds bytes.
pub record IsScreen (s : Screen) : Type 0 where
  pub bytes : IsBytes s.video
  pub even : s.current_loc % 2 ≡ 0
  pub inside : s.current_loc < 4000

-- `t` is a screen, and the memory behind the screen is as it was in `s`.
pub record Kept (s t : Screen) : Type 0 where
  pub screen : IsScreen t
  pub behind : (q : ℕ) → t.video (4000 + q) ≡ s.video (4000 + q)

Kept-self : (s : Screen) → IsScreen s → Kept s s
Kept-self s v = record { screen = v; behind = λ q. refl }

Kept-trans : (s t u : Screen) → Kept s t → Kept t u → Kept s u
Kept-trans s t u h k = record { screen = k.screen; behind = λ q. k.behind q ∙ h.behind q }

scroll-Kept :
    (s : Screen) → IsBytes s.video → s.current_loc ≡ 4000 → Kept s (update_cursor (scroll s))
unfolding update_cursor
scroll-Kept s b e = record {
  screen = record {
    bytes = λ q. rw (scroll_lem s q b) (ground (arith, b q, b (q + 160)));
    even = omega (arith, scroll_loc s);
    inside = omega (arith, scroll_loc s);
  };
  behind = λ q. scroll_lem s (4000 + q) b ∙ ground arith;
}

settle_scrolls : (s : Screen) → leb 4000 s.current_loc ≡ true → settle s ≡ update_cursor (scroll s)
unfolding settle
settle_scrolls s e = rw e

settle_stays : (s : Screen) → leb 4000 s.current_loc ≡ false → settle s ≡ update_cursor s
unfolding settle
settle_stays s e = rw e

update_cursor-Kept : (s : Screen) → IsScreen s → Kept s (update_cursor s)
unfolding update_cursor
update_cursor-Kept s v = record {
  screen = record { bytes = v.bytes; even = v.even; inside = v.inside };
  behind = λ q. refl;
}

settle-Kept :
    (s : Screen)
    → IsBytes s.video
    → s.current_loc % 2 ≡ 0
    → s.current_loc ≤ 4000
    → Kept s (settle s)
settle-Kept s b even h = elim (Bool-cases (leb 4000 s.current_loc)) [
  | inl full ↦ rw (settle_scrolls s full) (scroll-Kept s b (ground arith))
  | inr room ↦
      rw (settle_stays s room)
        (update_cursor-Kept s (record { bytes = b; even = even; inside = ground arith }))
]

-- A cell written on the screen.
abbrev with_cell : Screen → ℕ → ℕ → Screen
with_cell s ch attr = record s {
  video = write_cell s.video s.current_loc ch attr;
  current_loc = s.current_loc + 2;
}

put_plain-Kept :
    (ch attr : ℕ) (s : Screen) → ch < 256 → attr < 256 → IsScreen s → Kept s (put_plain ch attr s)
unfolding put_plain
put_plain-Kept ch attr s hc ha v =
    let k =
      settle-Kept (with_cell s ch attr) (λ q. ground (arith, v.bytes q)) (omega (arith, v.even))
        (omega (arith, v.even, v.inside)) in
    record { screen = k.screen; behind = λ q. k.behind q ∙ ground (arith, v.inside, v.even) }

put_tab-Kept :
    (attr : ℕ) (s : Screen)
    → attr < 256
    → IsScreen s
    → Kept s (
        settle
          (put_plain b' ' attr (put_plain b' ' attr (put_plain b' ' attr (put_plain b' ' attr s)))))
put_tab-Kept attr s ha v =
    let put = λ (t : Screen) (w : IsScreen t). put_plain-Kept b' ' attr t (omega arith) ha w in
    let one = put s v in
    let two = put (put_plain b' ' attr s) one.screen in
    let three = put (put_plain b' ' attr (put_plain b' ' attr s)) two.screen in
    let four =
      put (put_plain b' ' attr (put_plain b' ' attr (put_plain b' ' attr s))) three.screen in
    let last =
      settle-Kept _ four.screen.bytes four.screen.even (omega (arith, four.screen.inside)) in
    Kept-trans s _ _ one
      (Kept-trans _ _ _ two (Kept-trans _ _ _ three (Kept-trans _ _ _ four last)))

skip_blanks-Kept :
    (fuel : ℕ) (s : Screen)
    → IsScreen s
    → s.current_loc < 2 * fuel
    → UnlessFault (Kept s) (skip_blanks fuel s)
unfolding skip_blanks
skip_blanks-Kept zero s v h = absurd (omega arith)
skip_blanks-Kept (suc fuel) s v h = elim (Bool-cases (ltb s.current_loc 2)) [
  | inl out ↦ rw out tt
  | inr here ↦ elim (Bool-cases (s.video (s.current_loc - 2) == b' ')) [
    | inr stop ↦ rw (here, stop) (Kept-self s v)
    | inl blank ↦
        let back : IsScreen (record s { current_loc = s.current_loc - 2 }) = record {
          bytes = v.bytes;
          even = ground (arith, v.even);
          inside = omega (arith, v.inside);
        } in
        rw (here, blank)
          (UnlessFault-map (Kept (record s { current_loc = s.current_loc - 2 })) (Kept s)
            (skip_blanks fuel (record s { current_loc = s.current_loc - 2 }))
            (λ t k. record { screen = k.screen; behind = k.behind })
            (skip_blanks-Kept fuel (record s { current_loc = s.current_loc - 2 }) back
              (ground arith)))
  ]
]

delete-Kept : (s : Screen) → IsScreen s → UnlessFault (Kept s) (delete s)
unfolding delete
delete-Kept s v = elim (Bool-cases (s.current_loc == 0)) [
  | inl first ↦ rw first (Kept-self s v)
  | inr later ↦
      elim (Bool-cases (s.current_loc / 2 % 80 == 0 && s.video (s.current_loc - 2) == b' ')) [
        | inl blank ↦ rw (later, blank) (skip_blanks-Kept (s.current_loc / 2 + 1) s v (omega arith))
        | inr cell ↦
            rw (later, cell)
              (record {
                screen = record {
                  bytes = λ q. ground (arith, v.bytes q);
                  even = ground (arith, v.even);
                  inside = omega (arith, v.inside);
                };
                behind = λ q. ground (arith, v.inside);
              })
      ]
]

abbrev next_line : Screen → Screen
next_line s = record s { current_loc = s.current_loc + (160 - s.current_loc % 160) }

put_newline-Kept : (s : Screen) → IsScreen s → Kept s (settle (next_line s))
put_newline-Kept s v =
    let k = settle-Kept (next_line s) v.bytes (omega (arith, v.even)) (omega (arith, v.inside)) in
    record { screen = k.screen; behind = k.behind }

-- On a screen whose next cell lies on it, `putchar` of a byte either reads in front of the screen's memory,
-- or returns; then the next cell lies on the screen again, and no byte behind the screen has changed.
pub putchar-Kept :
    (ch attr : ℕ) (s : Screen)
    → ch < 256
    → attr < 256
    → IsScreen s
    → UnlessFault (Kept s) (putchar ch attr s)
unfolding putchar
putchar-Kept ch attr s hc ha v = elim (Bool-cases (ch == b'\n')) [
  | inl newline ↦ rw newline (put_newline-Kept s v)
  | inr n10 ↦ elim (Bool-cases (ch == 8)) [
    | inl back ↦
        rw (n10, back)
          (UnlessFault-bind (Kept s) (Kept s) (delete s) (λ t. done (settle t))
            (λ t k.
              Kept-trans s t (settle t) k
                (settle-Kept t k.screen.bytes k.screen.even (omega (arith, k.screen.inside))))
            (delete-Kept s v))
    | inr n8 ↦ elim (Bool-cases (ch == b'\t')) [
      | inl tab ↦ rw (n10, n8, tab) (put_tab-Kept attr s ha v)
      | inr plain ↦ rw (n10, n8, plain) (put_plain-Kept ch attr s hc ha v)
    ]
  ]
]

putchar-returns :
    (ch attr : ℕ) (s : Screen) → ch ≢ 8 → Ensures (λ (t : Screen). Unit {0}) (putchar ch attr s)
unfolding putchar
putchar-returns ch attr s ne =
    let e : (ch == 8) ≡ false = ground arith in
    elim (Bool-cases (ch == b'\n')) [
      | inl newline ↦ rw newline tt
      | inr n10 ↦ elim (Bool-cases (ch == b'\t')) [
        | inl tab ↦ rw (n10, e, tab) tt
        | inr plain ↦ rw (n10, e, plain) tt
      ]
    ]

-- A byte other than a backspace.
abbrev pub IsForward : ℕ → Type 0
IsForward ch = (ch < 256) × (ch ≢ 8)

-- `puts` of a string without backspaces returns, with the next cell on the screen, and changes no byte
-- behind the screen, however long the string is.
pub puts-Kept :
    (str : List ℕ) (attr : ℕ) (s : Screen)
    → All IsForward str
    → attr < 256
    → IsScreen s
    → Ensures (Kept s) (puts str attr s)
unfolding puts
puts-Kept [] attr s h ha v = Kept-self s v
puts-Kept (ch ∷ str) attr s h ha v =
    Ensures-bind (Kept s) (Kept s) (putchar ch attr s) (λ t. puts str attr t)
      (λ t k.
        Ensures-map (Kept t) (Kept s) (puts str attr t) (λ u k'. Kept-trans s t u k k')
          (puts-Kept str attr t h.1 ha k.screen))
      (Ensures-of_both (Kept s) (putchar ch attr s) (putchar-Kept ch attr s h.0.0 ha v)
        (putchar-returns ch attr s h.0.1))
