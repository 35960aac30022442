-- ===== src/Memory/Buddy/Display.antt =====
-- Kernel/system/MemoryManagement/buddy.c: `buddy_print`, which draws the tree on the screen.
use so_realtime.Prelude.{
  ℕ, zero, suc, ◌%◌, ◌^◌, ◌≡◌, ◌∙◌, refl, sym, ap, fun_ext, List, [], ◌∷◌, ◌++◌, codes, Outcome,
  done, fault, timeout, ◌>>=◌,
}
use so_realtime.Screen.{Screen, number_chars, putchar, puts, putnumber}
use so_realtime.Syscalls.{light_grey}
use so_realtime.Memory.Buddy.{Node, free, alloc, split}

-- The loop of `_buddy_print`, with what it draws in each round.
unfoldable pub draw_times : ℕ → (Screen → Outcome Screen) → Screen → Outcome Screen
draw_times zero draw_one s = done s
draw_times (suc n) draw_one s = draw_one s >>= λ t. draw_times n draw_one t

abbrev pub draw_free : Screen → Outcome Screen
draw_free s = puts (codes "-,") light_grey s

-- `putnumber` takes an `int`.
abbrev pub draw_index : ℕ → Screen → Outcome Screen
draw_index i s = putnumber (i % 2 ^ 32) light_grey s >>= λ t. puts (codes ",") light_grey t

unfoldable pub print_node : Node → Screen → Outcome Screen
print_node (free a i n) s = draw_times n draw_free s >>= λ t. puts (codes "|") light_grey t
print_node (alloc a i n) s = draw_times n (draw_index i) s >>= λ t. puts (codes "|") light_grey t
print_node (split a i n l r) s = print_node l s >>= λ t. print_node r t

unfoldable pub buddy_print : Node → Screen → Outcome Screen
buddy_print head s = puts (codes "Buddy print is:\n") light_grey s >>= λ t.
    print_node head t >>= λ u. puts (codes " --END--\n") light_grey u

-- The same text so many times.
abbrev pub times : ℕ → List ℕ → List ℕ
times zero text = []
times (suc n) text = text ++ times n text

-- What the tree is drawn as: each byte of a block as a dash or as the number of the block's index.
abbrev pub drawn : Node → List ℕ
drawn (free a i n) = times n (codes "-,") ++ codes "|"
drawn (alloc a i n) = times n (number_chars (i % 2 ^ 32) ++ codes ",") ++ codes "|"
drawn (split a i n l r) = drawn l ++ drawn r

bind_assoc :
    (m : Outcome Screen) (f g : Screen → Outcome Screen)
    → ((m >>= f) >>= g) ≡ (m >>= (λ s. f s >>= g))
bind_assoc (done s) f g = refl
bind_assoc fault f g = refl
bind_assoc timeout f g = refl

puts-append :
    (a b : List ℕ) (s : Screen)
    → puts (a ++ b) light_grey s ≡ (puts a light_grey s >>= λ t. puts b light_grey t)
unfolding puts
puts-append [] b s = refl
puts-append (c ∷ a) b s =
    ap (λ (f : Screen → Outcome Screen). putchar c light_grey s >>= f) (fun_ext (puts-append a b))
    ∙ sym (bind_assoc (putchar c light_grey s) (puts a light_grey) (puts b light_grey))

draw_times-puts :
    (n : ℕ) (text : List ℕ) (s : Screen)
    → draw_times n (puts text light_grey) s ≡ puts (times n text) light_grey s
unfolding draw_times puts
draw_times-puts zero text s = refl
draw_times-puts (suc n) text s =
    ap (λ (f : Screen → Outcome Screen). puts text light_grey s >>= f)
      (fun_ext (draw_times-puts n text))
    ∙ sym (puts-append text (times n text) s)

print_node-drawn : (n : Node) (s : Screen) → print_node n s ≡ puts (drawn n) light_grey s
unfolding print_node putnumber
print_node-drawn (free a i n) s =
    ap (λ (m : Outcome Screen). m >>= puts (codes "|") light_grey)
      (draw_times-puts n (codes "-,") s)
    ∙ sym (puts-append (times n (codes "-,")) (codes "|") s)
print_node-drawn (alloc a i n) s =
    ap (λ (f : Screen → Outcome Screen). draw_times n f s >>= puts (codes "|") light_grey)
      (fun_ext (λ t. sym (puts-append (number_chars (i % 2 ^ 32)) (codes ",") t)))
    ∙ ap (λ (m : Outcome Screen). m >>= puts (codes "|") light_grey)
        (draw_times-puts n (number_chars (i % 2 ^ 32) ++ codes ",") s)
    ∙ sym (puts-append (times n (number_chars (i % 2 ^ 32) ++ codes ",")) (codes "|") s)
print_node-drawn (split a i n l r) s =
    ap (λ (m : Outcome Screen). m >>= print_node r) (print_node-drawn l s)
    ∙ ap (λ (f : Screen → Outcome Screen). puts (drawn l) light_grey s >>= f)
        (fun_ext (print_node-drawn r))
    ∙ sym (puts-append (drawn l) (drawn r) s)

-- `buddy_print` puts one text on the screen: the blocks of the tree from the lowest index on, between its
-- two titles.
buddy_print-drawn :
    (head : Node) (s : Screen)
    → buddy_print head s
      ≡ puts (codes "Buddy print is:\n" ++ (drawn head ++ codes " --END--\n")) light_grey s
unfolding buddy_print
buddy_print-drawn head s =
    ap (λ (f : Screen → Outcome Screen). puts (codes "Buddy print is:\n") light_grey s >>= f)
      (fun_ext (λ t.
        ap (λ (m : Outcome Screen). m >>= puts (codes " --END--\n") light_grey)
          (print_node-drawn head t)
        ∙ sym (puts-append (drawn head) (codes " --END--\n") t)))
    ∙ sym (puts-append (codes "Buddy print is:\n") (drawn head ++ codes " --END--\n") s)
