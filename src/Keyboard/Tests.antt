-- ===== src/Keyboard/Tests.antt =====
-- Keys at concrete inputs.
use so_realtime.Prelude.{◌≡◌, ◌⊎◌, refl, [], ◌∷◌, arith}
use so_realtime.Keyboard.Keymap.{keyboard_map}
use so_realtime.Keyboard.{empty_key, idle, store_key, isalpha, key_pressed, get_key}
use so_realtime.Keyboard.Ring.{Waiting, idle-Waiting, typed, key_pressed-Waiting, get_key-store_key}

-- The key code 30 is that of 'a'.
key_pressed-Waiting_example : Waiting (key_pressed 30 idle) (typed 30 idle)
key_pressed-Waiting_example = key_pressed-Waiting idle [] 30 idle-Waiting (omega arith)

typed_a : typed 30 idle ≡ b'a' ∷ []
unfolding keyboard_map isalpha
typed_a = refl

typed_shift : typed 30 (key_pressed 54 idle) ≡ b'A' ∷ []
unfolding keyboard_map isalpha key_pressed
typed_shift = refl

one_key-Waiting : Waiting (key_pressed 30 idle) (b'a' ∷ [])
unfolding keyboard_map isalpha
one_key-Waiting = key_pressed-Waiting idle [] 30 idle-Waiting (omega arith)

get_key-store_key_example :
    let (key, k') = get_key idle in
    let (next, k'') = get_key (store_key b'a' k') in
    ((key ≡ empty_key) ⊎ (key ≡ 0)) × ((next ≡ empty_key) ⊎ (next ≡ 0))
get_key-store_key_example = get_key-store_key idle b'a' idle-Waiting
