-- ===== src/Keyboard.antt =====
-- Kernel/drivers/keyboard.c: the keys pressed, in a ring of 64 bytes. A key code is the byte that the
-- port delivers; the header's negative codes are those from 128 on.
pub mod Keymap
pub mod Ring
mod Tests
use so_realtime.Prelude.{
  ℕ, ◌+◌, ◌%◌, Bool, true, false, ◌||◌, ◌&&◌, not, List, [], ◌∷◌, set, get_or, replicate, ltb, leb,
  ◌==◌, if◌then◌else◌,
}
use so_realtime.Keyboard.Keymap.{keyboard_map}

abbrev pub buffer_size : ℕ
buffer_size = 64

-- `EMPTY`
abbrev pub empty_key : ℕ
empty_key = 255

pub record Keyboard : Type 0 where
  pub kb_buffer : List ℕ
  pub write_pos : ℕ
  pub read_pos : ℕ
  pub shift_on : Bool
  pub caps_lock_on : Bool

-- The static variables at the start: the initialiser sets one entry, and leaves 0 in the others.
abbrev pub idle : Keyboard
idle = record {
  kb_buffer = empty_key ∷ replicate 63 0;
  write_pos = 0;
  read_pos = 0;
  shift_on = false;
  caps_lock_on = false;
}

unfoldable pub isalpha : ℕ → Bool
isalpha keycode =
    leb 16 keycode && leb keycode 25
    || leb 30 keycode && leb keycode 38
    || leb 44 keycode && leb keycode 50

abbrev pub next_pos : ℕ → ℕ
next_pos pos = if pos + 1 == buffer_size then 0 else pos + 1

-- `shift` as an index of the map
abbrev pub shift_of : ℕ → Keyboard → Bool
shift_of keycode k =
    let shift = isalpha keycode && k.caps_lock_on in if k.shift_on then not shift else shift

abbrev pub store_key : ℕ → Keyboard → Keyboard
store_key ascii k = record k {
  kb_buffer = set k.kb_buffer k.write_pos ascii;
  write_pos = next_pos k.write_pos;
}

unfoldable pub key_pressed : ℕ → Keyboard → Keyboard
unfolding isalpha keyboard_map
key_pressed keycode k =
    if keycode == 58
    then record k { caps_lock_on = not k.caps_lock_on }
    else if keycode == 54 || keycode == 42
    then record k { shift_on = true }
    else if keycode == 170 || keycode == 182
    then record k { shift_on = false }
    else if leb 128 keycode
    then k
    else if keyboard_map (shift_of keycode k) keycode == 0
    then k
    else store_key (keyboard_map (shift_of keycode k) keycode) k

-- The two ports read are parameters.
unfoldable pub keyboard_handler : ℕ → ℕ → Keyboard → Keyboard
unfolding key_pressed
keyboard_handler status keycode k = if status % 2 == 1 then key_pressed keycode k else k

unfoldable pub get_key : Keyboard → ℕ × Keyboard
get_key k = (
  get_or k.kb_buffer k.read_pos empty_key,
  record k { kb_buffer = set k.kb_buffer k.read_pos empty_key; read_pos = next_pos k.read_pos },
)
