-- ===== src/Keyboard/Tests.antt =====
-- Runs of the keyboard driver and witnesses of its properties.
use toutatis.Common.{◌≡◌, refl, arith, true, some, [], ◌∷◌}
use toutatis.Common.Store.{update}
use toutatis.Keyboard.{Keyboard, keymap_us, keyboard_handler, keyboard_getchar, keyboard_lastchar}
use toutatis.Keyboard.Queue.{
  press, receive, IsValid, view, AreBytes, seen, keyboard_handler-press, keyboard_getchar-receive,
}

abbrev idle : Keyboard
idle = record {
  last_char = 0;
  shift_pressed = 0;
  kbd_buffer = λ i. 0;
  read_idx = 31;
  write_idx = 31;
}

idle-IsValid : IsValid idle
idle-IsValid = record {
  read_below = omega arith;
  write_below = omega arith;
  shift_below = omega arith;
}

-- Shift, then the key `a`: the first character is `A`.
keyboard_getchar_run :
    seen (keyboard_getchar (42 ∷ 30 ∷ 31 ∷ []) idle)
    ≡ some (65, record { queue = []; shift = true; last = 65 }, 31 ∷ [])
unfolding keyboard_getchar update toutatis.Keyboard.Ring.pending_from
keyboard_getchar_run = refl

keyboard_lastchar_run : (keyboard_lastchar (keyboard_handler idle 30).0).0 ≡ 97
unfolding keyboard_lastchar keyboard_handler
keyboard_lastchar_run = refl

keyboard_handler-press_example :
    IsValid (keyboard_handler idle 30).0
    × (view (keyboard_handler idle 30).0 ≡ press (view idle) 30)
keyboard_handler-press_example = keyboard_handler-press idle 30 idle-IsValid (omega arith)

two-AreBytes : AreBytes (42 ∷ 30 ∷ [])
unfolding AreBytes
two-AreBytes = (omega arith, (omega arith, tt))

keyboard_getchar-receive_example :
    seen (keyboard_getchar (42 ∷ 30 ∷ []) idle) ≡ receive (42 ∷ 30 ∷ []) (view idle)
keyboard_getchar-receive_example =
    keyboard_getchar-receive (42 ∷ 30 ∷ []) idle idle-IsValid two-AreBytes
