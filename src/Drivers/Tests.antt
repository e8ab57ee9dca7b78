-- ===== src/Drivers/Tests.antt =====
-- Small runs of the keyboard, and the theorems at them.
use jnix.Prelude.{
  ℕ, ◌≡◌, refl, Bool, true, false, List, [], ◌∷◌, arith, ltb, if◌then◌else◌, replicate, ok, fault,
  ◌>>=◌,
}
use jnix.Kernel.Tty.{Display}
use jnix.Kernel.Tty.Screen.{IsValid}
use jnix.Kernel.Tty.Table.{tty_write, Tty, Screen, own, tty_create, init_tty}
use jnix.Drivers.Keys.{kb_in_bytes}
use jnix.Drivers.Inbuf.{Inbuf, put}
use jnix.Drivers.Inbuf.Fifo.{Stands, Holds, put_lem}
use jnix.Drivers.Keyboard
use jnix.Drivers.Keyboard.{Modifiers, Keyboard, key_of, track, content_of, handle_tty, type_char}
use jnix.Drivers.Keyboard.Typing.{type_char-init_tty}
use jnix.Drivers.Keyboard.Read.Once.{input_of, with_buffer}
use jnix.Drivers.Keyboard.Read.Bytes.{interrupts, typed, interrupts_lem}

-- A buffer that holds one byte in its last place.
abbrev last_place : Inbuf
last_place = record { p_head = 0; p_tail = 31; count = 1; buf = replicate 32 7 }

last_place-Holds : Holds last_place (7 ∷ [])
unfolding Stands
last_place-Holds = record {
  sized = refl;
  tail = omega arith;
  head = refl;
  counted = refl;
  fits = omega arith;
  bytes = (refl, tt);
}

put_lem_example :
    (kb : Inbuf) × (put 9 last_place ≡ ok kb)
    × Holds kb (if ltb 1 kb_in_bytes then 7 ∷ 9 ∷ [] else 7 ∷ [])
put_lem_example = put_lem last_place 9 (7 ∷ []) last_place-Holds

abbrev no_modifiers : Modifiers
no_modifiers = record {
  shift_l = false;
  shift_r = false;
  alt_l = false;
  alt_r = false;
  ctrl_l = false;
  ctrl_r = false;
  caps_lock = false;
  num_lock = true;
  scroll_lock = false;
}

-- The second byte of the Up key is taken for the 8 of the num pad.
up_key : content_of no_modifiers 0x13A ≡ 0x8038
unfolding content_of Keyboard.pad_key
up_key = refl

abbrev display : Display
display = record { vmem = λ a. 0; crtc = record { addr = 0; regs = λ r. 0 } }

abbrev created : Screen
created = init_tty (replicate 256 0) display

abbrev keyboard : Keyboard
keyboard = record {
  kb_in = record { p_head = 0; p_tail = 0; count = 0; buf = replicate 32 0 };
  mods = no_modifiers;
  ports = record { reads = []; writes = [] };
  screen = created;
}

keyboard-Holds : Holds keyboard.kb_in []
unfolding Stands
keyboard-Holds = record {
  sized = refl;
  tail = omega arith;
  head = refl;
  counted = refl;
  fits = omega arith;
  bytes = tt;
}

-- Left Shift is pressed and released.
abbrev shift_pressed : List (ℕ × Bool)
shift_pressed = (0x2A, false) ∷ (0xAA, true) ∷ []

interrupts_lem_example :
    (kb : Inbuf) × Holds kb []
    × (interrupts shift_pressed keyboard
        ≡ (typed (0x2A ∷ 0xAA ∷ []) (input_of keyboard) >>= λ r. ok (with_buffer kb r)))
interrupts_lem_example = interrupts_lem shift_pressed keyboard keyboard-Holds

-- A console whose input points into its own buffer.
abbrev writable : Tty
writable = record (tty_create 0 (replicate 256 0)) { inbuf_head = own 255 }

abbrev screen : Screen
screen = record { tty_table = writable ∷ []; current_tty = 0; display = display }

first-IsValid : IsValid (tty_create 0 (replicate 256 0)).console
unfolding tty_create
first-IsValid = omega arith

type_char-init_tty_example :
    (s : Screen) × (tty_write 0 (104 ∷ 105 ∷ []) 2 (init_tty (replicate 256 0) display) ≡ ok (2, s))
    × (type_char 97 s ≡ fault)
type_char-init_tty_example = type_char-init_tty 97 (replicate 256 0) (104 ∷ 105 ∷ []) display
