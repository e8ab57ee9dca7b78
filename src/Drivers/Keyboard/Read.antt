-- ===== src/Drivers/Keyboard/Read.antt =====
-- `keyboard_read` and `keyboard_handler` of drivers/i386/keyboard.c. The tests `scan_code == -1` of
-- the source never hold, since `scan_code` is an unsigned char; they are left out.
pub mod Once
pub mod Bytes
use jnix.Prelude.{
  ℕ, zero, suc, ◌+◌, ◌/◌, ◌%◌, ◌&&◌, ◌||◌, not, Bool, true, false, List, [], ◌∷◌, replicate, ltb,
  ◌==◌, if◌then◌else◌, Run, ok, stuck, ◌>>=◌,
}
use jnix.Drivers.Keys
use jnix.Drivers.Inbuf.{Inbuf, put, get_tail, pop_buf}
use jnix.Drivers.Ports.{Ports, set_leds}
use jnix.Drivers.Keyboard.{
  Modifiers, Keyboard, has_flag, handle_tty, key_of, switch_key, content_of,
}

-- The local variables, and the buffer.
pub record Scan : Type 0 where
  pub kb : Inbuf
  pub scan_code : ℕ
  pub code_with_E0 : Bool
  pub key : ℕ
  pub make : Bool

unfoldable pub pop_times : ℕ → Inbuf → Run Inbuf
pop_times zero kb = ok kb
pop_times (suc n) kb = pop_buf kb >>= pop_times n

-- `for (i = 1; i < 6; i++) …` with the bytes that are left to compare.
unfoldable pub match_pause : List ℕ → Inbuf → ℕ → Run (ℕ × Bool)
match_pause [] kb scan_code = ok (scan_code, true)
match_pause (b ∷ bs) kb scan_code = do
  c ← get_tail kb
  if c == b then match_pause bs kb c else ok (c, false)

abbrev pub pausebreak_scan_code : List ℕ
pausebreak_scan_code = 0x1D ∷ 0x45 ∷ 0xE1 ∷ 0x9D ∷ 0xC5 ∷ []

unfoldable pub scan_E1 : Scan → Run Scan
scan_E1 s = do
  (c, is_pausebreak) ← match_pause pausebreak_scan_code s.kb s.scan_code
  kb ← pop_times 7 s.kb
  ok (record s { kb = kb; scan_code = c; key = if is_pausebreak then Keys.pausebreak else s.key })

-- The two bytes that follow 0xE0 0x2A, or 0xE0 0xB7: `last` is the one that makes it PrintScreen.
unfoldable pub scan_print : ℕ → Bool → Scan → Run Scan
scan_print last make s = do
  c ← get_tail s.kb
  if c == 0xE0
      then (do
        d ← get_tail s.kb
        ok (
            if d == last
            then record s {
              scan_code = d;
              code_with_E0 = true;
              key = Keys.printscreen;
              make = make;
            }
            else record s { scan_code = d; code_with_E0 = true }))
      else ok (record s { scan_code = c; code_with_E0 = false })

unfoldable pub popped : ℕ → Scan → Run Scan
popped n s = do kb ← pop_times n s.kb; ok (record s { kb = kb })

unfoldable pub scan_E0 : Scan → Run Scan
scan_E0 s = do
  c ← get_tail s.kb
  if c == 0x2A
      then scan_print 0x37 true s >>= popped 4
      else if c == 0xB7
      then scan_print 0xAA false s >>= popped 3
      else ok (record s { scan_code = c; code_with_E0 = true })

-- Up to `if ((key != PAUSEBREAK) && …)`.
unfoldable pub scan : Inbuf → ℕ → Bool → Run Scan
scan kb key make = do
  c ← get_tail kb
  let s : Scan = record { kb = kb; scan_code = c; code_with_E0 = false; key = key; make = make }
  if c == 0xE1 then scan_E1 s else if c == 0xE0 then scan_E0 s else popped 1 s

-- What follows, up to `if (make)`: the key, whether it is pressed, and the flags.
unfoldable pub decode : Scan → Modifiers × Ports → Run (ℕ × Bool × (Modifiers × Ports))
decode s (m, p) =
    if (s.key == Keys.pausebreak) || (s.key == Keys.printscreen)
    then ok (s.key, s.make, (m, p))
    else (do
      let make = not (has_flag s.scan_code Keys.flag_break)
      key ← key_of m s.scan_code s.code_with_E0
      mp ← switch_key key make (m, p)
      ok (key, make, mp))

-- One round of the loop: the key, whether it is pressed, and the state.
unfoldable pub round : Keyboard → ℕ → Bool → Run (ℕ × Bool × Keyboard)
round k key₀ make₀ = do
  s ← scan k.kb_in key₀ make₀
  (key, make, mp) ← decode s (k.mods, k.ports)
  let k₁ = record k { kb_in = s.kb; mods = mp.0; ports = mp.1 }
  if make
      then (do
        let content = content_of mp.0 key
        screen ← handle_tty content k.screen
        ok (content, make, record k₁ { screen = screen }))
      else ok (key, make, k₁)

-- The loop. `make` starts as what the stack holds.
unfoldable pub read_loop : ℕ → Keyboard → ℕ → Bool → Run Keyboard
read_loop zero k key make = stuck
read_loop (suc fuel) k key₀ make₀ = elim (k.kb_in.count == 0) [
  | true ↦ ok k
  | false ↦ do
    (key, make, k') ← round k key₀ make₀
    elim (key == 0) [
      | true ↦ do kb ← pop_buf k'.kb_in; ok (record k' { kb_in = kb })
      | false ↦ read_loop fuel k' key make
    ]
]

-- One round for each byte in the buffer, and one more, is enough.
unfoldable pub keyboard_read : Bool → Keyboard → Run Keyboard
keyboard_read make k = read_loop (k.kb_in.count + 1) k 0 make

-- The byte that the port has, and what the stack holds for `make`.
unfoldable pub keyboard_handler : ℕ → Bool → Keyboard → Run Keyboard
keyboard_handler scan_code make k = do
  kb ← put scan_code k.kb_in
  keyboard_read make (record k { kb_in = kb })

-- `keyboard_init`, but for the registration of the interrupt.
unfoldable pub keyboard_init : Keyboard → Run Keyboard
keyboard_init k = do
  ports ← set_leds false true false k.ports
  ok (record k {
    kb_in = record k.kb_in { count = 0; p_head = 0; p_tail = 0 };
    mods = record {
      shift_l = false;
      shift_r = false;
      alt_l = false;
      alt_r = false;
      ctrl_l = false;
      ctrl_r = false;
      caps_lock = false;
      num_lock = true;
      scroll_lock = false;
    };
    ports = ports;
  })
