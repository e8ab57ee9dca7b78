-- ===== src/Drivers/Keyboard.antt =====
-- drivers/i386/keyboard.c: from scan codes to the input of the first console. A flag that the source
-- keeps as an int is a Boolean.
pub mod Read
pub mod Table
pub mod Typing
use jnix.Prelude.{
  ℕ, zero, suc, ◌+◌, ◌-◌, ◌*◌, ◌/◌, ◌%◌, ◌&&◌, ◌||◌, not, Bool, true, false, Option, none, some,
  List, [], ◌∷◌, ltb, leb, ◌==◌, if◌then◌else◌, get_elem?, set, replicate, Run, ok, fault, stuck,
  ◌>>=◌, deref,
}
use jnix.Clib.Strings.{extend}
use jnix.Kernel.Tty.{Console, Display, Direction, scr_up, scr_dn, scroll_screen}
use jnix.Kernel.Tty.Table.{InPtr, frame, own, Tty, Screen, tty_write, clear_screen}
use jnix.Drivers.Keys
use jnix.Drivers.Keymap.{keymap}
use jnix.Drivers.Inbuf.{Inbuf, put, get_tail, pop_buf}
use jnix.Drivers.Ports.{Ports, set_leds}

-- The static variables of the file but the buffer.
pub record Modifiers : Type 0 where
  pub shift_l : Bool
  pub shift_r : Bool
  pub alt_l : Bool
  pub alt_r : Bool
  pub ctrl_l : Bool
  pub ctrl_r : Bool
  pub caps_lock : Bool
  pub num_lock : Bool
  pub scroll_lock : Bool

pub record Keyboard : Type 0 where
  pub kb_in : Inbuf
  pub mods : Modifiers
  pub ports : Ports
  pub screen : Screen

-- `key & flag`
abbrev pub has_flag : ℕ → ℕ → Bool
has_flag key flag = key / flag % 2 == 1

-- `key |= on ? flag : 0;`
abbrev pub add_flag : Bool → ℕ → ℕ → ℕ
add_flag on flag key = if on && not (has_flag key flag) then key + flag else key

-- `if (tty->inbuf_count < TTY_IN_BYTES) …`. A pointer into the frame of `tty_create`, which has
-- returned, points at nothing.
unfoldable pub put_key : ℕ → Tty → Run Tty
put_key key tty =
    if ltb tty.inbuf_count 256
    then (do
      i ← elim tty.inbuf_head [ frame i ↦ fault | own i ↦ ok i ]
      old ← deref (get_elem? tty.in_buff i)
      ok (record tty {
        in_buff = set tty.in_buff i (extend key);
        inbuf_head = own (if i + 1 == 256 then 0 else i + 1);
        inbuf_count = tty.inbuf_count + 1;
      }))
    else ok tty

abbrev pub with_tty : Screen → Tty → Screen
with_tty s tty = record s { tty_table = set s.tty_table 0 tty }

-- `scroll_screen(&(tty->console), dir)`
abbrev pub scroll_tty : Direction → Tty → Screen → Screen
scroll_tty dir tty s =
    let (c, crtc) = scroll_screen dir (tty.console, s.display.crtc) in
    record (with_tty s (record tty { console = c })) { display = record s.display { crtc = crtc } }

-- The character that a key types.
abbrev pub char_of : ℕ → ℕ
char_of content =
    if content == Keys.enter_key then 10 else if content == Keys.backspace then 8 else content % 256

-- `tty_write(0, &key, 1);` and the byte into the input of the console
unfoldable pub type_char : ℕ → Screen → Run Screen
unfolding put_key
type_char key s₀ = do
  (n, s) ← tty_write 0 (key ∷ []) 1 s₀
  tty ← deref (get_elem? s.tty_table 0)
  tty' ← put_key key tty
  ok (with_tty s tty')

-- `tty` is the first entry of the table.
unfoldable pub handle_tty : ℕ → Screen → Run Screen
unfolding type_char
handle_tty content s = do
  tty ← deref (get_elem? s.tty_table 0)
  if has_flag content Keys.flag_ctrl_l && (content % 256 == b'l')
      then (let (t, d) = clear_screen tty s.display in ok (record (with_tty s t) { display = d }))
      else if content == Keys.pagedown
      then ok (scroll_tty scr_dn tty s)
      else if content == Keys.pageup
      then ok (scroll_tty scr_up tty s)
      else if not (has_flag content Keys.flag_ext)
          || content == Keys.enter_key
          || content == Keys.backspace
      then type_char (char_of content) s
      else ok s

abbrev pub is_letter : ℕ → Bool
is_letter key = leb b'a' key && leb key b'z'

abbrev pub xor : Bool → Bool → Bool
xor true b = not b
xor false b = b

abbrev pub caps_of : Modifiers → ℕ × ℕ × ℕ → Bool
caps_of m keyrow = xor (m.caps_lock && is_letter keyrow.0) (m.shift_l || m.shift_r)

-- `keyrow[column]`
abbrev pub column_of : Modifiers → ℕ × ℕ × ℕ → Bool → ℕ
column_of m keyrow code_with_E0 =
    if code_with_E0 then keyrow.2 else if caps_of m keyrow then keyrow.1 else keyrow.0

unfoldable pub key_of : Modifiers → ℕ → Bool → Run ℕ
key_of m scan_code code_with_E0 = do
  keyrow ← deref (get_elem? keymap (scan_code % 0x80))
  ok (column_of m keyrow code_with_E0)

-- The switch on the key. The right Alt key sets `alt_l`.
unfoldable pub track : ℕ → Bool → Modifiers → Modifiers
track key make m =
    if key == Keys.shift_l_key
    then record m { shift_l = make }
    else if key == Keys.shift_r_key
    then record m { shift_r = make }
    else if key == Keys.ctrl_l_key
    then record m { ctrl_l = make }
    else if key == Keys.ctrl_r_key
    then record m { ctrl_r = make }
    else if key == Keys.alt_l_key
    then record m { alt_l = make }
    else if key == Keys.alt_r_key
    then record m { alt_l = make }
    else if not make
    then m
    else if key == Keys.caps_lock_key
    then record m { caps_lock = not m.caps_lock }
    else if key == Keys.num_lock_key
    then record m { num_lock = not m.num_lock }
    else if key == Keys.scroll_lock_key
    then record m { scroll_lock = not m.scroll_lock }
    else m

abbrev pub is_lock : ℕ → Bool
is_lock key =
    (key == Keys.caps_lock_key) || (key == Keys.num_lock_key) || (key == Keys.scroll_lock_key)

-- The switch with the three calls of `set_leds`.
unfoldable pub switch_key : ℕ → Bool → Modifiers × Ports → Run (Modifiers × Ports)
unfolding track
switch_key key make (m, p) =
    let m' = track key make m in
    if make && is_lock key
    then (do p' ← set_leds m'.caps_lock m'.num_lock m'.scroll_lock p; ok (m', p'))
    else ok (m', p)

abbrev pub is_pad : ℕ → Bool
is_pad key = leb Keys.pad_slash key && leb key Keys.pad_9

-- A key of the num pad without Num Lock.
unfoldable pub pad_move : ℕ → ℕ
pad_move key =
    if key == Keys.pad_home
    then Keys.home_key
    else if key == Keys.pad_end
    then Keys.end_key
    else if key == Keys.pad_pageup
    then Keys.pageup
    else if key == Keys.pad_pagedown
    then Keys.pagedown
    else if key == Keys.pad_ins
    then Keys.insert_key
    else if key == Keys.pad_up
    then Keys.up_key
    else if key == Keys.pad_down
    then Keys.down_key
    else if key == Keys.pad_left
    then Keys.left_key
    else if key == Keys.pad_right
    then Keys.right_key
    else if key == Keys.pad_dot
    then Keys.delete_key
    else key

unfoldable pub pad_key : Bool → ℕ → ℕ
unfolding pad_move
pad_key num_lock key =
    if key == Keys.pad_slash
    then b'/'
    else if key == Keys.pad_star
    then b'*'
    else if key == Keys.pad_minus
    then b'-'
    else if key == Keys.pad_plus
    then b'+'
    else if key == Keys.pad_enter
    then Keys.enter_key
    else if num_lock
    then (if leb Keys.pad_0 key && leb key Keys.pad_9
        then key - Keys.pad_0 + b'0'
        else if key == Keys.pad_dot
        then b'.'
        else key)
    else pad_move key

-- The key as `handle_tty` gets it.
unfoldable pub content_of : Modifiers → ℕ → ℕ
unfolding pad_key
content_of m key =
    let k = if is_pad key then pad_key m.num_lock key else key in
    add_flag (is_pad key) Keys.flag_pad (
      add_flag m.alt_r Keys.flag_alt_r (
        add_flag m.alt_l Keys.flag_alt_l (
          add_flag m.ctrl_r Keys.flag_ctrl_r (
            add_flag m.ctrl_l Keys.flag_ctrl_l
              (add_flag m.shift_r Keys.flag_shift_r (add_flag m.shift_l Keys.flag_shift_l k))))))
