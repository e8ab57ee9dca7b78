-- ===== src/Kernel/Tty.antt =====
-- kernel/tty.c and include/system/tty.h: the text consoles, which share the video memory and the
-- two ports of the CRT controller.
pub mod Screen
pub mod Table
pub mod Isolation
use jnix.Prelude.{
  ℕ, zero, suc, ◌+◌, ◌-◌, ◌*◌, ◌/◌, ◌%◌, ◌&&◌, Bool, true, false, Option, none, some, List, [], ◌∷◌,
  leb, ltb, ◌==◌, if◌then◌else◌, length, get_elem?, set, Run, ok, panicked, fault, stuck, ◌>>=◌,
  deref, add32, sub32, mul32, u32_mod,
}

abbrev pub tty_num : ℕ
tty_num = 3

abbrev pub v_mem_size : ℕ
v_mem_size = 0x8000

abbrev pub screen_width : ℕ
screen_width = 80

abbrev pub screen_size : ℕ
screen_size = 80 * 25

abbrev pub default_char_color : ℕ
default_char_color = 0x07

-- `CONSOLE`: addresses count cells of two bytes from V_MEM_BASE on.
pub record Console : Type 0 where
  pub current_start_addr : ℕ
  pub original_addr : ℕ
  pub v_mem_limit : ℕ
  pub cursor : ℕ

-- The controller: the address port selects the register that the data port writes.
pub record Crtc : Type 0 where
  pub addr : ℕ
  pub regs : ℕ → ℕ

-- Video memory by byte offset from V_MEM_BASE, and the controller.
pub record Display : Type 0 where
  pub vmem : ℕ → ℕ
  pub crtc : Crtc

abbrev pub crtc_addr_reg : ℕ
crtc_addr_reg = 0x3D4

abbrev pub poke : (ℕ → ℕ) → ℕ → ℕ → ℕ → ℕ
poke mem p v a = if a == p then v else mem a

-- `outb(value, port)` as far as the controller listens
unfoldable pub outb : ℕ → ℕ → Crtc → Crtc
outb value port c =
    if port == crtc_addr_reg
    then record c { addr = value }
    else record c { regs = poke c.regs c.addr value }

-- `outb(high, CRTC_ADDR_REG); outb((position >> 8) & 0xFF, CRTC_DATA_REG); …`
unfoldable pub put_word : ℕ → ℕ → ℕ → Crtc → Crtc
unfolding outb
put_word high low position c =
    outb (position % 256) 0x3D5
      (outb low 0x3D4 (outb (position / 256 % 256) 0x3D5 (outb high 0x3D4 c)))

unfoldable pub console_set_cursor : ℕ → Crtc → Crtc
unfolding put_word
console_set_cursor position c = put_word 0xE 0xF position c

unfoldable pub set_console_start_addr : ℕ → Crtc → Crtc
unfolding put_word
set_console_start_addr addr c = put_word 0xC 0xD addr c

unfoldable pub flush : Console → Crtc → Crtc
unfolding console_set_cursor set_console_start_addr
flush c crtc = set_console_start_addr c.current_start_addr (console_set_cursor c.cursor crtc)

-- SCR_UP and SCR_DN
pub data Direction : Type 0 where
  scr_up : Direction
  scr_dn : Direction

-- The console of `scroll_screen`, before the registers are set.
unfoldable pub scroll : Direction → Console → Console
scroll scr_up c =
    if ltb c.original_addr c.current_start_addr
    then record c { current_start_addr = sub32 c.current_start_addr screen_width }
    else c
scroll scr_dn c =
    if ltb (add32 c.current_start_addr screen_size) (add32 c.original_addr c.v_mem_limit)
    then record c { current_start_addr = add32 c.current_start_addr screen_width }
    else c

unfoldable pub scroll_screen : Direction → Console × Crtc → Console × Crtc
unfolding scroll console_set_cursor set_console_start_addr
scroll_screen dir (c, crtc) = (
  scroll dir c,
  console_set_cursor (scroll dir c).cursor
      (set_console_start_addr (scroll dir c).current_start_addr crtc),
)

-- `while (cursor >= current_start_addr + SCREEN_SIZE) scroll_screen(console, SCR_DN);`
unfoldable pub follow : ℕ → Console × Crtc → Run (Console × Crtc)
unfolding scroll_screen
follow zero s = stuck
follow (suc fuel) (c, crtc) = elim (leb (add32 c.current_start_addr screen_size) c.cursor) [
  | true ↦ follow fuel (scroll_screen scr_dn (c, crtc))
  | false ↦ ok (c, crtc)
]

-- The switch of `console_out_char`: the cursor and the cells.
unfoldable pub put_char : ℕ → Console × (ℕ → ℕ) → Console × (ℕ → ℕ)
put_char ch (c, vmem) =
    if ch == 10
    then (if ltb c.cursor (sub32 (add32 c.original_addr c.v_mem_limit) screen_width)
        then (
          record c {
            cursor =
                add32 c.original_addr
                  (mul32 screen_width (sub32 c.cursor c.original_addr / screen_width + 1));
          },
          vmem,
        )
        else (c, vmem))
    else if ch == 8
    then (if ltb c.original_addr c.cursor
        then (
          record c { cursor = sub32 c.cursor 1 },
          poke (poke vmem (c.cursor * 2 - 2) 32) (c.cursor * 2 - 1) default_char_color,
        )
        else (c, vmem))
    else (if ltb c.cursor (sub32 (add32 c.original_addr c.v_mem_limit) 1)
        then (
          record c { cursor = add32 c.cursor 1 },
          poke (poke vmem (c.cursor * 2) ch) (c.cursor * 2 + 1) default_char_color,
        )
        else (c, vmem))

-- One round of scrolling for each cell of the console is enough.
unfoldable pub console_out_char : ℕ → Console × Display → Run (Console × Display)
unfolding put_char follow flush
console_out_char ch (c, d) = do
  let s = put_char ch (c, d.vmem)
  (c', crtc) ← follow (suc (s.0).cursor) (s.0, d.crtc)
  ok (c', record { vmem = s.1; crtc = flush c' crtc })
