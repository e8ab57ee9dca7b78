-- ===== src/Kernel/Tests.antt =====
-- Small runs of the consoles, and the theorems at them.
use jnix.Prelude.{ℕ, ◌+◌, ◌*◌, ◌/◌, ◌<◌, ◌≤◌, ◌≡◌, refl, ◌⊎◌, List, [], ◌∷◌, arith, set, ok}
use jnix.Kernel.Tty
use jnix.Kernel.Tty.{
  Console, Crtc, Display, Direction, scr_up, scroll, console_out_char, default_char_color,
}
use jnix.Kernel.Tty.Screen.{IsValid, SameRegion, Printed, console_out_char_lem}
use jnix.Kernel.Tty.Table.{Screen, tty_create, tty_write, clear_screen}
use jnix.Kernel.Tty.Isolation.{Apart, BelongsTo, tty_write_lem, clear_screen_lem}

abbrev display : Display
display = record { vmem = λ a. 0; crtc = record { addr = 0; regs = λ r. 0 } }

-- The second console, two rows down.
abbrev console : Console
console = record {
  current_start_addr = 5461;
  original_addr = 5461;
  v_mem_limit = 5461;
  cursor = 5621;
}

console-IsValid : IsValid console
console-IsValid = omega arith

newline_test : (Tty.put_char 10 (console, display.vmem)).0.cursor ≡ 5701
unfolding Tty.put_char
newline_test = refl

-- The last console's buffer of a character and a newline.
abbrev text : List ℕ
text = 72 ∷ 10 ∷ []

abbrev screen : Screen
screen = record { tty_table = tty_create 1 [] ∷ []; current_tty = 0; display = display }

console_out_char_lem_example :
    (c : Console) × (d : Display) × (console_out_char 65 (console, display) ≡ ok (c, d))
    × Printed console display c d
console_out_char_lem_example = console_out_char_lem 65 console display console-IsValid

created-IsValid : IsValid (tty_create 1 []).console
unfolding tty_create
created-IsValid = omega arith

tty_write_lem_example :
    (s : Screen) × (c : Console) × (tty_write 0 text 2 screen ≡ ok (2, s))
    × IsValid c
    × SameRegion (tty_create 1 []).console c
    × (s.tty_table ≡ set screen.tty_table 0 (record (tty_create 1 []) { console = c }))
    × ((e : Console) (a : ℕ)
        → Apart (tty_create 1 []).console e
        → BelongsTo e a
        → s.display.vmem a ≡ screen.display.vmem a)
tty_write_lem_example =
    tty_write_lem screen 0 (tty_create 1 []) text 2 refl created-IsValid (omega arith)

clear_screen_lem_example :
    ((j : ℕ)
      → (tty_create 0 []).console.original_addr ≤ j
      → j < (tty_create 0 []).console.v_mem_limit / 2
      → ((clear_screen (tty_create 0 []) display).1.vmem (2 * j) ≡ 0)
        × ((clear_screen (tty_create 0 []) display).1.vmem (2 * j + 1) ≡ default_char_color))
    × ((a : ℕ)
        → (a < 2 * (tty_create 0 []).console.original_addr)
          ⊎ (2 * ((tty_create 0 []).console.v_mem_limit / 2) ≤ a)
        → (clear_screen (tty_create 0 []) display).1.vmem a ≡ display.vmem a)
    × ((clear_screen (tty_create 0 []) display).0.console.cursor
        ≡ (tty_create 0 []).console.original_addr)
    × ((clear_screen (tty_create 0 []) display).0.console.current_start_addr
        ≡ (tty_create 0 []).console.original_addr)
clear_screen_lem_example = clear_screen_lem (tty_create 0 []) display
