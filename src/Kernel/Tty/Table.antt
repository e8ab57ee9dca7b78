-- ===== src/Kernel/Tty/Table.antt =====
-- The table of consoles of kernel/tty.c: creation, writing and clearing.
use jnix.Prelude.{
  ℕ, zero, suc, ◌+◌, ◌-◌, ◌*◌, ◌/◌, List, [], ◌∷◌, get_elem?, set, Run, ok, fault, ◌>>=◌, deref,
}
use jnix.Kernel.Tty.{
  Console, Display, tty_num, v_mem_size, default_char_color, poke, console_set_cursor,
  set_console_start_addr, console_out_char,
}

-- Where `inbuf_head` and `inbuf_tail` point: into the buffer of the local variable of `tty_create`,
-- or into that of the entry in the table.
pub data InPtr : Type 0 where
  frame : ℕ → InPtr
  own : ℕ → InPtr

-- `TTY`
pub record Tty : Type 0 where
  pub id : ℕ
  pub in_buff : List ℕ
  pub inbuf_head : InPtr
  pub inbuf_tail : InPtr
  pub inbuf_count : ℕ
  pub console : Console

pub record Screen : Type 0 where
  pub tty_table : List Tty
  pub current_tty : ℕ
  pub display : Display

-- `(V_MEM_SIZE >> 1) / TTY_NUM`
abbrev pub con_v_mem_size : ℕ
con_v_mem_size = v_mem_size / 2 / tty_num

-- `buff` is what the stack holds. The struct is returned by value, so that its two pointers go on
-- pointing at the local variable.
unfoldable pub tty_create : ℕ → List ℕ → Tty
tty_create id buff = record {
  id = id;
  in_buff = buff;
  inbuf_head = frame 0;
  inbuf_tail = frame 0;
  inbuf_count = 0;
  console = record {
    current_start_addr = id * con_v_mem_size;
    original_addr = id * con_v_mem_size;
    v_mem_limit = con_v_mem_size;
    cursor = id * con_v_mem_size;
  };
}

-- `for (i = 0; i < TTY_NUM; i++) tty_table[i] = tty_create(i);`
unfoldable pub create_from : ℕ → ℕ → List ℕ → List Tty
unfolding tty_create
create_from zero i buff = []
create_from (suc n) i buff = tty_create i buff ∷ create_from n (i + 1) buff

unfoldable pub init_tty : List ℕ → Display → Screen
unfolding create_from
init_tty buff d = record { tty_table = create_from tty_num 0 buff; current_tty = 0; display = d }

-- `while (i) { console_out_char(&(tty->console), *p++); i--; }`; past its end the buffer is not
-- readable.
unfoldable pub write_chars : List ℕ → ℕ → Console × Display → Run (Console × Display)
write_chars buf zero s = ok s
write_chars [] (suc n) s = fault
write_chars (ch ∷ buf) (suc n) s = console_out_char ch s >>= write_chars buf n

unfoldable pub tty_write : ℕ → List ℕ → ℕ → Screen → Run (ℕ × Screen)
unfolding write_chars
tty_write mi_dev buf len s = do
  tty ← deref (get_elem? s.tty_table mi_dev)
  (c, d) ← write_chars buf len (tty.console, s.display)
  ok (
    len,
    record s { tty_table = set s.tty_table mi_dev (record tty { console = c }); display = d },
  )

-- `for (i = from; i < to; i++)`, with the rounds that are left.
unfoldable pub blank_cells : ℕ → ℕ → (ℕ → ℕ) → ℕ → ℕ
blank_cells zero i vmem = vmem
blank_cells (suc n) i vmem =
    blank_cells n (i + 1) (poke (poke vmem (i * 2) 0) (i * 2 + 1) default_char_color)

-- The loop runs from `original_addr` up to `v_mem_limit / 2`.
unfoldable pub clear_screen : Tty → Display → Tty × Display
unfolding blank_cells
clear_screen tty d =
    let o = tty.console.original_addr in
    (
      record tty { console = record tty.console { current_start_addr = o; cursor = o } },
      record {
        vmem = blank_cells (tty.console.v_mem_limit / 2 - o) o d.vmem;
        crtc = console_set_cursor o (set_console_start_addr o d.crtc);
      },
    )
