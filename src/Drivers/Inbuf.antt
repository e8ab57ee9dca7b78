-- ===== src/Drivers/Inbuf.antt =====
-- The buffer of scan codes of drivers/i386/keyboard.c, a ring of 32 bytes.
pub mod Fifo
use jnix.Prelude.{
  ℕ, ◌+◌, ◌-◌, Bool, List, get_elem?, set, replicate, ltb, ◌==◌, if◌then◌else◌, Run, ok, fault,
  ◌>>=◌, deref,
}
use jnix.Drivers.Keys.{kb_in_bytes}

-- `struct kb_inbuf`: the two pointers as positions in `buf`.
pub record Inbuf : Type 0 where
  pub p_head : ℕ
  pub p_tail : ℕ
  pub count : ℕ
  pub buf : List ℕ

-- `p++; if (p == kb_in.buf + KB_IN_BYTES) p = kb_in.buf;`
abbrev pub advance : ℕ → ℕ
advance p = if p + 1 == kb_in_bytes then 0 else p + 1

-- What `keyboard_handler` does with the byte. A full buffer drops it.
unfoldable pub put : ℕ → Inbuf → Run Inbuf
put scan_code kb =
    if ltb kb.count kb_in_bytes
    then (do
      old ← deref (get_elem? kb.buf kb.p_head)
      ok (record kb {
        buf = set kb.buf kb.p_head scan_code;
        p_head = advance kb.p_head;
        count = kb.count + 1;
      }))
    else ok kb

-- The oldest byte, which stays in the buffer; `(unsigned char)-1` if there is none.
unfoldable pub get_tail : Inbuf → Run ℕ
get_tail kb = if kb.count == 0 then ok 255 else deref (get_elem? kb.buf kb.p_tail)

unfoldable pub pop_buf : Inbuf → Run Inbuf
pop_buf kb = if kb.count == 0 then ok kb else (do
  scan_code ← deref (get_elem? kb.buf kb.p_tail)
  ok (record kb { p_tail = advance kb.p_tail; count = kb.count - 1 }))
