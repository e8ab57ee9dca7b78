-- ===== src/Drivers/Ports.antt =====
-- The ports of the keyboard controller, as drivers/i386/keyboard.c reads and writes them. What the
-- controller answers is not up to the code: it is a list of the bytes that the next reads return.
pub mod Leds
use jnix.Prelude.{
  ℕ, ◌+◌, ◌*◌, ◌/◌, ◌%◌, Bool, true, false, List, [], ◌∷◌, ◌++◌, ◌==◌, if◌then◌else◌, Run, ok,
  stuck, ◌>>=◌,
}
use jnix.Drivers.Keys.{kb_data, led_code, kb_ack}

pub record Ports : Type 0 where
  pub reads : List ℕ
  pub writes : List (ℕ × ℕ)

-- `do kb_stat = inb(KB_CMD); while (kb_stat & 0x02);` on the answers of the controller; when there
-- are no more, the loop goes on.
unfoldable pub kb_wait : List ℕ → Run (List ℕ)
kb_wait [] = stuck
kb_wait (kb_stat ∷ reads) = if kb_stat / 2 % 2 == 1 then kb_wait reads else ok reads

-- `do kb_read = inb(KB_DATA); while (kb_read != KB_ACK);`
unfoldable pub kb_acknowledged : List ℕ → Run (List ℕ)
kb_acknowledged [] = stuck
kb_acknowledged (kb_read ∷ reads) = if kb_read == kb_ack then ok reads else kb_acknowledged reads

-- `kb_wait(); outb(value, KB_DATA); kb_ack();`
unfoldable pub command : ℕ → Ports → Run Ports
command value p = do
  waited ← kb_wait p.reads
  reads ← kb_acknowledged waited
  ok (record { reads = reads; writes = p.writes ++ ((value, kb_data) ∷ []) })

abbrev pub bit : Bool → ℕ
bit true = 1
bit false = 0

-- `(caps_lock << 2) | (num_lock << 1) | scroll_lock`
abbrev pub leds_of : Bool → Bool → Bool → ℕ
leds_of caps_lock num_lock scroll_lock = bit caps_lock * 4 + bit num_lock * 2 + bit scroll_lock

unfoldable pub set_leds : Bool → Bool → Bool → Ports → Run Ports
set_leds caps_lock num_lock scroll_lock p = do
  p ← command led_code p
  command (leds_of caps_lock num_lock scroll_lock) p
