-- ===== src/Drivers/Nic/Sending.antt =====
-- `send` of drivers/i386/am79c793.c, and the card as a device of the network code.
use jnix.Prelude.{
  ℕ, ◌+◌, ◌-◌, ◌/◌, ◌%◌, ◌^◌, ◌≤◌, ◌<◌, ◌≡◌, refl, sym, subst, ap, ◌∙◌, true, false, ◌||◌,
  Bool-cases, inl, inr, some, List, ◌∷◌, arith, ltb, ◌==◌, if◌then◌else◌, length, length-append,
  length-set, get_elem?, set, add32, minus, ok,
}
use jnix.Drivers.Nic.{
  BufferDescriptor, Nic, buffer_size, tx_buffer_count, data_port, add_port, card_owns, send_flags,
  next_tx, fill, send, outw, header_ops_create, am79c793,
}
use jnix.Drivers.Nic.Rings.{IsValid, set-AllSized}
use jnix.Net.Packet.{length-skip, first_bytes, first_bytes-append, skip}
use jnix.Net.Device.{LawfulDevice}

length-fill :
    (packet : List ℕ) (d : BufferDescriptor)
    → length packet ≤ buffer_size
    → length d.buffer ≡ buffer_size
    → length (fill packet d).buffer ≡ buffer_size
length-fill packet d le sized = omega (
  arith,
  length-append packet (skip (length packet) d.buffer),
  length-skip (length packet) d.buffer,
  le,
  sized,
)

pub next_tx-mod : (i : ℕ) → i < tx_buffer_count → next_tx i ≡ (i + 1) % tx_buffer_count
unfolding next_tx
next_tx-mod i lt = ground arith

-- What the card finds in a descriptor: it owns it, the packet is at the start of the buffer, and the
-- low 12 bits are minus its length.
pub record Holds (packet : List ℕ) (d : BufferDescriptor) : Type 0 where
  pub owned : card_owns d ≡ true
  pub bytes : first_bytes (length packet) d.buffer ≡ ok packet
  pub size : (4096 - d.flags % 4096) % 4096 ≡ length packet

fill-Holds :
    (packet : List ℕ) (d : BufferDescriptor)
    → length packet ≤ buffer_size
    → Holds packet (fill packet d)
unfolding card_owns
fill-Holds packet d le = record {
  owned = owned (length packet) (omega arith);
  bytes = first_bytes-append packet (skip (length packet) d.buffer);
  size = omega arith;
}
  where
    owned : (n : ℕ) → n ≤ 1544 → (send_flags n / 2 ^ 31 % 2 == 1) ≡ true
    owned n lt = ground arith

-- The card after a packet was accepted.
unfoldable pub accepted : List ℕ → BufferDescriptor → Nic → Nic
unfolding outw
accepted packet d n =
    let sent = outw 0x48 data_port (
      outw 0 add_port (record n {
        send_buffer_descr = set n.send_buffer_descr n.current_tx_buffer (fill packet d);
      })) in
    record sent { current_tx_buffer = next_tx n.current_tx_buffer }

pub send-accepted :
    (packet : List ℕ) (n : Nic) (d : BufferDescriptor)
    → get_elem? n.send_buffer_descr n.current_tx_buffer ≡ some d
    → card_owns d ≡ false
    → length packet ≤ buffer_size
    → send packet n ≡ ok (0, accepted packet d n)
unfolding send outw accepted
send-accepted packet n d at free fits =
    let short : ltb buffer_size (length packet) ≡ false = ground arith in
    rw at (rw free (rw short refl))

pub accepted-IsValid :
    (packet : List ℕ) (n : Nic) (d : BufferDescriptor)
    → IsValid n
    → get_elem? n.send_buffer_descr n.current_tx_buffer ≡ some d
    → length packet ≤ buffer_size
    → IsValid (accepted packet d n)
unfolding accepted outw
accepted-IsValid packet n d v at fits =
    let next = next_tx-mod n.current_tx_buffer v.tx_at in
    record {
      tx_count = length-set n.send_buffer_descr n.current_tx_buffer (fill packet d) ∙ v.tx_count;
      rx_count = v.rx_count;
      tx_at = subst (λ k. k < tx_buffer_count) (sym next) (omega arith);
      rx_at = v.rx_at;
      tx_sized =
          set-AllSized n.send_buffer_descr n.current_tx_buffer (fill packet d) v.tx_sized
            (length-fill packet d fits (v.tx_sized n.current_tx_buffer d at));
      rx_sized = v.rx_sized;
    }

-- A packet that fits a buffer, given to a card whose current descriptor is free, is accepted: the
-- descriptor then holds it, the others are as they were, the card is told to look at its ring, and
-- the ring goes on by one, round its end.
pub send_lem :
    (packet : List ℕ) (n : Nic) (d : BufferDescriptor)
    → IsValid n
    → get_elem? n.send_buffer_descr n.current_tx_buffer ≡ some d
    → card_owns d ≡ false
    → length packet ≤ buffer_size
    → (d' : BufferDescriptor) × (n' : Nic) × (send packet n ≡ ok (0, n'))
      × Holds packet d'
      × (n'.send_buffer_descr ≡ set n.send_buffer_descr n.current_tx_buffer d')
      × (n'.current_tx_buffer ≡ (n.current_tx_buffer + 1) % tx_buffer_count)
      × (n'.writes ≡ (n.io_base + data_port, 0x48) ∷ (n.io_base + add_port, 0) ∷ n.writes)
      × IsValid n'
unfolding accepted outw
send_lem packet n d v at free fits = (
  fill packet d,
  accepted packet d n,
  send-accepted packet n d at free fits,
  fill-Holds packet d fits,
  refl,
  next_tx-mod n.current_tx_buffer v.tx_at,
  refl,
  accepted-IsValid packet n d v at fits,
)

-- `send` refuses a packet when the card still has the descriptor, and counts it, and one that does
-- not fit a buffer; the rings are as they were.
pub send-refused :
    (packet : List ℕ) (n : Nic) (d : BufferDescriptor)
    → get_elem? n.send_buffer_descr n.current_tx_buffer ≡ some d
    → (card_owns d || ltb buffer_size (length packet)) ≡ true
    → send packet n
      ≡ ok (minus 1, if card_owns d then record n { tx_dropped = add32 n.tx_dropped 1 } else n)
unfolding send
send-refused packet n d at refused = elim (Bool-cases (card_owns d)) [
  | inl owned ↦ rw at (rw owned refl)
  | inr free ↦
      let long : ltb buffer_size (length packet) ≡ true =
        ap (λ owned. owned || ltb buffer_size (length packet)) (sym free) ∙ refused in
      rw at (rw free (rw long refl))
]

-- The card makes the headers that the network code relies on.
pub am79c793-LawfulDevice : LawfulDevice am79c793
unfolding am79c793 header_ops_create
am79c793-LawfulDevice = record {
  create = header_ops_create;
  is_set = refl;
  header = λ d type daddr saddr. refl;
}
