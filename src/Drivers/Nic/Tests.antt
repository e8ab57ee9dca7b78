-- ===== src/Drivers/Nic/Tests.antt =====
-- The network card with small frames in its rings.
use jnix.Prelude.{
  ℕ, ◌+◌, ◌*◌, ◌≡◌, refl, true, false, some, List, [], ◌∷◌, ◌++◌, arith, set, replicate, ok, fault,
  ◌%◌, ◌≤◌, ◌<◌, inl, zero, suc, get_elem?, ap,
}
use mathlib.Core.Option.{some-injective}
use jnix.Drivers.Nic.{
  BufferDescriptor, Nic, buffer_size, rx_buffer_count, tx_buffer_count, data_port, add_port,
  card_owns, whole_frame, take_frame, receive, send, am79c_interrupt_handle,
}
use jnix.Drivers.Nic.Receiving.{Ready, empty, next, taken, receive-overrun}
use jnix.Drivers.Nic.Delivered.{Filled, nothing, whole, damaged, Returned, receive_lem}
use jnix.Drivers.Nic.Rings.{
  AllSized, set-AllSized, LengthFits, UpTo, IsValid, Received, receive-IsValid,
}
use jnix.Drivers.Nic.Interrupt.{Handled, am79c_interrupt_handle_lem}
use jnix.Drivers.Nic.Sending.{Holds, send_lem}
use jnix.Drivers.Nic.Start.{
  PciDeviceDesc, new_send, new_recv, init, csr, replicate-AllSized, init_lem,
}
use jnix.Net.Packet.{first_bytes}

abbrev card : Nic
card = record {
  dev_addr = 2 ∷ 0 ∷ 0 ∷ 0 ∷ 0 ∷ 1 ∷ [];
  ip = 0x0A000001;
  irq = 11;
  io_base = 0xC000;
  rx_dropped = 0;
  tx_dropped = 0;
  init_block = record {
    mode = 0;
    rlen = 0x50;
    tlen = 0x40;
    mac = [];
    reserved3 = 0;
    ladr_low = 0;
    ladr_hight = 0;
    recv_buffer_descr_address = 0;
    send_buffer_descr_address = 0;
  };
  send_buffer_descr = replicate 16 new_send;
  recv_buffer_descr = replicate 32 new_recv;
  current_rx_buffer = 0;
  current_tx_buffer = 15;
  writes = [];
  received = [];
}

card_valid : IsValid card
card_valid = record {
  tx_count = refl;
  rx_count = refl;
  tx_at = omega arith;
  rx_at = omega arith;
  tx_sized = replicate-AllSized 16 new_send refl;
  rx_sized = replicate-AllSized 32 new_recv refl;
}

-- Four bytes and their checksum.
abbrev filled : BufferDescriptor
filled = record {
  buffer = 1 ∷ 2 ∷ 3 ∷ 4 ∷ 9 ∷ 9 ∷ 9 ∷ 9 ∷ 0 ∷ [];
  flags = 0x0300F7FF;
  flags2 = 8;
  avail = 0;
}

-- A frame with an error.
abbrev broken : BufferDescriptor
broken = record { buffer = 7 ∷ []; flags = 0x4300F7FF; flags2 = 5; avail = 0 }

one_frame : Ready (filled ∷ []) ((1 ∷ 2 ∷ 3 ∷ 4 ∷ []) ∷ [])
unfolding card_owns take_frame whole_frame first_bytes
one_frame = next {here = (1 ∷ 2 ∷ 3 ∷ 4 ∷ []) ∷ []} refl refl empty

two_frames : Ready (broken ∷ filled ∷ []) ((1 ∷ 2 ∷ 3 ∷ 4 ∷ []) ∷ [])
unfolding card_owns take_frame whole_frame first_bytes
two_frames = next {here = []} refl refl one_frame

new_recv-owned : card_owns new_recv ≡ true
unfolding card_owns
new_recv-owned = refl

new_send-free : card_owns new_send ≡ false
unfolding card_owns
new_send-free = refl

filled_row : Filled (broken ∷ filled ∷ []) ((1 ∷ 2 ∷ 3 ∷ 4 ∷ []) ∷ [])
filled_row =
    damaged refl (inl refl)
      (whole (1 ∷ 2 ∷ 3 ∷ 4 ∷ []) (9 ∷ 9 ∷ 9 ∷ 9 ∷ 0 ∷ []) refl refl refl refl refl nothing)

receive_lem_example :
    (returned : List BufferDescriptor) × Returned (broken ∷ filled ∷ []) returned
    × (receive 3 (taken (new_recv ∷ broken ∷ filled ∷ new_recv ∷ []) 1 [] card)
        ≡ ok (taken (new_recv ∷ (returned ++ (new_recv ∷ []))) 3 ((1 ∷ 2 ∷ 3 ∷ 4 ∷ []) ∷ []) card))
receive_lem_example =
    receive_lem (new_recv ∷ []) (broken ∷ filled ∷ []) new_recv [] ((1 ∷ 2 ∷ 3 ∷ 4 ∷ []) ∷ []) []
      card 3 filled_row new_recv-owned (omega arith) (omega arith)

receive-overrun_example :
    receive 2 (taken (replicate 31 new_recv ++ (filled ∷ [])) 31 [] card) ≡ fault
receive-overrun_example =
    receive-overrun (replicate 31 new_recv) (filled ∷ []) ((1 ∷ 2 ∷ 3 ∷ 4 ∷ []) ∷ []) [] card 2
      one_frame refl (omega arith)

-- A whole frame with its checksum in the first descriptor of the ring.
abbrev full_buffer : BufferDescriptor
full_buffer = record {
  buffer = replicate buffer_size 7;
  flags = 0x0300F7FF;
  flags2 = 64;
  avail = 0;
}

abbrev ring : List BufferDescriptor
ring = full_buffer ∷ replicate 31 new_recv

abbrev receiver : Nic
receiver = record card { recv_buffer_descr = ring }

ring-AllSized : AllSized ring
ring-AllSized i d at =
    set-AllSized (replicate 32 new_recv) 0 full_buffer (replicate-AllSized 32 new_recv refl) refl i
      d at

receiver_valid : IsValid receiver
receiver_valid = record {
  tx_count = refl;
  rx_count = refl;
  tx_at = omega arith;
  rx_at = omega arith;
  tx_sized = replicate-AllSized 16 new_send refl;
  rx_sized = ring-AllSized;
}

frame_fits :
    (i : ℕ) (d : BufferDescriptor) → 0 ≤ i → i < 1 → get_elem? ring i ≡ some d → LengthFits d
frame_fits zero d le lt at w =
    let size : 64 ≡ d.flags2 =
      ap (λ (e : BufferDescriptor). e.flags2) (some-injective full_buffer d at) in
    (omega arith, omega arith)
frame_fits (suc i) d le lt at w = absurd (omega arith)

receiver-UpTo : UpTo ring 0 1
receiver-UpTo = record {
  later = omega arith;
  holder = new_recv;
  there = refl;
  owned = new_recv-owned;
  lengths = frame_fits;
}

receive-IsValid_example : (n' : Nic) × (receive 2 receiver ≡ ok n') × Received receiver n'
receive-IsValid_example = receive-IsValid receiver 1 2 receiver_valid receiver-UpTo (omega arith)

-- The card reports a frame.
abbrev reports : List (ℕ × ℕ) → ℕ → ℕ
reports writes port = 0x0400

am79c_interrupt_handle_lem_example :
    (n' : Nic) × (am79c_interrupt_handle reports 2 receiver ≡ ok n') × Handled reports receiver n'
am79c_interrupt_handle_lem_example =
    am79c_interrupt_handle_lem reports 1 2 receiver receiver_valid receiver-UpTo (omega arith)

send_lem_example :
    (d' : BufferDescriptor) × (n' : Nic) × (send (5 ∷ 6 ∷ []) card ≡ ok (0, n'))
    × Holds (5 ∷ 6 ∷ []) d'
    × (n'.send_buffer_descr ≡ set card.send_buffer_descr 15 d')
    × (n'.current_tx_buffer ≡ (15 + 1) % tx_buffer_count)
    × (n'.writes ≡ (0xC000 + data_port, 0x48) ∷ (0xC000 + add_port, 0) ∷ [])
    × IsValid n'
send_lem_example = send_lem (5 ∷ 6 ∷ []) card new_send card_valid refl new_send-free (omega arith)

abbrev found : PciDeviceDesc
found = record {
  interrupt_line = 11;
  ba = record { map_type = 0; address = 0 } ∷ record { map_type = 1; address = 0xC000 } ∷ [];
}

init_lem_example :
    (n' : Nic) × (init reports 0x00123456 0 0 (some found) card ≡ (0, n'))
    × IsValid n'
    × (n'.send_buffer_descr ≡ replicate tx_buffer_count new_send)
    × (n'.recv_buffer_descr ≡ replicate rx_buffer_count new_recv)
    × (n'.dev_addr ≡ n'.init_block.mac)
    × (csr n'.io_base 0 n'.writes ≡ some 0x42)
    × ((earlier : List (ℕ × ℕ)) × (n'.writes
          ≡ (n'.io_base + data_port, 0x42) ∷ (n'.io_base + add_port, 0) ∷ earlier))
    × (low : ℕ) × (high : ℕ) × (csr n'.io_base 1 n'.writes ≡ some low)
    × (csr n'.io_base 2 n'.writes ≡ some high)
    × (low + 65536 * high ≡ 0x00123456)
init_lem_example = init_lem reports 0x00123456 0 0 found card (omega arith)
