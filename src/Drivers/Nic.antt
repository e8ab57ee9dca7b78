-- ===== src/Drivers/Nic.antt =====
-- drivers/i386/am79c793.c: the driver of the network card. The card's memory is the two rings of
-- descriptors; what it answers at its ports is a parameter. What is printed is left out, and an
-- allocation succeeds.
pub mod Start
pub mod Rings
pub mod Interrupt
pub mod Sending
pub mod Bursts
pub mod Receiving
pub mod Delivered
mod Tests
use jnix.Prelude.{
  ℕ, zero, suc, ◌+◌, ◌-◌, ◌*◌, ◌/◌, ◌%◌, ◌^◌, Bool, true, false, not, ◌&&◌, Option, none, some,
  List, [], ◌∷◌, ◌++◌, ltb, leb, ◌==◌, if◌then◌else◌, length, get_elem?, set, add32, sub32, minus,
  Run, ok, fault, stuck, ◌>>=◌, deref, u32_mod,
}
use jnix.Net.Bytes.{htons}
use jnix.Net.Packet.{bytes16, first_bytes, skip}
use jnix.Net.Arp.{Mac}
use jnix.Net.Device.{NetDevice}

abbrev pub rx_buffer_count : ℕ
rx_buffer_count = 32

abbrev pub tx_buffer_count : ℕ
tx_buffer_count = 16

abbrev pub buffer_size : ℕ
buffer_size = 1544

abbrev pub data_port : ℕ
data_port = 0x10

abbrev pub add_port : ℕ
add_port = 0x12

-- `struct buffer_descriptor` with the memory that `address` points to.
pub record BufferDescriptor : Type 0 where
  pub buffer : List ℕ
  pub flags : ℕ
  pub flags2 : ℕ
  pub avail : ℕ

-- `struct initialization_block`
pub record InitializationBlock : Type 0 where
  pub mode : ℕ
  pub rlen : ℕ
  pub tlen : ℕ
  pub mac : Mac
  pub reserved3 : ℕ
  pub ladr_low : ℕ
  pub ladr_hight : ℕ
  pub recv_buffer_descr_address : ℕ
  pub send_buffer_descr_address : ℕ

-- The `struct net_device` of the card and its `struct am79c793_data`; `writes` are the calls of
-- `outw`, a port and a value each, the last one first, and `received` the data of the buffers that
-- `skb_recv_push` was called with, in order.
pub record Nic : Type 0 where
  pub dev_addr : Mac
  pub ip : ℕ
  pub irq : ℕ
  pub io_base : ℕ
  pub rx_dropped : ℕ
  pub tx_dropped : ℕ
  pub init_block : InitializationBlock
  pub send_buffer_descr : List BufferDescriptor
  pub recv_buffer_descr : List BufferDescriptor
  pub current_rx_buffer : ℕ
  pub current_tx_buffer : ℕ
  pub writes : List (ℕ × ℕ)
  pub received : List (List ℕ)

-- `flags & 0x80000000`: the card has the descriptor.
unfoldable pub card_owns : BufferDescriptor → Bool
card_owns d = d.flags / 2 ^ 31 % 2 == 1

-- `!(flags & 0x40000000) && (flags & 0x03000000) == 0x03000000`
unfoldable pub whole_frame : BufferDescriptor → Bool
whole_frame d = not (d.flags / 2 ^ 30 % 2 == 1) && (d.flags / 2 ^ 24 % 4 == 3)

unfoldable pub outw : ℕ → ℕ → Nic → Nic
outw value port n = record n { writes = (n.io_base + port, value) ∷ n.writes }

-- What the loop of `receive` pushes for a descriptor.
unfoldable pub take_frame : BufferDescriptor → Run (List (List ℕ))
take_frame d =
    if whole_frame d
    then (do bytes ← first_bytes (sub32 (d.flags2 % 4096) 4) d.buffer; ok (bytes ∷ []))
    else ok []

abbrev pub give_back : BufferDescriptor → BufferDescriptor
give_back d = record d { flags2 = 0; flags = 0x8000F7FF }

unfoldable pub next_rx : ℕ → ℕ
next_rx current = if ltb rx_buffer_count (current + 1) then 0 else current + 1

-- The body of the loop.
unfoldable pub take_in : BufferDescriptor → Nic → Run Nic
take_in d n = do
  frames ← take_frame d
  ok (record n {
    recv_buffer_descr = set n.recv_buffer_descr n.current_rx_buffer (give_back d);
    current_rx_buffer = next_rx n.current_rx_buffer;
    received = n.received ++ frames;
  })

unfoldable pub receive : ℕ → Nic → Run Nic
receive zero n = stuck
receive (suc fuel) n = do
  d ← deref (get_elem? n.recv_buffer_descr n.current_rx_buffer)
  elim (card_owns d) [ true ↦ ok n | false ↦ take_in d n >>= receive fuel ]

-- `0x8300F000 | ((unsigned short)((-size) & 0xFFF))`, whose parts have no bit in common
abbrev pub send_flags : ℕ → ℕ
send_flags size = 0x8300F000 + minus size % 4096

unfoldable pub next_tx : ℕ → ℕ
next_tx current = if leb tx_buffer_count (current + 1) then 0 else current + 1

-- The descriptor after `memcpy` and the three assignments.
abbrev pub fill : List ℕ → BufferDescriptor → BufferDescriptor
fill packet d = record {
  buffer = packet ++ skip (length packet) d.buffer;
  flags = send_flags (length packet);
  flags2 = 0;
  avail = 0;
}

-- `size` is the length of the packet.
unfoldable pub send : List ℕ → Nic → Run (ℕ × Nic)
send packet n = do
  d ← deref (get_elem? n.send_buffer_descr n.current_tx_buffer)
  if card_owns d
      then ok (minus 1, record n { tx_dropped = add32 n.tx_dropped 1 })
      else if ltb buffer_size (length packet)
      then ok (minus 1, n)
      else (let n' = outw 0x48 data_port (
            outw 0 add_port (record n {
              send_buffer_descr = set n.send_buffer_descr n.current_tx_buffer (fill packet d);
            })) in
          ok (0, record n' { current_tx_buffer = next_tx n.current_tx_buffer }))

abbrev pub source : Nic → Option Mac → Mac
source n none = n.dev_addr
source n (some saddr) = saddr

unfoldable pub header_ops_create : Nic → ℕ → Mac → Option Mac → Option (List ℕ)
header_ops_create n type daddr saddr = some (daddr ++ (source n saddr ++ bytes16 (htons type) []))

unfoldable pub am79c793 : NetDevice Nic
am79c793 = record {
  dev_addr = λ n. n.dev_addr;
  ip = λ n. n.ip;
  header_ops_create = some header_ops_create;
  send = send;
}

-- Whether the bits of `mask`, a power of two, are set in what was read.
abbrev pub has_bit : ℕ → ℕ → Bool
has_bit temp mask = temp / mask % 2 == 1

abbrev pub count_errors : ℕ → Nic → Nic
count_errors temp n = record n {
  tx_dropped = if has_bit temp 0x4000 then add32 n.tx_dropped 1 else n.tx_dropped;
  rx_dropped = if has_bit temp 0x1000 then add32 n.rx_dropped 1 else n.rx_dropped;
}

-- `inw` is what the card answers at a port after some writes.
unfoldable pub am79c_interrupt_handle : (List (ℕ × ℕ) → ℕ → ℕ) → ℕ → Nic → Run Nic
am79c_interrupt_handle inw fuel n = do
  let n₁ = outw 0 add_port n
  let temp = inw n₁.writes (n.io_base + data_port)
  let n₂ = count_errors temp n₁
  n₃ ← elim (has_bit temp 0x0400) [ true ↦ receive fuel n₂ | false ↦ ok n₂ ]
  ok (outw temp data_port (outw 0 add_port n₃))
