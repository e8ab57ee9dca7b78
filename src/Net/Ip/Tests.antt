-- ===== src/Net/Ip/Tests.antt =====
-- A payload of two fragments for the card of drivers/i386/am79c793.c, and addresses in text.
use jnix.Prelude.{
  ◌+◌, ◌%◌, ◌<◌, zero, suc, false, length, get_elem?, ◌*◌, ◌^◌, ℕ, ◌-◌, ◌≡◌, inr, refl, some, List,
  [], ◌∷◌, ◌++◌, arith, replicate, ok,
}
use jnix.Net.Bytes.{htonl}
use jnix.Drivers.Nic.{BufferDescriptor, Nic, card_owns, am79c793}
use jnix.Drivers.Nic.Rings.{IsValid}
use jnix.Drivers.Nic.Start.{new_send, new_recv, replicate-AllSized}
use jnix.Drivers.Nic.Sending.{am79c793-LawfulDevice}
use jnix.Drivers.Nic.Bursts.{Free, am79c793-Serves}
use jnix.Net.Arp.{Mac, hash_get, walk}
use jnix.Net.Device.{Network, Sends}
use jnix.Net.Resolve.{arp_find}
use jnix.Net.Ip.Send.{dest_hw, ip_send}
use jnix.Net.Ip.Address.{
  next_val, collect, base_of, number_at, behind, read_parts, trailing, inet_aton,
}
use jnix.Net.Ip.Address.Dotted.{Decimal, zero_digit, digits, inet_aton-dotted}
use jnix.Net.Ip.Chunks.{take, fragment_count}
use jnix.Net.Ip.Fragments.{payloads, ip_send-fragments}

abbrev peer_addr : Mac
peer_addr = 2 ∷ 0 ∷ 0 ∷ 0 ∷ 0 ∷ 2 ∷ []

-- The machine knows 10.0.0.2, and its card has sent all but the last packet before the ring's end.
abbrev machine : Network Nic
machine = record {
  device = record {
    dev_addr = 2 ∷ 0 ∷ 0 ∷ 0 ∷ 0 ∷ 1 ∷ [];
    ip = 0x0A000001;
    irq = 11;
    io_base = 0xC000;
    rx_dropped = 0;
    tx_dropped = 0;
    init_block = record {
      mode = 0;
      rlen = 0x50;
      tlen = 0x40;
      mac = 2 ∷ 0 ∷ 0 ∷ 0 ∷ 0 ∷ 1 ∷ [];
      reserved3 = 0;
      ladr_low = 0;
      ladr_hight = 0;
      recv_buffer_descr_address = 0;
      send_buffer_descr_address = 0;
    };
    send_buffer_descr = replicate 16 new_send;
    recv_buffer_descr = replicate 32 new_recv;
    current_rx_buffer = 0;
    current_tx_buffer = 15;
    writes = [];
    received = [];
  };
  arp_map = record {
    size = 1;
    list_size = 1;
    list = record { head = record { ip = 0x0200000A; mac = peer_addr }; next = [] } ∷ [];
  };
}

peer_known : dest_hw am79c793 0x0A000002 machine ≡ ok (some peer_addr)
unfolding dest_hw arp_find hash_get walk htonl
peer_known = refl

machine_six : length (am79c793.dev_addr machine.device) ≡ 6
unfolding am79c793
machine_six = refl

machine-IsValid : IsValid machine.device
machine-IsValid = record {
  tx_count = refl;
  rx_count = refl;
  tx_at = omega arith;
  rx_at = omega arith;
  tx_sized = replicate-AllSized 16 new_send refl;
  rx_sized = replicate-AllSized 32 new_recv refl;
}

two_free :
    (i : ℕ)
    → i < 2
    → (d : BufferDescriptor) × (get_elem? machine.device.send_buffer_descr ((15 + i) % 16) ≡ some d)
      × (card_owns d ≡ false)
unfolding card_owns
two_free zero lt = (new_send, refl, refl)
two_free (suc zero) lt = (new_send, refl, refl)
two_free (suc (suc i)) lt = absurd (omega arith)

machine-Free : Free (fragment_count 1500) machine.device
machine-Free = record { valid = machine-IsValid; few = omega arith; free = two_free }

ip_send-fragments_example :
    (frames : List (List ℕ)) × (d : Nic) × Sends am79c793 machine.device frames d
    × (ip_send am79c793 17 1 0x0A000002 0x0A000001 (replicate 1500 7) 1500 machine
        ≡ ok (0, record machine { device = d }))
    × (length frames ≡ fragment_count 1500)
    × (payloads frames ≡ take (1500 - 20 * fragment_count 1500) (replicate 1500 7))
ip_send-fragments_example =
    ip_send-fragments am79c793 am79c793-LawfulDevice Free am79c793-Serves machine peer_addr 17 1
      0x0A000002 0x0A000001 (replicate 1500 7) machine-Free peer_known refl machine_six
      (omega arith) (omega arith) (omega arith) (omega arith) (omega arith) (omega arith)
      (inr (omega arith))

-- 10.0.2.15
ten : Decimal (b'1' ∷ b'0' ∷ []) 10
ten = digits refl refl refl

two : Decimal (b'2' ∷ []) 2
two = digits refl refl refl

fifteen : Decimal (b'1' ∷ b'5' ∷ []) 15
fifteen = digits refl refl refl

inet_aton-dotted_example :
    inet_aton (
      (b'1' ∷ b'0' ∷ [])
      ++ (b'.'
          ∷ ((b'0' ∷ []) ++ (b'.' ∷ ((b'2' ∷ []) ++ (b'.' ∷ ((b'1' ∷ b'5' ∷ []) ++ (0 ∷ []))))))))
    ≡ ok (15 + (10 * 2 ^ 24 + 0 * 2 ^ 16 + 2 * 2 ^ 8))
inet_aton-dotted_example =
    inet_aton-dotted (b'1' ∷ b'0' ∷ []) (b'0' ∷ []) (b'2' ∷ []) (b'1' ∷ b'5' ∷ []) [] 10 0 2 15 ten
      zero_digit two fifteen (omega arith) (omega arith) (omega arith) (omega arith)

-- A hexadecimal digit in lower case ends the number.
lower_hex : inet_aton (b'0' ∷ b'x' ∷ b'f' ∷ 0 ∷ []) ≡ ok 0
unfolding inet_aton read_parts number_at base_of collect next_val behind trailing
lower_hex = refl
