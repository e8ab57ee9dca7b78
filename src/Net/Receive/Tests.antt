-- ===== src/Net/Receive/Tests.antt =====
-- Two machines with the card of drivers/i386/am79c793.c, the first of which knows the second.
use jnix.Prelude.{
  ℕ, ◌<◌, ◌≡◌, ◌≢◌, refl, some, List, [], ◌∷◌, arith, length, ok, ◌>>=◌, replicate, u32_mod,
}
use jnix.Drivers.Nic.{Nic, am79c793}
use jnix.Drivers.Nic.Sending.{am79c793-LawfulDevice}
use jnix.Drivers.Nic.Start.{new_send, new_recv}
use jnix.Net.Bytes.{htonl}
use jnix.Net.Arp.{Mac, hash_get, walk}
use jnix.Net.Device.{Network, send_frame}
use jnix.Net.Resolve.{arp_find}
use jnix.Net.Ip.Send.{dest_hw}
use jnix.Net.Icmp.{icmp_echo}
use jnix.Net.Udp.{udp_send}
use jnix.Net.Receive.{reveice_callback}
use jnix.Net.Receive.Datagrams.{SendsDatagram, udp_echo_lem}
use jnix.Net.Receive.Echo.{SendsReply, icmp_echo_lem}

abbrev peer_addr : Mac
peer_addr = 2 ∷ 0 ∷ 0 ∷ 0 ∷ 0 ∷ 2 ∷ []

abbrev machine : Network Nic
machine = record {
  device = record {
    dev_addr = 2 ∷ 0 ∷ 0 ∷ 0 ∷ 0 ∷ 1 ∷ [];
    ip = 0x0A000001;
    irq = 11;
    io_base = 0xC000;
    rx_dropped = 0;
    tx_dropped = 0;
    init_block = record {
      mode = 0;
      rlen = 0x50;
      tlen = 0x40;
      mac = 2 ∷ 0 ∷ 0 ∷ 0 ∷ 0 ∷ 1 ∷ [];
      reserved3 = 0;
      ladr_low = 0;
      ladr_hight = 0;
      recv_buffer_descr_address = 0;
      send_buffer_descr_address = 0;
    };
    send_buffer_descr = replicate 16 new_send;
    recv_buffer_descr = replicate 32 new_recv;
    current_rx_buffer = 0;
    current_tx_buffer = 0;
    writes = [];
    received = [];
  };
  arp_map = record {
    size = 1;
    list_size = 1;
    list = record { head = record { ip = 0x0200000A; mac = peer_addr }; next = [] } ∷ [];
  };
}

peer_known : dest_hw am79c793 0x0A000002 machine ≡ ok (some peer_addr)
unfolding dest_hw arp_find hash_get walk htonl
peer_known = refl

machine_six : length (am79c793.dev_addr machine.device) ≡ 6
unfolding am79c793
machine_six = refl

machine_small : am79c793.ip machine.device < u32_mod
unfolding am79c793
machine_small = omega arith

abbrev own_addr : Mac
own_addr = 2 ∷ 0 ∷ 0 ∷ 0 ∷ 0 ∷ 1 ∷ []

-- The other machine, which knows this one.
abbrev other : Network Nic
other = record {
  device = record machine.device { dev_addr = peer_addr; ip = 0x0A000002 };
  arp_map = record {
    size = 1;
    list_size = 1;
    list = record { head = record { ip = 0x0100000A; mac = own_addr }; next = [] } ∷ [];
  };
}

own_known : dest_hw am79c793 (am79c793.ip machine.device) other ≡ ok (some own_addr)
unfolding dest_hw arp_find hash_get walk htonl am79c793
own_known = refl

machine_nonzero : am79c793.ip machine.device ≢ 0
unfolding am79c793
machine_nonzero = omega arith

other_small : am79c793.ip other.device < u32_mod
unfolding am79c793
other_small = omega arith

udp_echo_lem_example :
    (frame : List ℕ) × (udp_send am79c793 0x0A000002 7 4000 (104 ∷ 105 ∷ 33 ∷ []) 3 machine
      ≡ (send_frame am79c793 frame machine >>= λ r. ok r.1))
    × SendsDatagram am79c793 other own_addr
        (am79c793.ip machine.device)
        4000
        7
        (104 ∷ 105 ∷ 33 ∷ [])
        (reveice_callback am79c793 frame other)
udp_echo_lem_example =
    udp_echo_lem am79c793 am79c793 am79c793-LawfulDevice am79c793-LawfulDevice machine other
      peer_addr own_addr 0x0A000002 7 4000 (104 ∷ 105 ∷ 33 ∷ []) peer_known own_known refl
      machine_six (omega arith) (omega arith) machine_small machine_nonzero other_small
      (omega arith) (omega arith) refl (omega arith)

icmp_echo_lem_example :
    (frame : List ℕ) × (icmp_echo am79c793 5 1 0x0A000002 machine
      ≡ (send_frame am79c793 frame machine >>= λ r. ok r.1))
    × SendsReply am79c793 other own_addr
        (am79c793.ip machine.device)
        5
        1
        (reveice_callback am79c793 frame other)
icmp_echo_lem_example =
    icmp_echo_lem am79c793 am79c793 am79c793-LawfulDevice am79c793-LawfulDevice machine other
      peer_addr own_addr 0x0A000002 5 1 peer_known own_known refl machine_six (omega arith)
      (omega arith) machine_small machine_nonzero other_small (omega arith) (omega arith)
