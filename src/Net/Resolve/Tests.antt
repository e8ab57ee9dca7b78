-- ===== src/Net/Resolve/Tests.antt =====
-- Two machines with the card of drivers/i386/am79c793.c.
use jnix.Prelude.{
  ℕ, ◌<◌, ◌≡◌, ◌≢◌, refl, subst, none, some, List, [], ◌∷◌, arith, length, ok, ◌>>=◌, replicate,
  u32_mod, false,
}
use mathlib.Core.Option.{some-injective}
use jnix.Drivers.Nic.{Nic, am79c793}
use jnix.Drivers.Nic.Sending.{am79c793-LawfulDevice}
use jnix.Drivers.Nic.Start.{new_send, new_recv}
use jnix.Net.Bytes.{htonl}
use jnix.Net.Arp.{Bucket, empty_bucket, arp_init, has_ip}
use jnix.Net.Arp.Chains.{entries}
use jnix.Net.Arp.Lookup.{bucket_of, displaced}
use jnix.Net.Arp.Start.{arp_init_lem}
use jnix.Net.Device.{Network, send_frame}
use jnix.Net.Resolve.{eth_p_arp, arpop_request, arp_send, arp_rcv, arp_find}
use jnix.Net.Resolve.Exchange.{exchange_lem}

abbrev card : ℕ → ℕ → Nic
card ip last = record {
  dev_addr = 2 ∷ 0 ∷ 0 ∷ 0 ∷ 0 ∷ last ∷ [];
  ip = ip;
  irq = 11;
  io_base = 0xC000;
  rx_dropped = 0;
  tx_dropped = 0;
  init_block = record {
    mode = 0;
    rlen = 0x50;
    tlen = 0x40;
    mac = 2 ∷ 0 ∷ 0 ∷ 0 ∷ 0 ∷ last ∷ [];
    reserved3 = 0;
    ladr_low = 0;
    ladr_hight = 0;
    recv_buffer_descr_address = 0;
    send_buffer_descr_address = 0;
  };
  send_buffer_descr = replicate 16 new_send;
  recv_buffer_descr = replicate 32 new_recv;
  current_rx_buffer = 0;
  current_tx_buffer = 0;
  writes = [];
  received = [];
}

abbrev asker : Network Nic
asker = record { device = card 0x0A000001 1; arp_map = arp_init }

abbrev asked : Network Nic
asked = record { device = card 0x0A000002 2; arp_map = arp_init }

asker_six : length (am79c793.dev_addr asker.device) ≡ 6
unfolding am79c793
asker_six = refl

asked_six : length (am79c793.dev_addr asked.device) ≡ 6
unfolding am79c793
asked_six = refl

asker_small : am79c793.ip asker.device < u32_mod
unfolding am79c793
asker_small = omega arith

asked_small : am79c793.ip asked.device < u32_mod
unfolding am79c793
asked_small = omega arith

asked_nonzero : htonl (am79c793.ip asked.device) ≢ 0
unfolding am79c793 htonl
asked_nonzero = omega arith

not_displaced :
    (b : Bucket)
    → bucket_of asker.arp_map (htonl (am79c793.ip asked.device)) ≡ some b
    → displaced (htonl (am79c793.ip asked.device)) b ≡ false
unfolding am79c793 htonl arp_init has_ip entries
not_displaced b at =
    subst (λ (c : Bucket). displaced (htonl 0x0A000002) c ≡ false)
      (some-injective empty_bucket b at) refl

exchange_lem_example :
    (request : List ℕ) × (reply : List ℕ) × (after : Network Nic) × (arp_send am79c793 arpop_request
        eth_p_arp
        (htonl (am79c793.ip asked.device))
        (htonl (am79c793.ip asker.device))
        none
        none
        none
        asker
      ≡ (send_frame am79c793 request asker >>= λ r. ok r.1))
    × (arp_rcv am79c793 request asked ≡ (send_frame am79c793 reply asked >>= λ r. ok r.1))
    × (arp_rcv am79c793 reply asker ≡ ok after)
    × (arp_find am79c793 (am79c793.ip asked.device) after
        ≡ ok (some (am79c793.dev_addr asked.device)))
exchange_lem_example =
    exchange_lem am79c793 am79c793 am79c793-LawfulDevice am79c793-LawfulDevice asker asked asker_six
      asked_six asker_small asked_small asker (arp_init_lem.0) asked_nonzero not_displaced
