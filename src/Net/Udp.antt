-- ===== src/Net/Udp.antt =====
-- net/udp.c: a datagram and its checksum over the false header. What is printed is left out.
use jnix.Prelude.{
  ℕ, ◌*◌, ◌%◌, not, List, ◌∷◌, ◌==◌, if◌then◌else◌, add32, sub32, minus, Run, ok, ◌>>=◌,
}
use jnix.Net.Bytes.{u16_mod, htons, ntohs, htonl, ntohl}
use jnix.Net.Packet.{bytes16, bytes32, read8, read16, read32, first_bytes, skip}
use jnix.Net.Device.{NetDevice, Network}
use jnix.Net.Ip.{checksum_int}
use jnix.Net.Ip.Send.{ip_send}

abbrev pub ip_p_udp : ℕ
ip_p_udp = 0x11

-- `struct udphdr` and the data
abbrev pub udp_bytes : ℕ → ℕ → ℕ → ℕ → List ℕ → List ℕ
udp_bytes source dest len check bytes =
    bytes16 source (bytes16 dest (bytes16 len (bytes16 check bytes)))

-- `struct udpfakehdr`, in cleared memory, and what follows it
abbrev pub fake_bytes : ℕ → ℕ → ℕ → List ℕ → List ℕ
fake_bytes src_ip dest_ip len datagram =
    bytes32 src_ip (bytes32 dest_ip (0 ∷ ip_p_udp ∷ bytes16 len datagram))

module _ {D : Type 0} (dev : NetDevice D) where
  -- What `ip_send` returns is not used.
  unfoldable pub udp_send : ℕ → ℕ → ℕ → List ℕ → ℕ → Network D → Run (Network D)
  udp_send dest_ip dest_port src_port bytes data_size n = do
    body ← first_bytes data_size bytes
    let size = add32 data_size 20
    let len = htons (sub32 size 12 % u16_mod)
    let source = htons (src_port % u16_mod)
    let dest = htons (dest_port % u16_mod)
    checksum ←
        checksum_int
          (fake_bytes (htonl (dev.ip n.device)) (htonl dest_ip) len
            (udp_bytes source dest len 0 body))
          size
    (ret, n') ←
        ip_send dev ip_p_udp 1 dest_ip (dev.ip n.device)
          (udp_bytes source dest len (htons checksum) body) (sub32 size 12 % u16_mod) n
    ok n'

  -- `packet` starts with the IP header. A datagram is sent back to where it came from.
  unfoldable pub udp_rcv : List ℕ → ℕ → Network D → Run (ℕ × Network D)
  udp_rcv packet size n = do
    first ← read8 packet 0
    let udp = skip (first % 16 * 4) packet
    datagram ← first_bytes size udp
    daddr ← read32 packet 16
    saddr ← read32 packet 12
    checksum ←
        checksum_int (fake_bytes saddr daddr (ntohs (size % u16_mod)) datagram) (add32 size 12)
    if not (checksum == 0) then ok (minus 1, n) else (do
      source ← read16 udp 0
      dest ← read16 udp 2
      n' ← udp_send (ntohl saddr) (ntohs source) (ntohs dest) (skip 8 udp) (sub32 size 8) n
      ok (minus 1, n'))
