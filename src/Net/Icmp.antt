-- ===== src/Net/Icmp.antt =====
-- net/icmp.c: the messages that are sent, and the answer to a received one. The checksum is computed
-- over cleared memory; what is only printed is left out.
use jnix.Prelude.{
  ℕ, ◌*◌, ◌%◌, not, List, [], ◌∷◌, ◌==◌, if◌then◌else◌, replicate, add32, sub32, minus, Run, ok,
  ◌>>=◌,
}
use jnix.Net.Bytes.{u16_mod, htons, ntohs, htonl, ntohl}
use jnix.Net.Packet.{bytes16, bytes32, read8, read16, read32, first_bytes, skip}
use jnix.Net.Device.{NetDevice, Network}
use jnix.Net.Ip.{ip_hdr_checksum, checksum_int}
use jnix.Net.Ip.Send.{ip_send}

abbrev pub ip_p_icmp : ℕ
ip_p_icmp = 1

abbrev pub icmp_echo_type : ℕ
icmp_echo_type = 8

-- `struct icmphdr` and what follows it
abbrev pub icmp_bytes : ℕ → ℕ → ℕ → ℕ → ℕ → List ℕ → List ℕ
icmp_bytes type code checksum id sequence body =
    type ∷ code ∷ bytes16 checksum (bytes16 id (bytes16 sequence body))

module _ {D : Type 0} (dev : NetDevice D) where
  -- What the senders have in common, from the checksum on; what `ip_send` returns is not used.
  unfoldable pub send_icmp : ℕ → ℕ → ℕ → ℕ → List ℕ → ℕ → ℕ → ℕ → Network D → Run (Network D)
  send_icmp type code id sequence body size ip_id dest_ip n = do
    checksum ← ip_hdr_checksum (icmp_bytes type code 0 id sequence body) size
    (ret, n') ←
        ip_send dev ip_p_icmp ip_id dest_ip (dev.ip n.device)
          (icmp_bytes type code (htons checksum) id sequence body) (size % u16_mod) n
    ok n'

  unfoldable pub icmp_echo : ℕ → ℕ → ℕ → Network D → Run (Network D)
  icmp_echo id sequence dest_ip n =
      send_icmp icmp_echo_type 0 (htons id) (htons sequence) [] 8 sequence dest_ip n

  unfoldable pub icmp_echoreply : ℕ → ℕ → ℕ → List ℕ → ℕ → Network D → Run (Network D)
  icmp_echoreply id sequence dest_ip bytes data_size n = do
    body ← first_bytes data_size bytes
    send_icmp 0 0 (htons id) (htons sequence) body (add32 8 data_size) sequence dest_ip n

  unfoldable pub icmp_address : ℕ → ℕ → ℕ → Network D → Run (Network D)
  icmp_address id sequence dest_ip n =
      send_icmp 17 0 (htons id) (htons sequence) (bytes32 0 []) 12 sequence dest_ip n

  unfoldable pub icmp_timestamp : ℕ → ℕ → ℕ → ℕ → Network D → Run (Network D)
  icmp_timestamp id sequence dest_ip origin n =
      send_icmp 13 0 (htons id) (htons sequence) (bytes32 (htonl origin) (replicate 8 0)) 20
        sequence dest_ip n

  unfoldable pub icmp_hostano : ℕ → Network D → Run (Network D)
  icmp_hostano dest_ip n = send_icmp 10 0 0 0 [] 8 1 dest_ip n

  -- `packet` starts with the IP header.
  unfoldable pub icmp_rcv : List ℕ → ℕ → Network D → Run (ℕ × Network D)
  icmp_rcv packet size n = do
    first ← read8 packet 0
    let icmp = skip (first % 16 * 4) packet
    checksum ← checksum_int icmp size
    if not (checksum == 0) then ok (minus 1, n) else (do
      type ← read8 icmp 0
      id ← read16 icmp 4
      sequence ← read16 icmp 6
      saddr ← read32 packet 12
      let reply =
          icmp_echoreply (ntohs id) (ntohs sequence) (ntohl saddr) (skip 8 icmp) (sub32 size 8) n
      if type == icmp_echo_type then (do n' ← reply; ok (minus 1, n')) else ok (minus 1, n))
