-- ===== src/Net/Receive.antt =====
-- From the queue to the protocols: `ip_rcv` of net/ip.c and `reveice_callback` of net/netdevice.c.
pub mod Delivery
pub mod Datagrams
pub mod Echo
mod Tests
use jnix.Prelude.{ℕ, ◌+◌, ◌*◌, ◌%◌, not, List, ◌==◌, if◌then◌else◌, sub32, minus, Run, ok, ◌>>=◌}
use jnix.Net.Bytes.{ntohs}
use jnix.Net.Packet.{read8, read16, skip}
use jnix.Net.Device.{NetDevice, Network}
use jnix.Net.Resolve.{eth_p_ip, eth_p_arp, arp_rcv}
use jnix.Net.Ip.{ip_hdr_checksum}
use jnix.Net.Icmp.{ip_p_icmp, icmp_rcv}
use jnix.Net.Udp.{ip_p_udp, udp_rcv}

module _ {D : Type 0} (dev : NetDevice D) where
  -- What follows the test; `ip` starts with the IP header.
  unfoldable pub dispatch : List ℕ → Network D → Run (ℕ × Network D)
  dispatch ip n = do
    protocol ← read8 ip 9
    tot_len ← read16 ip 2
    first ← read8 ip 0
    let size = sub32 (ntohs tot_len) (first % 16 * 4)
    if protocol == ip_p_icmp
        then icmp_rcv dev ip size n
        else if protocol == ip_p_udp
        then udp_rcv dev ip size n
        else ok (minus 1, n)

  unfoldable pub ip_rcv : List ℕ → Network D → Run (ℕ × Network D)
  ip_rcv packet n = do
    checksum ← ip_hdr_checksum (skip 14 packet) 20
    if not (checksum == 0) then ok (minus 1, n) else dispatch (skip 14 packet) n

  -- What it returns is not used.
  unfoldable pub reveice_callback : List ℕ → Network D → Run (Network D)
  reveice_callback packet n = do
    h_proto ← read16 packet 12
    if ntohs h_proto == eth_p_arp
        then arp_rcv dev packet n
        else if ntohs h_proto == eth_p_ip
        then (do (ret, n') ← ip_rcv packet n; ok n')
        else ok n
