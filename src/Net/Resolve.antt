-- ===== src/Net/Resolve.antt =====
-- The packets of net/arp.c: `arp_send`, `arp_rcv` and `arp_find`. Allocating a packet succeeds; the
-- values that `arp_rcv` returns are not used by its caller.
pub mod Exchange
mod Tests
use jnix.Prelude.{
  ℕ, ◌+◌, not, ◌&&◌, Bool, Option, none, some, List, [], ◌∷◌, ◌++◌, ◌==◌, if◌then◌else◌, replicate,
  Run, ok, ◌>>=◌,
}
use jnix.Net.Bytes.{htons, htonl}
use jnix.Net.Packet.{bytes16, bytes32, read16, read32, first_bytes, skip}
use jnix.Net.Arp.{Mac, HashMap, zero_mac, hash_put, hash_get}
use jnix.Net.Device.{NetDevice, Network, dev_hard_header, send_frame}

abbrev pub eth_p_ip : ℕ
eth_p_ip = 0x0800

abbrev pub eth_p_arp : ℕ
eth_p_arp = 0x0806

abbrev pub arphrd_ether : ℕ
arphrd_ether = 1

abbrev pub arpop_request : ℕ
arpop_request = 1

abbrev pub arpop_reply : ℕ
arpop_reply = 2

abbrev pub broadcast : Mac
broadcast = replicate 6 0xFF

-- `struct arphdr`; the two addresses of four bytes are the words that they are copied from.
pub record ArpHdr : Type 0 where
  pub ar_hrd : ℕ
  pub ar_pro : ℕ
  pub ar_hln : ℕ
  pub ar_pln : ℕ
  pub ar_op : ℕ
  pub ar_sha : Mac
  pub ar_sip : ℕ
  pub ar_tha : Mac
  pub ar_tip : ℕ

abbrev pub arp_bytes : ArpHdr → List ℕ
arp_bytes arp = bytes16 arp.ar_hrd (
    bytes16 arp.ar_pro (
      arp.ar_hln
      ∷ arp.ar_pln
      ∷ bytes16 arp.ar_op (arp.ar_sha ++ bytes32 arp.ar_sip (arp.ar_tha ++ bytes32 arp.ar_tip []))))

abbrev pub or_else : Option Mac → Mac → Mac
or_else none b = b
or_else (some a) b = a

-- The header that `arp_send` fills in.
abbrev pub make_arp : ℕ → ℕ → ℕ → Mac → Option Mac → ArpHdr
make_arp type dest_ip src_ip src_hw target_hw = record {
  ar_hrd = htons arphrd_ether;
  ar_pro = htons eth_p_ip;
  ar_hln = 6;
  ar_pln = 4;
  ar_op = htons type;
  ar_sha = src_hw;
  ar_sip = src_ip;
  ar_tha = or_else target_hw zero_mac;
  ar_tip = dest_ip;
}

module _ {D : Type 0} (dev : NetDevice D) where
  -- `arp_send` returns 0 on every path.
  unfoldable pub arp_send :
      ℕ → ℕ → ℕ → ℕ → Option Mac → Option Mac → Option Mac → Network D → Run (Network D)
  arp_send type ptype dest_ip src_ip dest_hw src_hw target_hw n =
      let src = or_else src_hw (dev.dev_addr n.device) in
      elim (dev_hard_header dev n.device ptype (or_else dest_hw broadcast) (some src)) [
        | none ↦ ok n
        | some eth ↦ do
          (ret, n') ←
              send_frame dev (eth ++ arp_bytes (make_arp type dest_ip src_ip src target_hw)) n
          ok n'
      ]

  -- A request for our address is answered.
  unfoldable pub answer : List ℕ → ℕ → Network D → Run (Network D)
  answer packet sip n = do
    tip ← read32 packet 38
    sha ← first_bytes 6 (skip 22 packet)
    if tip == htonl (dev.ip n.device)
        then arp_send arpop_reply eth_p_arp sip (htonl (dev.ip n.device)) (some sha)
            (some (dev.dev_addr n.device)) (some sha) n
        else ok n

  -- A reply goes into the map.
  unfoldable pub learn : List ℕ → ℕ → Network D → Run (Network D)
  learn packet sip n = do
    sha ← first_bytes 6 (skip 22 packet)
    map ← hash_put n.arp_map sip sha
    ok (record n { arp_map = map })

  unfoldable pub arp_rcv : List ℕ → Network D → Run (Network D)
  arp_rcv packet n = do
    ar_hrd ← read16 packet 14
    ar_op ← read16 packet 20
    if not (ar_hrd == htons arphrd_ether)
        then ok n
        else if not (ar_op == htons arpop_reply) && not (ar_op == htons arpop_request)
        then ok n
        else (do
          sip ← read32 packet 28
          if ar_op == htons arpop_request then answer packet sip n else learn packet sip n)

  -- What follows the first `return` is never reached.
  unfoldable pub arp_find : ℕ → Network D → Run (Option Mac)
  arp_find ip n = hash_get n.arp_map (htonl ip)
