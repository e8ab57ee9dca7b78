-- ===== src/Net/Ip/Send.antt =====
-- `ip_send` of net/ip.c, whole. Allocating a packet succeeds; what is printed is left out.
use jnix.Prelude.{
  ℕ, zero, suc, ◌+◌, ◌-◌, ◌*◌, ◌/◌, Option, none, some, List, ◌++◌, ltb, ◌==◌, if◌then◌else◌, sub32,
  minus, is_negative, Run, ok, stuck, ◌>>=◌,
}
use jnix.Net.Bytes.{htons}
use jnix.Net.Packet.{first_bytes, skip}
use jnix.Net.Arp.{Mac}
use jnix.Net.Device.{NetDevice, Network, dev_hard_header, send_frame}
use jnix.Net.Resolve.{eth_p_ip, broadcast, arp_find}
use jnix.Net.Ip.{IpHdr, hdr_bytes, make_header, seal}

-- `1500 - sizeof(struct iphdr)`
abbrev pub mtu : ℕ
mtu = 1480

-- `current_size`: no more than `mtu`, and a multiple of 8 where more is to follow.
unfoldable pub chunk : ℕ → ℕ
chunk size = if ltb mtu size then mtu / 8 * 8 else size

-- The header of a fragment; the two parts of `frag_off` have no bit in common.
unfoldable pub fragment_header : ℕ → ℕ → ℕ → ℕ → ℕ → ℕ → IpHdr
fragment_header type id dest_ip src_ip size frag_off =
    record (make_header type id dest_ip src_ip 0) {
      tot_len = htons (chunk size);
      frag_off = htons ((if ltb mtu size then 0x2000 else 0) + frag_off);
    }

module _ {D : Type 0} (dev : NetDevice D) where
  -- The hardware address to send to: everyone's where no address is given.
  unfoldable pub dest_hw : ℕ → Network D → Run (Option Mac)
  dest_hw dest_ip n = if dest_ip == 0 then ok (some broadcast) else arp_find dev dest_ip n

  abbrev pub dest_or_all : ℕ → ℕ
  dest_or_all dest_ip = if dest_ip == 0 then 0xFFFFFFFF else dest_ip

  -- One turn of the loop of `ip_send`: what `send` returns.
  unfoldable pub send_fragment :
      ℕ → ℕ → ℕ → ℕ → Mac → ℕ → List ℕ → ℕ → Network D → Run (ℕ × Network D)
  send_fragment type id dest_ip src_ip hw size data_p frag_off n =
      elim (dev_hard_header dev n.device eth_p_ip hw (some (dev.dev_addr n.device))) [
        | none ↦ ok (minus 1, n)
        | some eth ↦ do
          bytes ← first_bytes (sub32 (chunk size) 20) data_p
          ip ← seal (fragment_header type id dest_ip src_ip size frag_off)
          send_frame dev (eth ++ (hdr_bytes ip ++ bytes)) n
      ]

  -- `while (size > 0)`, on fuel
  unfoldable pub send_fragments :
      ℕ → ℕ → ℕ → ℕ → ℕ → Mac → ℕ → List ℕ → ℕ → Network D → Run (ℕ × Network D)
  send_fragments type id dest_ip src_ip zero hw size data_p frag_off n = stuck
  send_fragments type id dest_ip src_ip (suc fuel) hw zero data_p frag_off n = ok (0, n)
  send_fragments type id dest_ip src_ip (suc fuel) hw (suc size) data_p frag_off n = do
    (ret, n') ← send_fragment type id dest_ip src_ip hw (suc size) data_p frag_off n
    let rest =
        send_fragments type id dest_ip src_ip fuel hw (suc size - chunk (suc size))
          (skip (chunk (suc size) - 20) data_p) (frag_off + chunk (suc size) / 8) n'
    if is_negative ret then ok (ret, n') else rest

  -- The branch without fragments; the second checksum there is not used.
  unfoldable pub send_whole : ℕ → ℕ → ℕ → ℕ → Mac → List ℕ → ℕ → Network D → Run (ℕ × Network D)
  send_whole type id dest_ip src_ip hw payload size n =
      elim (dev_hard_header dev n.device eth_p_ip hw (some (dev.dev_addr n.device))) [
        | none ↦ ok (minus 1, n)
        | some eth ↦ do
          bytes ← first_bytes size payload
          ip ← seal (make_header type id dest_ip src_ip size)
          send_frame dev (eth ++ (hdr_bytes ip ++ bytes)) n
      ]

  -- `size` is an unsigned short, so the first test never holds.
  unfoldable pub ip_send : ℕ → ℕ → ℕ → ℕ → List ℕ → ℕ → Network D → Run (ℕ × Network D)
  ip_send type id dest_ip src_ip payload size n = if ltb 65535 size then ok (minus 1, n) else (do
    found ← dest_hw dest_ip n
    elim found [
      | none ↦ ok (minus 1, n)
      | some hw ↦
          if ltb mtu size
          then send_fragments type id (dest_or_all dest_ip) src_ip (suc size) hw size payload 0 n
          else send_whole type id (dest_or_all dest_ip) src_ip hw payload size n
    ])
