-- ===== src/Net/Receive/Delivery.antt =====
-- A packet from `ip_send` on one machine to the protocols on another.
use jnix.Prelude.{
  ℕ, ◌+◌, ◌%◌, ◌≤◌, ◌<◌, ◌≡◌, ◌≢◌, refl, ap, ◌∙◌, false, Option, none, some, List, [], ◌∷◌, ◌++◌,
  arith, length, ltb, ◌==◌, if◌then◌else◌, sub32, minus, Run, ok, panicked, fault, stuck, ◌>>=◌,
  u32_mod,
}
use jnix.Net.Bytes.{u16_mod, htons, ntohs, ntohs-htons, htonl, htonl-small}
use jnix.Net.Packet
use jnix.Net.Packet.{
  bytes16, read8, read16, read32, first_bytes, first_bytes_all, Six, six, bytes16-value,
  bytes32-value,
}
use jnix.Net.Arp.{Mac}
use jnix.Net.Device.{NetDevice, LawfulDevice, Network, dev_hard_header_lem, send_frame}
use jnix.Net.Resolve.{eth_p_ip}
use jnix.Net.Ip.{
  IpHdr, hdr_bytes, sum_words, fold, complement16, ip_hdr_checksum, make_header, seal,
}
use jnix.Net.Ip.Headers.{with_check, seal-checked, make_header-InRange}
use jnix.Net.Ip.Send.{mtu, dest_hw, dest_or_all, send_whole, ip_send}
use jnix.Net.Icmp.{ip_p_icmp, icmp_rcv}
use jnix.Net.Udp.{ip_p_udp, udp_rcv}
use jnix.Net.Receive.{dispatch, ip_rcv, reveice_callback}

-- The frame of a packet.
abbrev pub ip_frame : Mac → Mac → List ℕ → List ℕ
ip_frame dest src packet = (dest ++ (src ++ bytes16 (htons eth_p_ip) [])) ++ packet

-- A packet with a header that passes the test, as the receiver reads it.
pub record Carries (packet : List ℕ) (type dest_ip src_ip : ℕ) (payload : List ℕ) : Type 0 where
  pub zero_sum : ip_hdr_checksum packet 20 ≡ ok 0
  pub first : read8 packet 0 ≡ ok 0x45
  pub tot_len : read16 packet 2 ≡ ok (htons (20 + length payload))
  pub protocol : read8 packet 9 ≡ ok type
  pub saddr : read32 packet 12 ≡ ok (htonl src_ip)
  pub daddr : read32 packet 16 ≡ ok (htonl dest_ip)
  pub body : Packet.skip 20 packet ≡ payload

sum_words-prefix :
    (xs ys : List ℕ) (cksum : ℕ)
    → sum_words (length xs) (xs ++ ys) cksum ≡ sum_words (length xs) xs cksum
unfolding sum_words
sum_words-prefix [] ys cksum = refl
sum_words-prefix (a ∷ []) ys cksum = refl
sum_words-prefix (a ∷ b ∷ xs) ys cksum = sum_words-prefix xs ys _

make_packet :
    (type id dest_ip src_ip : ℕ) (payload : List ℕ) (c : ℕ)
    → type < 256
    → dest_ip < u32_mod
    → src_ip < u32_mod
    → length payload ≤ 1480
    → ip_hdr_checksum
        (hdr_bytes (with_check (make_header type id dest_ip src_ip (length payload)) c))
        20
      ≡ ok 0
    → Carries
        (hdr_bytes (with_check (make_header type id dest_ip src_ip (length payload)) c) ++ payload)
        type
        dest_ip
        src_ip
        payload
unfolding hdr_bytes make_header read8 read16 read32 ip_hdr_checksum
make_packet type id dest_ip src_ip payload c lt ld ls le zero_sum = record {
  zero_sum =
      ap (λ s. s >>= λ cksum. ok (complement16 (fold cksum)))
        (sum_words-prefix
          (hdr_bytes (with_check (make_header type id dest_ip src_ip (length payload)) c)) payload
          0)
      ∙ zero_sum;
  first = refl;
  tot_len =
      ap ok (bytes16-value (htons ((20 + length payload) % u16_mod)) ∙ ap htons (omega arith));
  protocol = ap ok (omega arith);
  saddr = ap ok (bytes32-value (htonl src_ip) (htonl-small src_ip ls));
  daddr = ap ok (bytes32-value (htonl dest_ip) (htonl-small dest_ip ld));
  body = refl;
}

make_header-clear :
    (type id dest_ip src_ip size : ℕ) → (make_header type id dest_ip src_ip size).check ≡ 0
unfolding make_header
make_header-clear type id dest_ip src_ip size = refl

module _ {D : Type 0} (dev : NetDevice D) (lawful : LawfulDevice dev) where
  send_whole_lem :
      (type id dest_ip src_ip : ℕ) (payload : List ℕ) (n : Network D) (hw : Mac) (ip : IpHdr)
      → seal (make_header type id dest_ip src_ip (length payload)) ≡ ok ip
      → send_whole dev type id dest_ip src_ip hw payload (length payload) n
        ≡ send_frame dev (ip_frame hw (dev.dev_addr n.device) (hdr_bytes ip ++ payload)) n
  unfolding send_whole
  send_whole_lem type id dest_ip src_ip payload n hw ip sealed =
      ap sent (dev_hard_header_lem dev lawful n.device eth_p_ip hw (dev.dev_addr n.device))
      ∙ rw (first_bytes_all payload) (rw sealed refl)
    where
      sent : Option (List ℕ) → Run (ℕ × Network D)
      sent header = elim header [
        | none ↦ ok (minus 1, n)
        | some eth ↦ first_bytes (length payload) payload >>= λ bytes.
            seal (make_header type id dest_ip src_ip (length payload)) >>= λ ip.
            send_frame dev (eth ++ (hdr_bytes ip ++ bytes)) n
      ]

  -- With a lawful device a payload that needs no fragments goes out in one frame, whose packet
  -- carries it.
  pub ip_send-Carries :
      (type id dest_ip src_ip : ℕ) (payload : List ℕ) (n : Network D) (hw : Mac)
      → type < 256
      → id < u16_mod
      → dest_ip < u32_mod
      → dest_ip ≢ 0
      → src_ip < u32_mod
      → length payload ≤ 1480
      → dest_hw dev dest_ip n ≡ ok (some hw)
      → (packet : List ℕ) × Carries packet type dest_ip src_ip payload
        × (ip_send dev type id dest_ip src_ip payload (length payload) n
            ≡ send_frame dev (ip_frame hw (dev.dev_addr n.device) packet) n)
  unfolding ip_send send_whole
  ip_send-Carries type id dest_ip src_ip payload n hw lt li ld nz ls le found =
      let (c, small, sealed, zero_sum) =
        seal-checked (make_header type id dest_ip src_ip (length payload))
          (make_header-InRange type id dest_ip src_ip (length payload) li ld ls)
          (make_header-clear type id dest_ip src_ip (length payload)) in
      let no_overflow : ltb 65535 (length payload) ≡ false = ground arith in
      let one_piece : ltb mtu (length payload) ≡ false = ground arith in
      let given : dest_or_all dev dest_ip ≡ dest_ip = ground arith in
      let packet =
        hdr_bytes (with_check (make_header type id dest_ip src_ip (length payload)) (htons c))
        ++ payload in
      (
        packet,
        make_packet type id dest_ip src_ip payload (htons c) lt ld ls le zero_sum,
        rw no_overflow (
            rw found (
              rw one_piece
                (rw given (send_whole_lem type id dest_ip src_ip payload n hw _ sealed)))),
      )

module _ {D : Type 0} (dev : NetDevice D) where
  pub callback_lem :
      (dest src : Mac) (type dest_ip src_ip : ℕ) (packet payload : List ℕ) (n : Network D)
      → Six dest
      → Six src
      → Carries packet type dest_ip src_ip payload
      → reveice_callback dev (ip_frame dest src packet) n ≡ (dispatch dev packet n >>= λ r. ok r.1)
  unfolding reveice_callback ip_rcv read8 read16 htons ntohs
  callback_lem dest src type dest_ip src_ip packet payload n x y c =
      rw (x.same, y.same) (rw (c.zero_sum) refl)

  pub dispatch_lem :
      (type dest_ip src_ip : ℕ) (packet payload : List ℕ) (n : Network D)
      → Carries packet type dest_ip src_ip payload
      → length payload ≤ 1480
      → dispatch dev packet n ≡ (
          if type == ip_p_icmp
          then icmp_rcv dev packet (length payload) n
          else if type == ip_p_udp
          then udp_rcv dev packet (length payload) n
          else ok (minus 1, n))
  unfolding dispatch
  dispatch_lem type dest_ip src_ip packet payload n c le =
      let size : sub32 (ntohs (htons (20 + length payload))) 20 ≡ length payload =
        ap (λ k. sub32 k 20) (ntohs-htons (20 + length payload) (omega arith)) ∙ omega arith in
      rw (c.protocol) (rw (c.tot_len) (rw (c.first) (rw size refl)))

-- The callers drop what a protocol returns.
abbrev pub returns {ℓ} : {E : Type ℓ} → E → Run (ℕ × E)
returns n = ok (minus 1, n)

abbrev pub dropped {ℓ} : {E : Type ℓ} → ℕ × E → Run E
dropped r = ok r.1

pub answered {ℓ} : {E : Type ℓ} → (m : Run E) → (m >>= returns >>= dropped) ≡ m
answered (ok n) = refl
answered panicked = refl
answered fault = refl
answered stuck = refl
