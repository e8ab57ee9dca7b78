-- ===== src/Net/Ip/Headers.antt =====
-- The header of net/ip.c with its checksum, from the sender to the receiver.
use jnix.Prelude.{
  all_bytes, ℕ, ◌+◌, ◌<◌, ◌≡◌, refl, sym, ap, ◌∙◌, true, List, [], ◌∷◌, arith, ok, ◌>>=◌, u32_mod,
}
use jnix.Net.Bytes.{u16_mod, htons, htons-small, htonl-small}
use jnix.Net.Packet.{bytes16, bytes32}
use jnix.Net.Ip.{IpHdr, first_byte, hdr_bytes, ip_hdr_checksum, make_header, seal}
use jnix.Net.Ip.Checksum.{
  word_sum, all_bytes-byte, all_bytes-bytes16, all_bytes-bytes32, check_filled,
}

-- Each field of a header fits its width.
pub record InRange (ip : IpHdr) : Type 0 where
  pub ihl : ip.ihl < 16
  pub version : ip.version < 16
  pub tos : ip.tos < 256
  pub tot_len : ip.tot_len < u16_mod
  pub id : ip.id < u16_mod
  pub frag_off : ip.frag_off < u16_mod
  pub ttl : ip.ttl < 256
  pub protocol : ip.protocol < 256
  pub check : ip.check < u16_mod
  pub saddr : ip.saddr < u32_mod
  pub daddr : ip.daddr < u32_mod

first_byte-small : (ip : IpHdr) → ip.ihl < 16 → ip.version < 16 → first_byte ip < 256
first_byte-small ip l h = omega arith

all_bytes-hdr_bytes : (ip : IpHdr) → InRange ip → all_bytes (hdr_bytes ip) ≡ true
unfolding hdr_bytes
all_bytes-hdr_bytes ip r =
    let l₁ : List ℕ = bytes32 ip.daddr [] in
    let l₂ : List ℕ = bytes32 ip.saddr l₁ in
    let l₃ : List ℕ = bytes16 ip.check l₂ in
    let l₄ : List ℕ = ip.protocol ∷ l₃ in
    let l₅ : List ℕ = ip.ttl ∷ l₄ in
    let l₆ : List ℕ = bytes16 ip.frag_off l₅ in
    let l₇ : List ℕ = bytes16 ip.id l₆ in
    let l₈ : List ℕ = bytes16 ip.tot_len l₇ in
    let h₁ = all_bytes-bytes32 [] refl ip.daddr r.daddr in
    let h₂ = all_bytes-bytes32 l₁ h₁ ip.saddr r.saddr in
    let h₃ = all_bytes-bytes16 l₂ h₂ ip.check r.check in
    let h₄ = all_bytes-byte l₃ h₃ ip.protocol r.protocol in
    let h₅ = all_bytes-byte l₄ h₄ ip.ttl r.ttl in
    let h₆ = all_bytes-bytes16 l₅ h₅ ip.frag_off r.frag_off in
    let h₇ = all_bytes-bytes16 l₆ h₆ ip.id r.id in
    let h₈ = all_bytes-bytes16 l₇ h₇ ip.tot_len r.tot_len in
    let h₉ = all_bytes-byte l₈ h₈ ip.tos r.tos in
    all_bytes-byte (ip.tos ∷ l₈) h₉ (first_byte ip) (first_byte-small ip r.ihl r.version)

-- Filling in the check field adds its value to the sum.
word_sum-check :
    (ip : IpHdr) (c : ℕ)
    → ip.check ≡ 0
    → c < u16_mod
    → word_sum (hdr_bytes (record ip { check = htons c })) ≡ word_sum (hdr_bytes ip) + c
unfolding hdr_bytes word_sum htons
word_sum-check ip c h lt = omega arith

abbrev pub with_check : IpHdr → ℕ → IpHdr
with_check ip c = record ip { check = c }

with_check-InRange :
    (ip : IpHdr) → InRange ip → (c : ℕ) → c < u16_mod → InRange (with_check ip (htons c))
with_check-InRange ip r c lt = record {
  ihl = r.ihl;
  version = r.version;
  tos = r.tos;
  tot_len = r.tot_len;
  id = r.id;
  frag_off = r.frag_off;
  ttl = r.ttl;
  protocol = r.protocol;
  check = htons-small c lt;
  saddr = r.saddr;
  daddr = r.daddr;
}

-- What `seal` fills in, and the receiver's test.
pub seal-checked :
    (ip : IpHdr)
    → InRange ip
    → ip.check ≡ 0
    → (c : ℕ) × (c < u16_mod)
      × (seal ip ≡ ok (with_check ip (htons c)))
      × (ip_hdr_checksum (hdr_bytes (with_check ip (htons c))) 20 ≡ ok 0)
unfolding seal hdr_bytes
seal-checked ip r clear =
    let cleared : hdr_bytes (with_check ip 0) ≡ hdr_bytes ip =
      ap (λ c. hdr_bytes (with_check ip c)) (sym clear) in
    let (c, small, sum, zero) =
      check_filled (λ c. hdr_bytes (with_check ip c)) 20 (omega arith) (λ c. refl)
        (λ c lt. all_bytes-hdr_bytes (with_check ip (htons c)) (with_check-InRange ip r c lt))
        (λ c lt. word_sum-check ip c clear lt ∙ ap (λ l. word_sum l + c) (sym cleared)) in
    (
      c,
      small,
      ap (λ l. ip_hdr_checksum l 20 >>= λ c. ok (with_check ip (htons c))) (sym cleared)
          ∙ ap (λ r. r >>= λ c. ok (with_check ip (htons c))) sum,
      zero,
    )

-- The receiver's test holds of every header that the sender sealed: with the check field clear and
-- the other fields in range, `ip_send` fills in the field, and `ip_rcv` then computes 0.
pub seal_lem :
    (ip : IpHdr)
    → InRange ip
    → ip.check ≡ 0
    → (ip' : IpHdr) × (seal ip ≡ ok ip') × (ip_hdr_checksum (hdr_bytes ip') 20 ≡ ok 0)
seal_lem ip r clear =
    let (c, small, sealed, zero) = seal-checked ip r clear in
    (with_check ip (htons c), sealed, zero)

-- The header that `ip_send` makes is in range and has its check field clear.
pub make_header-InRange :
    (type id dest_ip src_ip size : ℕ)
    → id < u16_mod
    → dest_ip < u32_mod
    → src_ip < u32_mod
    → InRange (make_header type id dest_ip src_ip size)
unfolding make_header
make_header-InRange type id dest_ip src_ip size li ld ls = record {
  ihl = omega arith;
  version = omega arith;
  tos = omega arith;
  tot_len = htons-small _ (omega arith);
  id = htons-small id li;
  frag_off = htons-small 0x4000 (omega arith);
  ttl = omega arith;
  protocol = omega arith;
  check = omega arith;
  saddr = htonl-small src_ip ls;
  daddr = htonl-small dest_ip ld;
}

-- A packet that `ip_send` sends in one piece passes the receiver's test, whatever its protocol,
-- identification, addresses and size.
pub sent_header_lem :
    (type id dest_ip src_ip size : ℕ)
    → id < u16_mod
    → dest_ip < u32_mod
    → src_ip < u32_mod
    → (ip : IpHdr) × (seal (make_header type id dest_ip src_ip size) ≡ ok ip)
      × (ip_hdr_checksum (hdr_bytes ip) 20 ≡ ok 0)
unfolding make_header
sent_header_lem type id dest_ip src_ip size li ld ls =
    seal_lem (make_header type id dest_ip src_ip size)
      (make_header-InRange type id dest_ip src_ip size li ld ls) refl
