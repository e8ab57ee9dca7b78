-- ===== src/Net/Ip.antt =====
-- net/ip.c and include/net/ip.h: the header and its checksum. Memory is a list of bytes.
pub mod Checksum
pub mod Headers
pub mod Send
pub mod Address
pub mod Chunks
pub mod Fragments
mod Tests
use jnix.Prelude.{
  ℕ, zero, suc, ◌+◌, ◌-◌, ◌*◌, ◌/◌, ◌%◌, ◌^◌, List, [], ◌∷◌, add32, Run, ok, fault, ◌>>=◌, u32_mod,
  is_negative, if◌then◌else◌,
}
use jnix.Net.Bytes.{u16_mod, htons, htonl}
use jnix.Net.Packet.{bytes16, bytes32}

-- `struct iphdr`: each field as the machine reads it.
pub record IpHdr : Type 0 where
  pub ihl : ℕ
  pub version : ℕ
  pub tos : ℕ
  pub tot_len : ℕ
  pub id : ℕ
  pub frag_off : ℕ
  pub ttl : ℕ
  pub protocol : ℕ
  pub check : ℕ
  pub saddr : ℕ
  pub daddr : ℕ

-- The two bit-fields that share the first byte.
abbrev pub first_byte : IpHdr → ℕ
first_byte ip = ip.ihl + ip.version * 16

-- How the packed structure lies in memory.
unfoldable pub hdr_bytes : IpHdr → List ℕ
hdr_bytes ip =
    first_byte ip
    ∷ ip.tos
    ∷ bytes16 ip.tot_len (
        bytes16 ip.id (
          bytes16 ip.frag_off
            (ip.ttl ∷ ip.protocol ∷ bytes16 ip.check (bytes32 ip.saddr (bytes32 ip.daddr [])))))

-- The loop, and the byte that is left. Behind the buffer nothing can be read.
unfoldable pub sum_words : ℕ → List ℕ → ℕ → Run ℕ
sum_words zero buffer cksum = ok cksum
sum_words (suc zero) [] cksum = fault
sum_words (suc zero) (a ∷ buffer) cksum = ok (add32 cksum a)
sum_words (suc (suc size)) [] cksum = fault
sum_words (suc (suc size)) (a ∷ []) cksum = fault
sum_words (suc (suc size)) (a ∷ b ∷ buffer) cksum =
    sum_words size buffer (add32 cksum (htons (a + 256 * b)))

-- `cksum = (cksum >> 16) + (cksum & 0xffff); cksum += (cksum>>16);`
unfoldable pub fold : ℕ → ℕ
fold cksum = let c = add32 (cksum / u16_mod) (cksum % u16_mod) in add32 c (c / u16_mod)

-- `(unsigned short)(~cksum)`
abbrev pub complement16 : ℕ → ℕ
complement16 c = u16_mod - 1 - c % u16_mod

unfoldable pub ip_hdr_checksum : List ℕ → ℕ → Run ℕ
unfolding sum_words fold
ip_hdr_checksum buffer size = do cksum ← sum_words size buffer 0; ok (complement16 (fold cksum))

-- `ip_hdr_checksum` with an int that may be negative: then the loop is left out and one byte is read.
unfoldable pub checksum_int : List ℕ → ℕ → Run ℕ
checksum_int buffer size =
    if is_negative size then ip_hdr_checksum buffer 1 else ip_hdr_checksum buffer size

-- The header that `ip_send` writes for a packet that needs no fragments, into cleared memory.
unfoldable pub make_header : ℕ → ℕ → ℕ → ℕ → ℕ → IpHdr
unfolding htons htonl
make_header type id dest_ip src_ip size = record {
  daddr = htonl dest_ip;
  saddr = htonl src_ip;
  protocol = type % 256;
  frag_off = htons 0x4000;
  version = 4;
  ihl = 20 / 4;
  tot_len = htons ((20 + size) % u16_mod);
  ttl = 0x40;
  id = htons id;
  tos = 0;
  check = 0;
}

-- `ip->check = htons(ip_hdr_checksum((unsigned short *)ip, sizeof(struct iphdr)));`
unfoldable pub seal : IpHdr → Run IpHdr
seal ip = do c ← ip_hdr_checksum (hdr_bytes ip) 20; ok (record ip { check = htons c })
