-- ===== src/Net/Resolve/Exchange.antt =====
-- A request and its answer between two machines that run net/arp.c.
use jnix.Prelude.{
  ==-self, ℕ, ◌<◌, ◌≡◌, ◌≢◌, refl, sym, ap, ◌∙◌, inl, inr, false, Bool-cases, Option, none, some,
  List, [], ◌++◌, ◌==◌, length, Run, ok, ◌>>=◌, u32_mod,
}
use mathlib.Core.Option.{none-ne-some}
use jnix.Net.Bytes.{htons, htonl, htonl-small}
use jnix.Net.Packet
use jnix.Net.Packet.{
  bytes16, bytes32, read8, read16, read32, first_bytes, Six, six, bytes16-value, bytes32-value,
}
use jnix.Net.Arp.{Mac, zero_mac, Bucket, HashMap, hash_put, hash_get}
use jnix.Net.Arp.Chains.{entries, find}
use jnix.Net.Arp.Lookup.{IsValid, bucket_of, lookup, displaced, hash_get_lem, hash_put_lem}
use jnix.Net.Device.{NetDevice, LawfulDevice, Network, dev_hard_header_lem, send_frame}
use jnix.Net.Resolve.{
  eth_p_arp, arphrd_ether, arpop_request, arpop_reply, broadcast, or_else, arp_bytes, make_arp,
  arp_send, answer, learn, arp_rcv, arp_find,
}

-- The frame that `arp_send` sends with a lawful device.
abbrev pub arp_frame : ℕ → ℕ → ℕ → Mac → Mac → Option Mac → List ℕ
arp_frame type dest_ip src_ip dest_hw src_hw target_hw =
    (dest_hw ++ (src_hw ++ bytes16 (htons eth_p_arp) []))
    ++ arp_bytes (make_arp type dest_ip src_ip src_hw target_hw)

-- What `arp_rcv` reads of such a frame.
record Reads (packet : List ℕ) (type dest_ip src_ip : ℕ) (src_hw : Mac) : Type 0 where
  hrd : read16 packet 14 ≡ ok (htons arphrd_ether)
  op : read16 packet 20 ≡ ok (htons type)
  sip : read32 packet 28 ≡ ok src_ip
  tip : read32 packet 38 ≡ ok dest_ip
  sha : first_bytes 6 (Packet.skip 22 packet) ≡ ok src_hw

-- A frame between three addresses of six bytes is read as it was written.
reads_lem :
    (type dest_ip src_ip : ℕ) (d s : Mac) (target_hw : Option Mac)
    → dest_ip < u32_mod
    → src_ip < u32_mod
    → Six d
    → Six s
    → Six (or_else target_hw zero_mac)
    → Reads (arp_frame type dest_ip src_ip d s target_hw) type dest_ip src_ip s
unfolding read8 read16 read32 first_bytes
reads_lem type dest_ip src_ip d s target_hw ld ls x y z = record {
  hrd = rw (x.same, y.same) (ap ok (bytes16-value (htons arphrd_ether)));
  op = rw (x.same, y.same) (ap ok (bytes16-value (htons type)));
  sip = rw (x.same, y.same) (ap ok (bytes32-value src_ip ls));
  tip = rw (x.same, y.same, z.same) (ap ok (bytes32-value dest_ip ld));
  sha = rw (x.same, y.same) refl;
}

module _ {D : Type 0} (dev : NetDevice D) (lawful : LawfulDevice dev) where
  -- With a lawful device `arp_send` sends that frame.
  arp_send_lem :
      (type dest_ip src_ip : ℕ) (dest_hw src_hw target_hw : Option Mac) (n : Network D)
      → arp_send dev type eth_p_arp dest_ip src_ip dest_hw src_hw target_hw n ≡ (
          send_frame dev
            (arp_frame type dest_ip src_ip
              (or_else dest_hw broadcast)
              (or_else src_hw (dev.dev_addr n.device))
              target_hw)
            n
          >>= λ r. ok r.1)
  unfolding arp_send
  arp_send_lem type dest_ip src_ip dest_hw src_hw target_hw n =
      ap sent (dev_hard_header_lem dev lawful n.device eth_p_arp (or_else dest_hw broadcast) src)
    where
      src : Mac
      src = or_else src_hw (dev.dev_addr n.device)

      sent : Option (List ℕ) → Run (Network D)
      sent header = elim header [
        | none ↦ ok n
        | some eth ↦
            send_frame dev (eth ++ arp_bytes (make_arp type dest_ip src_ip src target_hw)) n
            >>= λ r. ok r.1
      ]

  arp_rcv-request :
      (packet : List ℕ) (sip : ℕ) (sha : Mac) (n : Network D)
      → Reads packet arpop_request (htonl (dev.ip n.device)) sip sha
      → arp_rcv dev packet n
        ≡ arp_send dev arpop_reply eth_p_arp sip
            (htonl (dev.ip n.device))
            (some sha)
            (some (dev.dev_addr n.device))
            (some sha)
            n
  unfolding arp_rcv answer htons
  arp_rcv-request packet sip sha n r = rw (r.hrd) (
      rw (r.op)
        (rw (r.sip) (rw (r.tip) (rw (r.sha) (rw (==-self (htonl (dev.ip n.device))) refl)))))

  arp_rcv-reply :
      (packet : List ℕ) (tip sip : ℕ) (sha : Mac) (n : Network D)
      → Reads packet arpop_reply tip sip sha
      → arp_rcv dev packet n
        ≡ (hash_put n.arp_map sip sha >>= λ map. ok (record n { arp_map = map }))
  unfolding arp_rcv learn htons
  arp_rcv-reply packet tip sip sha n r = rw (r.hrd) (rw (r.op) (rw (r.sip) (rw (r.sha) refl)))

used_bucket :
    (m : HashMap) (ip : ℕ) (mac : Mac) (b : Bucket)
    → bucket_of m ip ≡ some b
    → lookup m ip ≡ some mac
    → (b.head.ip == 0) ≡ false
unfolding lookup entries find
used_bucket m ip mac b at found = elim (Bool-cases (b.head.ip == 0)) [
  | inr used ↦ used
  | inl empty ↦ absurd (none-ne-some mac (sym (rw (at, lookup) (rw (empty, entries) refl)) ∙ found))
]

-- An address that `hash_put` puts into a bucket where it is not behind another one is found.
hash_put-hash_get :
    (m : HashMap) (ip : ℕ) (mac : Mac)
    → IsValid m
    → ip ≢ 0
    → ((b : Bucket) → bucket_of m ip ≡ some b → displaced ip b ≡ false)
    → (m' : HashMap) × (hash_put m ip mac ≡ ok m') × (hash_get m' ip ≡ ok (some mac))
hash_put-hash_get m ip mac v nz clear =
    let (b, m', at, put, v', after) = hash_put_lem m v ip mac nz in
    let found : lookup m' ip ≡ some mac = after ip nz ∙ rw (clear b at) (rw (==-self ip) refl) in
    let (b', at', got) = hash_get_lem m' v' ip in
    let used : (b'.head.ip == 0) ≡ false = used_bucket m' ip mac b' at' found in
    (m', put, got ∙ rw used (rw found refl))

-- Two machines, their devices lawful and their hardware addresses six bytes long: when the first
-- asks for the address of the second, its frame makes the second one send a frame, and when the
-- first, its map well-formed, takes that one in, `arp_find` has the second one's hardware address.
-- The condition is that the address is not 0 nor already behind the head of its bucket.
pub exchange_lem :
    {D E : Type 0} (dev : NetDevice D) (peer : NetDevice E)
    → LawfulDevice dev
    → LawfulDevice peer
    → (n : Network D) (p : Network E) → length (dev.dev_addr n.device) ≡ 6
    → length (peer.dev_addr p.device) ≡ 6
    → dev.ip n.device < u32_mod
    → peer.ip p.device < u32_mod
    → (later : Network D) → IsValid later.arp_map
    → htonl (peer.ip p.device) ≢ 0
    → ((b : Bucket)
        → bucket_of later.arp_map (htonl (peer.ip p.device)) ≡ some b
        → displaced (htonl (peer.ip p.device)) b ≡ false)
    → (request : List ℕ) × (reply : List ℕ) × (after : Network D) × (arp_send dev arpop_request
          eth_p_arp
          (htonl (peer.ip p.device))
          (htonl (dev.ip n.device))
          none
          none
          none
          n
        ≡ (send_frame dev request n >>= λ r. ok r.1))
      × (arp_rcv peer request p ≡ (send_frame peer reply p >>= λ r. ok r.1))
      × (arp_rcv dev reply later ≡ ok after)
      × (arp_find dev (peer.ip p.device) after ≡ ok (some (peer.dev_addr p.device)))
unfolding arp_find
exchange_lem dev peer lawful lawful' n p six_n six_p ip_n ip_p later v nz clear =
    let our_ip = htonl (dev.ip n.device) in
    let its_ip = htonl (peer.ip p.device) in
    let our_hw = dev.dev_addr n.device in
    let its_hw = peer.dev_addr p.device in
    let request = arp_frame arpop_request its_ip our_ip broadcast our_hw none in
    let reply = arp_frame arpop_reply our_ip its_ip our_hw its_hw (some our_hw) in
    let small_n = htonl-small (dev.ip n.device) ip_n in
    let small_p = htonl-small (peer.ip p.device) ip_p in
    let asked =
      reads_lem arpop_request its_ip our_ip broadcast our_hw none small_p small_n
        (six broadcast refl) (six our_hw six_n) (six zero_mac refl) in
    let told =
      reads_lem arpop_reply our_ip its_ip our_hw its_hw (some our_hw) small_n small_p
        (six our_hw six_n) (six its_hw six_p) (six our_hw six_n) in
    let (map, put, got) = hash_put-hash_get later.arp_map its_ip its_hw v nz clear in
    (
      request,
      reply,
      record later { arp_map = map },
      arp_send_lem dev lawful arpop_request its_ip our_ip none none none n,
      arp_rcv-request peer lawful' request our_ip our_hw p asked
          ∙ arp_send_lem peer lawful' arpop_reply our_ip its_ip (some our_hw) (some its_hw)
              (some our_hw) p,
      arp_rcv-reply dev lawful reply our_ip its_ip its_hw later told ∙ rw put refl,
      got,
    )
