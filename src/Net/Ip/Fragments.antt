-- ===== src/Net/Ip/Fragments.antt =====
-- What arrives of a payload that `ip_send` of net/ip.c cuts into fragments.
use jnix.Prelude.{
  ℕ, zero, suc, ◌+◌, ◌-◌, ◌*◌, ◌/◌, ◌%◌, ◌≤◌, ◌<◌, ◌≡◌, ◌≢◌, ◌⊎◌, refl, sym, ap, ◌∙◌, true, false,
  Option, none, some, List, [], ◌∷◌, subst, ◌++◌, arith, length, ltb, if◌then◌else◌, sub32, minus,
  Run, ok, ◌>>=◌, u32_mod,
}
use jnix.Net.Bytes.{u16_mod, htons, htons-small, htonl-small}
use jnix.Net.Packet
use jnix.Net.Packet.{length-skip, bytes16, first_bytes, Six, six}
use jnix.Net.Arp.{Mac}
use jnix.Net.Device.{
  NetDevice, LawfulDevice, Network, Serves, Sends, sent_all, sent, dev_hard_header_lem, send_frame,
}
use jnix.Net.Resolve.{eth_p_ip}
use jnix.Net.Ip.{IpHdr, hdr_bytes, make_header, seal}
use jnix.Net.Ip.Headers.{InRange, seal-checked, with_check, make_header-InRange}
use jnix.Net.Ip.Send.{
  mtu, chunk, fragment_header, dest_hw, dest_or_all, send_fragment, send_fragments, ip_send,
}
use jnix.Net.Ip.Chunks.{
  fragment_count, carried, take, first_bytes-take, take-add, chunk_facts, chunk-most, fits,
}

-- What frames carry behind the two headers.
abbrev pub payloads : List (List ℕ) → List ℕ
payloads [] = []
payloads (frame ∷ frames) = Packet.skip 34 frame ++ payloads frames

fragment_header-InRange :
    (type id dest_ip src_ip size frag_off : ℕ)
    → id < u16_mod
    → dest_ip < u32_mod
    → src_ip < u32_mod
    → frag_off * 8 + size < u16_mod
    → InRange (fragment_header type id dest_ip src_ip size frag_off)
unfolding fragment_header make_header
fragment_header-InRange type id dest_ip src_ip size frag_off li ld ls le =
    let r = make_header-InRange type id dest_ip src_ip 0 li ld ls in
    record {
      ihl = omega arith;
      version = omega arith;
      tos = omega arith;
      tot_len = htons-small (chunk size) (fits size (omega arith));
      id = htons-small id li;
      frag_off = htons-small ((if ltb mtu size then 0x2000 else 0) + frag_off) (ground arith);
      ttl = omega arith;
      protocol = omega arith;
      check = omega arith;
      saddr = htonl-small src_ip ls;
      daddr = htonl-small dest_ip ld;
    }

fragment_header-clear :
    (type id dest_ip src_ip size frag_off : ℕ)
    → (fragment_header type id dest_ip src_ip size frag_off).check ≡ 0
unfolding fragment_header make_header
fragment_header-clear type id dest_ip src_ip size frag_off = refl

skip_headers :
    (dest src : Mac) (ip : IpHdr) (bytes : List ℕ)
    → Six dest
    → Six src
    → Packet.skip 34 ((dest ++ (src ++ bytes16 (htons eth_p_ip) [])) ++ (hdr_bytes ip ++ bytes))
      ≡ bytes
unfolding hdr_bytes
skip_headers dest src ip bytes x y = rw (x.same, y.same) refl

length-frame :
    (dest src : Mac) (ip : IpHdr) (bytes : List ℕ)
    → Six dest
    → Six src
    → length ((dest ++ (src ++ bytes16 (htons eth_p_ip) [])) ++ (hdr_bytes ip ++ bytes))
      ≡ 34 + length bytes
unfolding hdr_bytes
length-frame dest src ip bytes x y = rw (x.same, y.same) (omega arith)

length-take : (k : ℕ) (xs : List ℕ) → length (take k xs) ≤ k
length-take zero xs = omega arith
length-take (suc k) [] = omega arith
length-take (suc k) (x ∷ xs) = omega (arith, length-take k xs)

module _ {D : Type 0} (dev : NetDevice D) (lawful : LawfulDevice dev) (ready : ℕ → D → Type 0)
    (serves : Serves dev ready) where
  -- One fragment, of at least 20 bytes.
  send_fragment_lem :
      (type id dest_ip src_ip : ℕ) (hw : Mac) (size : ℕ) (data_p : List ℕ) (frag_off : ℕ)
      (n : Network D) (k : ℕ)
      → ready (suc k) n.device
      → id < u16_mod
      → dest_ip < u32_mod
      → src_ip < u32_mod
      → length hw ≡ 6
      → length (dev.dev_addr n.device) ≡ 6
      → frag_off * 8 + size < u16_mod
      → 20 ≤ chunk size
      → chunk size - 20 ≤ length data_p
      → (frame : List ℕ) × (d : D) × (dev.send frame n.device ≡ ok (0, d))
        × ready k d
        × (dev.dev_addr d ≡ dev.dev_addr n.device)
        × (Packet.skip 34 frame ≡ take (chunk size - 20) data_p)
        × (send_fragment dev type id dest_ip src_ip hw size data_p frag_off n
            ≡ ok (0, record n { device = d }))
  unfolding send_fragment send_frame
  send_fragment_lem type id dest_ip src_ip hw size data_p frag_off n k can li ld ls six_d six_s le
        enough there =
      let (c, small, sealed, zero_sum) =
        seal-checked (fragment_header type id dest_ip src_ip size frag_off)
          (fragment_header-InRange type id dest_ip src_ip size frag_off li ld ls le)
          (fragment_header-clear type id dest_ip src_ip size frag_off) in
      let bytes = take (chunk size - 20) data_p in
      let ip = with_check (fragment_header type id dest_ip src_ip size frag_off) (htons c) in
      let frame =
        (hw ++ (dev.dev_addr n.device ++ bytes16 (htons eth_p_ip) [])) ++ (hdr_bytes ip ++ bytes) in
      let short = fits size (omega arith) in
      let size_left : sub32 (chunk size) 20 ≡ chunk size - 20 = omega arith in
      let whole =
        length-frame hw (dev.dev_addr n.device) ip bytes (six hw six_d)
          (six (dev.dev_addr n.device) six_s) in
      let (d, took, left, addr) =
        serves.serve k frame n.device can
          (omega (arith, whole, length-take (chunk size - 20) data_p, chunk-most size)) in
      (
        frame,
        d,
        took,
        left,
        addr,
        skip_headers hw (dev.dev_addr n.device) ip bytes (six hw six_d)
            (six (dev.dev_addr n.device) six_s),
        ap sent_with (dev_hard_header_lem dev lawful n.device eth_p_ip hw (dev.dev_addr n.device))
            ∙ rw size_left (rw (first_bytes-take (chunk size - 20) data_p there) (rw sealed refl))
            ∙ ap (λ r. r >>= λ r. ok (r.0, record n { device = r.1 })) took,
      )
    where
      sent_with : Option (List ℕ) → Run (ℕ × Network D)
      sent_with header = elim header [
        | none ↦ ok (minus 1, n)
        | some eth ↦ first_bytes (sub32 (chunk size) 20) data_p >>= λ bytes.
            seal (fragment_header type id dest_ip src_ip size frag_off) >>= λ ip.
            send_frame dev (eth ++ (hdr_bytes ip ++ bytes)) n
      ]

  -- The loop, from any place in the payload on.
  send_fragments_lem :
      (type id dest_ip src_ip : ℕ) (hw : Mac) (fuel size : ℕ) (data_p : List ℕ) (frag_off : ℕ)
      (n : Network D)
      → ready (fragment_count size) n.device
      → id < u16_mod
      → dest_ip < u32_mod
      → src_ip < u32_mod
      → length hw ≡ 6
      → length (dev.dev_addr n.device) ≡ 6
      → frag_off * 8 + size < u16_mod
      → (size % 1480 ≡ 0) ⊎ (20 ≤ size % 1480)
      → carried size ≤ length data_p
      → size < fuel
      → (frames : List (List ℕ)) × (d : D) × Sends dev n.device frames d
        × (length frames ≡ fragment_count size)
        × (payloads frames ≡ take (carried size) data_p)
        × (send_fragments dev type id dest_ip src_ip fuel hw size data_p frag_off n
            ≡ ok (0, record n { device = d }))
  unfolding send_fragments
  send_fragments_lem type id dest_ip src_ip hw zero size data_p frag_off n can li ld ls hd hs le
        tail there enough =
      absurd (omega arith)
  send_fragments_lem type id dest_ip src_ip hw (suc fuel) zero data_p frag_off n can li ld ls hd hs
        le tail there enough =
      ([], n.device, sent_all, refl, refl, refl)
  send_fragments_lem type id dest_ip src_ip hw (suc fuel) (suc size) data_p frag_off n can li ld ls
        hd hs le tail there enough =
      let k = chunk (suc size) in
      let f = chunk_facts (suc size) (omega arith) tail in
      let (frame, d, took, left, addr, kept, one) =
        send_fragment_lem type id dest_ip src_ip hw (suc size) data_p frag_off n
          (fragment_count (suc size - k)) (subst (λ c. ready c n.device) f.one_less can) li ld ls hd
          hs le f.enough (omega (arith, f.split, there)) in
      let (frames, d', all, count, kept', rest) =
        send_fragments_lem type id dest_ip src_ip hw fuel (suc size - k)
          (Packet.skip (k - 20) data_p) (frag_off + k / 8) (record n { device = d }) left li ld ls
          hd (ap length addr ∙ hs) (omega (arith, le, f.within)) f.tail
          (omega (arith, length-skip (k - 20) data_p, f.split, there))
          (omega (arith, f.enough, f.within, enough)) in
      (
        frame ∷ frames,
        d',
        sent took all,
        omega (arith, count, f.one_less),
        ap (λ l. l ++ payloads frames) kept
            ∙ ap (λ l. take (k - 20) data_p ++ l) kept'
            ∙ sym (take-add (k - 20) (carried (suc size - k)) data_p)
            ∙ ap (λ i. take i data_p) (sym f.split),
        rw one rest,
      )

-- A payload of more than 1480 bytes, of which the last piece is not shorter than a header, sent by a
-- lawful device that is ready for as many frames as there are pieces: `ip_send` succeeds, with one
-- frame for each piece, but each frame is short of 20 bytes. What the frames carry behind their
-- headers is the payload without its last bytes.
pub ip_send-fragments :
    {D : Type 0} (dev : NetDevice D)
    → LawfulDevice dev
    → (ready : ℕ → D → Type 0) → Serves dev ready
    → (n : Network D) (hw : Mac) (type id dest_ip src_ip : ℕ) (payload : List ℕ)
    → ready (fragment_count (length payload)) n.device
    → dest_hw dev dest_ip n ≡ ok (some hw)
    → length hw ≡ 6
    → length (dev.dev_addr n.device) ≡ 6
    → id < u16_mod
    → dest_ip < u32_mod
    → dest_ip ≢ 0
    → src_ip < u32_mod
    → mtu < length payload
    → length payload < u16_mod
    → (length payload % mtu ≡ 0) ⊎ (20 ≤ length payload % mtu)
    → (frames : List (List ℕ)) × (d : D) × Sends dev n.device frames d
      × (ip_send dev type id dest_ip src_ip payload (length payload) n
          ≡ ok (0, record n { device = d }))
      × (length frames ≡ fragment_count (length payload))
      × (payloads frames ≡ take (length payload - 20 * fragment_count (length payload)) payload)
unfolding ip_send
ip_send-fragments dev lawful ready serves n hw type id dest_ip src_ip payload can found hd hs li ld
      nz ls long small tail =
    let size = length payload in
    let (frames, d, all, count, kept, run) =
      send_fragments_lem dev lawful ready serves type id dest_ip src_ip hw (suc size) size payload 0
        n can li ld ls hd hs (omega arith) tail (omega arith) (omega arith) in
    let no_overflow : ltb 65535 size ≡ false = ground arith in
    let pieces : ltb mtu size ≡ true = ground arith in
    let given : dest_or_all dev dest_ip ≡ dest_ip = ground arith in
    (frames, d, all, rw no_overflow (rw found (rw pieces (rw given run))), count, kept)
