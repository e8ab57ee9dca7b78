-- ===== src/Net/Receive/Echo.antt =====
-- An echo request of net/icmp.c from one machine to another.
use jnix.Prelude.{
  all_bytes, ℕ, ◌+◌, ◌<◌, ◌≡◌, ◌≢◌, refl, ap, ◌∙◌, true, some, List, [], ◌∷◌, arith, length, minus,
  Run, ok, ◌>>=◌, u32_mod,
}
use jnix.Net.Bytes.{htons-bytes, u16_mod, htons, htons-small, ntohs-htons, ntohl-htonl}
use jnix.Net.Packet.{bytes16, read8, read16, first_bytes, six, bytes16-value}
use jnix.Net.Arp.{Mac}
use jnix.Net.Device.{NetDevice, LawfulDevice, Network, send_frame}
use jnix.Net.Ip.{ip_hdr_checksum, checksum_int}
use jnix.Net.Ip.Checksum.{word_sum, all_bytes-byte, all_bytes-bytes16, check_filled}
use jnix.Net.Ip.Send.{dest_hw}
use jnix.Net.Icmp.{
  ip_p_icmp, icmp_echo_type, icmp_bytes, send_icmp, icmp_echo, icmp_echoreply, icmp_rcv,
}
use jnix.Net.Receive.{reveice_callback}
use jnix.Net.Receive.Delivery.{
  ip_frame, Carries, answered, ip_send-Carries, callback_lem, dispatch_lem,
}

-- A message without data: an echo request or its reply, by the type, with a check field.
abbrev pub message : ℕ → ℕ → ℕ → ℕ → List ℕ
message type id sequence check = icmp_bytes type 0 check (htons id) (htons sequence) []

record Sealed (type id sequence : ℕ) : Type 0 where
  check : ℕ
  made : ip_hdr_checksum (message type id sequence 0) 8 ≡ ok check
  passes : ip_hdr_checksum (message type id sequence (htons check)) 8 ≡ ok 0

all_bytes-message :
    (type id sequence check : ℕ)
    → type < 256
    → id < u16_mod
    → sequence < u16_mod
    → check < u16_mod
    → all_bytes (message type id sequence check) ≡ true
all_bytes-message type id sequence check lt li ls lc =
    let l₁ : List ℕ = bytes16 (htons sequence) [] in
    let l₂ : List ℕ = bytes16 (htons id) l₁ in
    let l₃ : List ℕ = bytes16 check l₂ in
    let h₁ = all_bytes-bytes16 [] refl (htons sequence) (htons-small sequence ls) in
    let h₂ = all_bytes-bytes16 l₁ h₁ (htons id) (htons-small id li) in
    let h₃ = all_bytes-bytes16 l₂ h₂ check lc in
    let h₄ = all_bytes-byte l₃ h₃ 0 (omega arith) in all_bytes-byte (0 ∷ l₃) h₄ type lt

message_sum :
    (type id sequence c : ℕ)
    → c < u16_mod
    → word_sum (message type id sequence (htons c)) ≡ word_sum (message type id sequence 0) + c
unfolding word_sum
message_sum type id sequence c lt = omega (arith, htons-bytes c lt)

seal_message :
    (type id sequence : ℕ)
    → type < 256
    → id < u16_mod
    → sequence < u16_mod
    → Sealed type id sequence
seal_message type id sequence lt li ls =
    let (c, small, made, passes) =
      check_filled (message type id sequence) 8 (omega arith) (λ c. refl)
        (λ c lc. all_bytes-message type id sequence (htons c) lt li ls (htons-small c lc))
        (λ c lt. message_sum type id sequence c lt) in
    record { check = c; made = made; passes = passes }

read_message :
    (id sequence check : ℕ)
    → (read8 (message icmp_echo_type id sequence check) 0 ≡ ok icmp_echo_type)
      × (read16 (message icmp_echo_type id sequence check) 4 ≡ ok (htons id))
      × (read16 (message icmp_echo_type id sequence check) 6 ≡ ok (htons sequence))
unfolding read8 read16
read_message id sequence check =
    (refl, ap ok (bytes16-value (htons id)), ap ok (bytes16-value (htons sequence)))

module _ {D : Type 0} (dev : NetDevice D) where
  -- A message goes out in one frame, whose packet carries it.
  send_icmp-Carries :
      LawfulDevice dev
      → (n : Network D) (hw : Mac) (type id sequence dest_ip : ℕ) (s : Sealed type id sequence)
      → dest_hw dev dest_ip n ≡ ok (some hw)
      → sequence < u16_mod
      → dest_ip < u32_mod
      → dest_ip ≢ 0
      → dev.ip n.device < u32_mod
      → (packet : List ℕ) × Carries packet ip_p_icmp dest_ip
          (dev.ip n.device)
          (message type id sequence (htons s.check))
        × (send_icmp dev type 0 (htons id) (htons sequence) [] 8 sequence dest_ip n
            ≡ (send_frame dev (ip_frame hw (dev.dev_addr n.device) packet) n >>= λ r. ok r.1))
  unfolding send_icmp
  send_icmp-Carries lawful n hw type id sequence dest_ip s found lq ld nz ls =
      let (packet, c, sent) =
        ip_send-Carries dev lawful ip_p_icmp sequence dest_ip (dev.ip n.device)
          (message type id sequence (htons s.check)) n hw (omega arith) lq ld nz ls (omega arith)
          found in
      (packet, c, rw (s.made) (ap (λ r. r >>= λ r. ok r.1) sent))

  icmp_echo_message :
      (id sequence dest_ip : ℕ) (n : Network D)
      → icmp_echo dev id sequence dest_ip n
        ≡ send_icmp dev icmp_echo_type 0 (htons id) (htons sequence) [] 8 sequence dest_ip n
  unfolding icmp_echo
  icmp_echo_message id sequence dest_ip n = refl

  icmp_echoreply_message :
      (id sequence dest_ip : ℕ) (n : Network D)
      → icmp_echoreply dev id sequence dest_ip [] 0 n
        ≡ send_icmp dev 0 0 (htons id) (htons sequence) [] 8 sequence dest_ip n
  unfolding icmp_echoreply first_bytes
  icmp_echoreply_message id sequence dest_ip n = refl

  icmp_rcv_lem :
      (dest_ip src_ip id sequence : ℕ) (packet : List ℕ) (n : Network D)
      → id < u16_mod
      → sequence < u16_mod
      → src_ip < u32_mod
      → (s : Sealed icmp_echo_type id sequence)
      → Carries packet ip_p_icmp dest_ip src_ip (message icmp_echo_type id sequence (htons s.check))
      → icmp_rcv dev packet 8 n
        ≡ (icmp_echoreply dev id sequence src_ip [] 0 n >>= λ n'. ok (minus 1, n'))
  unfolding icmp_rcv checksum_int
  icmp_rcv_lem dest_ip src_ip id sequence packet n li ls la s c =
      let parts = read_message id sequence (htons s.check) in
      rw (c.first) (
        rw (c.body) (
          rw (s.passes) (
            rw (parts.0) (
              rw (parts.1) (
                rw (parts.2) (
                  rw (c.saddr) (
                    rw (ntohl-htonl src_ip la)
                      (rw (ntohs-htons id li) (rw (ntohs-htons sequence ls) refl)))))))))

-- A run that sends an echo reply in one frame: the packet in the frame carries the message of type 0,
-- with some checksum.
abbrev pub SendsReply :
    {D : Type 0} → NetDevice D → Network D → Mac → ℕ → ℕ → ℕ → Run (Network D) → Type 0
SendsReply dev n hw dest_ip id sequence run =
    (packet : List ℕ) × (check : ℕ) × Carries packet ip_p_icmp dest_ip (dev.ip n.device)
      (message 0 id sequence check)
    × (run ≡ (send_frame dev (ip_frame hw (dev.dev_addr n.device) packet) n >>= λ r. ok r.1))

-- An echo request without data from one machine to another. The devices are lawful, each machine
-- knows the hardware address of the other, these are six bytes long, and no address is 0. The request
-- goes out in one frame. The machine that takes this frame in finds the checksums right, and sends
-- one frame to the sender's hardware address, whose packet carries an echo reply with the same
-- identification and sequence number to the sender's address.
pub icmp_echo_lem :
    {D E : Type 0} (dev : NetDevice D) (peer : NetDevice E)
    → LawfulDevice dev
    → LawfulDevice peer
    → (n : Network D) (p : Network E) (hw back : Mac) (dest_ip id sequence : ℕ)
    → dest_hw dev dest_ip n ≡ ok (some hw)
    → dest_hw peer (dev.ip n.device) p ≡ ok (some back)
    → length hw ≡ 6
    → length (dev.dev_addr n.device) ≡ 6
    → dest_ip < u32_mod
    → dest_ip ≢ 0
    → dev.ip n.device < u32_mod
    → dev.ip n.device ≢ 0
    → peer.ip p.device < u32_mod
    → id < u16_mod
    → sequence < u16_mod
    → (frame : List ℕ) × (icmp_echo dev id sequence dest_ip n
        ≡ (send_frame dev frame n >>= λ r. ok r.1))
      × SendsReply peer p back (dev.ip n.device) id sequence (reveice_callback peer frame p)
icmp_echo_lem dev peer lawful answers n p hw back dest_ip id sequence found known six_d six_s ld nz
      ls nz_s lr li lq =
    let src_ip = dev.ip n.device in
    let s = seal_message icmp_echo_type id sequence (omega arith) li lq in
    let t = seal_message 0 id sequence (omega arith) li lq in
    let whole = message icmp_echo_type id sequence (htons s.check) in
    let (packet, c, sent) =
      send_icmp-Carries dev lawful n hw icmp_echo_type id sequence dest_ip s found lq ld nz ls in
    let (packet', c', sent') =
      send_icmp-Carries peer answers p back 0 id sequence src_ip t known lq ls nz_s lr in
    let called =
      callback_lem peer hw (dev.dev_addr n.device) ip_p_icmp dest_ip src_ip packet whole p
        (six hw six_d) (six (dev.dev_addr n.device) six_s) c in
    let dispatched = dispatch_lem peer ip_p_icmp dest_ip src_ip packet whole p c (omega arith) in
    let received = icmp_rcv_lem peer dest_ip src_ip id sequence packet p li lq ls s c in
    (
      ip_frame hw (dev.dev_addr n.device) packet,
      icmp_echo_message dev id sequence dest_ip n ∙ sent,
      (
        packet',
        htons t.check,
        c',
        called
            ∙ ap (λ r. r >>= λ r. ok r.1) (dispatched ∙ received)
            ∙ answered (icmp_echoreply peer id sequence src_ip [] 0 p)
            ∙ icmp_echoreply_message peer id sequence src_ip p
            ∙ sent',
      ),
    )
