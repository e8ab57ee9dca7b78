-- ===== src/Net/Receive/Datagrams.antt =====
-- A datagram of net/udp.c from one machine to another and back.
use jnix.Prelude.{
  all_bytes, ℕ, ◌+◌, ◌%◌, ◌≤◌, ◌<◌, ◌≡◌, ◌≢◌, refl, sym, ap, ◌∙◌, true, false, some, List, ◌∷◌,
  arith, length, add32, sub32, minus, is_negative, Run, ok, ◌>>=◌, u32_mod,
}
use jnix.Net.Bytes.{
  htons-bytes, u16_mod, htons, htons-small, ntohs, ntohs-htons, htonl, ntohl-htonl, htonl-small,
}
use jnix.Net.Packet.{bytes16, bytes32, read8, read16, first_bytes_all, six, bytes16-value}
use jnix.Net.Arp.{Mac}
use jnix.Net.Device.{NetDevice, LawfulDevice, Network, send_frame}
use jnix.Net.Ip.{checksum_int}
use jnix.Net.Ip.Checksum.{
  word_sum, all_bytes-byte, all_bytes-bytes16, all_bytes-bytes32, check_filled,
}
use jnix.Net.Ip.Send.{dest_hw, ip_send}
use jnix.Net.Udp.{ip_p_udp, udp_bytes, fake_bytes, udp_send, udp_rcv}
use jnix.Net.Receive.{reveice_callback}
use jnix.Net.Receive.Delivery.{
  ip_frame, Carries, answered, ip_send-Carries, callback_lem, dispatch_lem,
}

-- The datagram that `udp_send` makes, with a check field.
abbrev pub datagram : ℕ → ℕ → List ℕ → ℕ → List ℕ
datagram dest_port src_port body check =
    udp_bytes (htons src_port) (htons dest_port) (htons (length body + 8)) check body

abbrev pub checked_part : ℕ → ℕ → ℕ → ℕ → List ℕ → ℕ → List ℕ
checked_part src_ip dest_ip dest_port src_port body check =
    fake_bytes (htonl src_ip) (htonl dest_ip) (htons (length body + 8))
      (datagram dest_port src_port body check)

all_bytes-datagram :
    (dest_port src_port : ℕ) (body : List ℕ) (check : ℕ)
    → dest_port < u16_mod
    → src_port < u16_mod
    → check < u16_mod
    → length body ≤ 1472
    → all_bytes body ≡ true
    → all_bytes (datagram dest_port src_port body check) ≡ true
all_bytes-datagram dest_port src_port body check ld ls lc le h =
    let l₁ : List ℕ = bytes16 check body in
    let len : ℕ = htons (length body + 8) in
    let l₂ : List ℕ = bytes16 len l₁ in
    let l₃ : List ℕ = bytes16 (htons dest_port) l₂ in
    let h₁ = all_bytes-bytes16 body h check lc in
    let h₂ = all_bytes-bytes16 l₁ h₁ len (htons-small (length body + 8) (omega arith)) in
    let h₃ = all_bytes-bytes16 l₂ h₂ (htons dest_port) (htons-small dest_port ld) in
    all_bytes-bytes16 l₃ h₃ (htons src_port) (htons-small src_port ls)

all_bytes-fake_bytes :
    (src_ip dest_ip len : ℕ) (rest : List ℕ)
    → src_ip < u32_mod
    → dest_ip < u32_mod
    → len < u16_mod
    → all_bytes rest ≡ true
    → all_bytes (fake_bytes src_ip dest_ip len rest) ≡ true
all_bytes-fake_bytes src_ip dest_ip len rest ls ld ll h =
    let l₁ : List ℕ = bytes16 len rest in
    let l₂ : List ℕ = ip_p_udp ∷ l₁ in
    let l₃ : List ℕ = 0 ∷ l₂ in
    let l₄ : List ℕ = bytes32 dest_ip l₃ in
    let h₁ = all_bytes-bytes16 rest h len ll in
    let h₂ = all_bytes-byte l₁ h₁ ip_p_udp (omega arith) in
    let h₃ = all_bytes-byte l₂ h₂ 0 (omega arith) in
    let h₄ = all_bytes-bytes32 l₃ h₃ dest_ip ld in all_bytes-bytes32 l₄ h₄ src_ip ls

checked_sum :
    (src_ip dest_ip dest_port src_port : ℕ) (body : List ℕ) (c : ℕ)
    → c < u16_mod
    → word_sum (checked_part src_ip dest_ip dest_port src_port body (htons c))
      ≡ word_sum (checked_part src_ip dest_ip dest_port src_port body 0) + c
unfolding word_sum
checked_sum src_ip dest_ip dest_port src_port body c lt = omega (arith, htons-bytes c lt)

-- The sender's checksum, and the receiver's test.
record Sealed (src_ip dest_ip dest_port src_port : ℕ) (body : List ℕ) : Type 0 where
  check : ℕ
  made :
      checksum_int (checked_part src_ip dest_ip dest_port src_port body 0) (length body + 20)
      ≡ ok check
  passes :
      checksum_int
        (checked_part src_ip dest_ip dest_port src_port body (htons check))
        (length body + 20)
      ≡ ok 0

seal_datagram :
    (src_ip dest_ip dest_port src_port : ℕ) (body : List ℕ)
    → src_ip < u32_mod
    → dest_ip < u32_mod
    → dest_port < u16_mod
    → src_port < u16_mod
    → all_bytes body ≡ true
    → length body ≤ 1472
    → Sealed src_ip dest_ip dest_port src_port body
unfolding checksum_int
seal_datagram src_ip dest_ip dest_port src_port body ls ld lp lq h le =
    let (c, small, made, passes) =
      check_filled (checked_part src_ip dest_ip dest_port src_port body) (length body + 20)
        (omega arith) (λ c. omega arith)
        (λ c lt.
          all_bytes-fake_bytes (htonl src_ip) (htonl dest_ip) (htons (length body + 8))
            (datagram dest_port src_port body (htons c)) (htonl-small src_ip ls)
            (htonl-small dest_ip ld) (htons-small (length body + 8) (omega arith))
            (all_bytes-datagram dest_port src_port body (htons c) lp lq (htons-small c lt) le h))
        (λ c lt. checked_sum src_ip dest_ip dest_port src_port body c lt) in
    let nonneg : is_negative (length body + 20) ≡ false = ground arith in
    record { check = c; made = rw nonneg made; passes = rw nonneg passes }

ntohs-is-htons : (n : ℕ) → ntohs n ≡ htons n
unfolding ntohs htons
ntohs-is-htons n = refl

read_ports :
    (dest_port src_port : ℕ) (body : List ℕ) (check : ℕ)
    → (read16 (datagram dest_port src_port body check) 0 ≡ ok (htons src_port))
      × (read16 (datagram dest_port src_port body check) 2 ≡ ok (htons dest_port))
unfolding read8 read16
read_ports dest_port src_port body check =
    (ap ok (bytes16-value (htons src_port)), ap ok (bytes16-value (htons dest_port)))

module _ {D : Type 0} (dev : NetDevice D) where
  udp_send-ip_send :
      (dest_ip dest_port src_port : ℕ) (body : List ℕ) (n : Network D)
      → dest_port < u16_mod
      → src_port < u16_mod
      → length body ≤ 1472
      → (s : Sealed (dev.ip n.device) dest_ip dest_port src_port body)
      → udp_send dev dest_ip dest_port src_port body (length body) n ≡ (
          ip_send dev ip_p_udp 1 dest_ip
            (dev.ip n.device)
            (datagram dest_port src_port body (htons s.check))
            (length (datagram dest_port src_port body (htons s.check)))
            n
          >>= λ r. ok r.1)
  unfolding udp_send
  udp_send-ip_send dest_ip dest_port src_port body n ld ls le s =
      let whole : add32 (length body) 20 ≡ length body + 20 = omega arith in
      let part : sub32 (length body + 20) 12 % u16_mod ≡ length body + 8 = omega arith in
      let count : length (datagram dest_port src_port body (htons s.check)) ≡ length body + 8 =
        omega arith in
      let source : src_port % u16_mod ≡ src_port = omega arith in
      let dest : dest_port % u16_mod ≡ dest_port = omega arith in
      rw (first_bytes_all body)
        (rw whole (rw part (rw source (rw dest (rw (s.made) (rw (sym count) refl))))))

  udp_rcv_lem :
      (dest_ip src_ip dest_port src_port : ℕ) (packet body : List ℕ) (n : Network D)
      → dest_port < u16_mod
      → src_port < u16_mod
      → src_ip < u32_mod
      → length body ≤ 1472
      → (s : Sealed src_ip dest_ip dest_port src_port body)
      → Carries packet ip_p_udp dest_ip src_ip (datagram dest_port src_port body (htons s.check))
      → udp_rcv dev packet (length (datagram dest_port src_port body (htons s.check))) n
        ≡ (udp_send dev src_ip src_port dest_port body (length body) n >>= λ n'. ok (minus 1, n'))
  unfolding udp_rcv
  udp_rcv_lem dest_ip src_ip dest_port src_port packet body n ld ls li le s c =
      let whole = datagram dest_port src_port body (htons s.check) in
      let len : ntohs (length whole % u16_mod) ≡ htons (length body + 8) =
        ap ntohs (omega arith) ∙ ntohs-is-htons (length body + 8) in
      let size : add32 (length whole) 12 ≡ length body + 20 = omega arith in
      let rest : sub32 (length whole) 8 ≡ length body = omega arith in
      let ports = read_ports dest_port src_port body (htons s.check) in
      rw (c.first) (
        rw (c.body) (
          rw (first_bytes_all whole) (
            rw (c.daddr) (
              rw (c.saddr) (
                rw len (
                  rw size (
                    rw (s.passes) (
                      rw (ports.0) (
                        rw (ports.1) (
                          rw (ntohl-htonl src_ip li) (
                            rw (ntohs-htons src_port ls)
                              (rw (ntohs-htons dest_port ld) (rw rest refl)))))))))))))

-- A run that sends a datagram in one frame: the packet in the frame carries it, with some checksum.
abbrev pub SendsDatagram :
    {D : Type 0} → NetDevice D → Network D → Mac → ℕ → ℕ → ℕ → List ℕ → Run (Network D) → Type 0
SendsDatagram dev n hw dest_ip dest_port src_port body run =
    (packet : List ℕ) × (check : ℕ) × Carries packet ip_p_udp dest_ip (dev.ip n.device)
      (datagram dest_port src_port body check)
    × (run ≡ (send_frame dev (ip_frame hw (dev.dev_addr n.device) packet) n >>= λ r. ok r.1))

udp_send-SendsDatagram :
    {D : Type 0} (dev : NetDevice D)
    → LawfulDevice dev
    → (n : Network D) (hw : Mac) (dest_ip dest_port src_port : ℕ) (body : List ℕ)
    → dest_hw dev dest_ip n ≡ ok (some hw)
    → dest_ip < u32_mod
    → dest_ip ≢ 0
    → dev.ip n.device < u32_mod
    → dest_port < u16_mod
    → src_port < u16_mod
    → length body ≤ 1472
    → (s : Sealed (dev.ip n.device) dest_ip dest_port src_port body)
    → (packet : List ℕ) × Carries packet ip_p_udp dest_ip
        (dev.ip n.device)
        (datagram dest_port src_port body (htons s.check))
      × (udp_send dev dest_ip dest_port src_port body (length body) n
          ≡ (send_frame dev (ip_frame hw (dev.dev_addr n.device) packet) n >>= λ r. ok r.1))
udp_send-SendsDatagram dev lawful n hw dest_ip dest_port src_port body found ld nz ls lp lq le s =
    let whole = datagram dest_port src_port body (htons s.check) in
    let (packet, c, sent) =
      ip_send-Carries dev lawful ip_p_udp 1 dest_ip (dev.ip n.device) whole n hw (omega arith)
        (omega arith) ld nz ls (omega arith) found in
    (
      packet,
      c,
      udp_send-ip_send dev dest_ip dest_port src_port body n lp lq le s
          ∙ ap (λ r. r >>= λ r. ok r.1) sent,
    )

-- A datagram of up to 1472 bytes from one machine to another. The devices are lawful, each machine
-- knows the hardware address of the other, these are six bytes long, and no address is 0. The
-- datagram goes out in one frame. The machine that takes this frame in finds the checksums right, and
-- sends one frame to the sender's hardware address, whose packet carries a datagram with the same
-- bytes to the sender's address and port, from the port that the first one went to.
pub udp_echo_lem :
    {D E : Type 0} (dev : NetDevice D) (peer : NetDevice E)
    → LawfulDevice dev
    → LawfulDevice peer
    → (n : Network D) (p : Network E) (hw back : Mac) (dest_ip dest_port src_port : ℕ)
      (body : List ℕ)
    → dest_hw dev dest_ip n ≡ ok (some hw)
    → dest_hw peer (dev.ip n.device) p ≡ ok (some back)
    → length hw ≡ 6
    → length (dev.dev_addr n.device) ≡ 6
    → dest_ip < u32_mod
    → dest_ip ≢ 0
    → dev.ip n.device < u32_mod
    → dev.ip n.device ≢ 0
    → peer.ip p.device < u32_mod
    → dest_port < u16_mod
    → src_port < u16_mod
    → all_bytes body ≡ true
    → length body ≤ 1472
    → (frame : List ℕ) × (udp_send dev dest_ip dest_port src_port body (length body) n
        ≡ (send_frame dev frame n >>= λ r. ok r.1))
      × SendsDatagram peer p back
          (dev.ip n.device)
          src_port
          dest_port
          body
          (reveice_callback peer frame p)
udp_echo_lem dev peer lawful answers n p hw back dest_ip dest_port src_port body found known six_d
      six_s ld nz ls nz_s lr lp lq h le =
    let src_ip = dev.ip n.device in
    let s = seal_datagram src_ip dest_ip dest_port src_port body ls ld lp lq h le in
    let whole = datagram dest_port src_port body (htons s.check) in
    let (packet, c, sent) =
      udp_send-SendsDatagram dev lawful n hw dest_ip dest_port src_port body found ld nz ls lp lq le
        s in
    let called =
      callback_lem peer hw (dev.dev_addr n.device) ip_p_udp dest_ip src_ip packet whole p
        (six hw six_d) (six (dev.dev_addr n.device) six_s) c in
    let dispatched = dispatch_lem peer ip_p_udp dest_ip src_ip packet whole p c (omega arith) in
    let received =
      udp_rcv_lem peer dest_ip src_ip dest_port src_port packet body p lp lq ls le s c in
    let t = seal_datagram (peer.ip p.device) src_ip src_port dest_port body lr ls lq lp h le in
    let (packet', c', sent') =
      udp_send-SendsDatagram peer answers p back src_ip src_port dest_port body known ls nz_s lr lq
        lp le t in
    (
      ip_frame hw (dev.dev_addr n.device) packet,
      sent,
      (
        packet',
        htons t.check,
        c',
        called
            ∙ ap (λ r. r >>= λ r. ok r.1) (dispatched ∙ received)
            ∙ answered (udp_send peer src_ip src_port dest_port body (length body) p)
            ∙ sent',
      ),
    )
