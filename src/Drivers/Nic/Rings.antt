-- ===== src/Drivers/Nic/Rings.antt =====
-- The rings of drivers/i386/am79c793.c keep their shape.
use jnix.Prelude.{
  ℕ, zero, suc, ◌+◌, ◌%◌, ◌≤◌, ◌<◌, ◌≡◌, ◌≢◌, refl, sym, subst, ap, ◌∙◌, true, Bool-cases, inl, inr,
  some, List, [], ◌∷◌, arith, ◌==◌, length, length-set, get_elem?, get_elem?-set_self,
  get_elem?-set_ne, lt-length_of_some, set, sub32, ok, ◌>>=◌, ◌-◌, ◌++◌, get_elem?_of_lt,
}
use mathlib.Core.Option.{some-injective}
use jnix.Drivers.Nic.{
  BufferDescriptor, Nic, buffer_size, rx_buffer_count, tx_buffer_count, card_owns, whole_frame,
  take_frame, give_back, take_in, receive,
}
use jnix.Drivers.Nic.Receiving.{next_rx-small, receive-turn, receive-stop}
use jnix.Net.Packet.{first_bytes}

-- Every descriptor of the ring has its whole buffer.
abbrev pub AllSized : List BufferDescriptor → Type 0
AllSized ring =
    (i : ℕ) (d : BufferDescriptor) → get_elem? ring i ≡ some d → length d.buffer ≡ buffer_size

-- The rings of a card that `init` has set up.
pub record IsValid (n : Nic) : Type 0 where
  pub tx_count : length n.send_buffer_descr ≡ tx_buffer_count
  pub rx_count : length n.recv_buffer_descr ≡ rx_buffer_count
  pub tx_at : n.current_tx_buffer < tx_buffer_count
  pub rx_at : n.current_rx_buffer < rx_buffer_count
  pub tx_sized : AllSized n.send_buffer_descr
  pub rx_sized : AllSized n.recv_buffer_descr

pub set-AllSized :
    (ring : List BufferDescriptor) (i : ℕ) (d : BufferDescriptor)
    → AllSized ring
    → length d.buffer ≡ buffer_size
    → AllSized (set ring i d)
set-AllSized ring i d sized here j e at = elim (Bool-cases (i == j)) [
  | inl same ↦
      let i_j : i ≡ j = ground arith in
      let there : i < length ring =
        subst (λ k. i < k) (length-set ring i d)
          (lt-length_of_some (set ring i d) i (ap (get_elem? (set ring i d)) i_j ∙ at)) in
      let d_e : some d ≡ some e =
        sym (get_elem?-set_self ring i d there) ∙ ap (get_elem? (set ring i d)) i_j ∙ at in
      subst (λ (f : BufferDescriptor). length f.buffer ≡ buffer_size) (some-injective d e d_e) here
  | inr differs ↦
      let apart : i ≢ j = λ e. absurd (ground arith) in
      sized j e (sym (get_elem?-set_ne ring d apart) ∙ at)
]

-- A card as it was, but for the receiving ring and what was received; its position may lie one
-- behind the ring.
pub record Receiving (n : Nic) (n' : Nic) : Type 0 where
  pub tx_count : length n'.send_buffer_descr ≡ tx_buffer_count
  pub rx_count : length n'.recv_buffer_descr ≡ rx_buffer_count
  pub tx_at : n'.current_tx_buffer < tx_buffer_count
  pub rx_at : n'.current_rx_buffer ≤ rx_buffer_count
  pub tx_sized : AllSized n'.send_buffer_descr
  pub rx_sized : AllSized n'.recv_buffer_descr
  pub same_writes : n'.writes ≡ n.writes
  pub same_io_base : n'.io_base ≡ n.io_base
  pub same_tx_dropped : n'.tx_dropped ≡ n.tx_dropped
  pub same_rx_dropped : n'.rx_dropped ≡ n.rx_dropped

-- What a run of `receive` leaves.
pub record Received (n : Nic) (n' : Nic) : Type 0 where
  pub valid : IsValid n'
  pub same_writes : n'.writes ≡ n.writes
  pub same_io_base : n'.io_base ≡ n.io_base
  pub same_tx_dropped : n'.tx_dropped ≡ n.tx_dropped
  pub same_rx_dropped : n'.rx_dropped ≡ n.rx_dropped

first_bytes-total :
    (n : ℕ) (packet : List ℕ)
    → n ≤ length packet
    → (bytes : List ℕ) × (first_bytes n packet ≡ ok bytes)
unfolding first_bytes
first_bytes-total zero packet le = ([], refl)
first_bytes-total (suc n) [] le = absurd (omega arith)
first_bytes-total (suc n) (a ∷ packet) le =
    let (bytes, run) = first_bytes-total n packet (omega arith) in
    (a ∷ bytes, rw (run, first_bytes) refl)

-- Of a whole frame the card counts the four bytes of the checksum, and no more than fit a buffer.
abbrev pub LengthFits : BufferDescriptor → Type 0
LengthFits d = whole_frame d ≡ true → (4 ≤ d.flags2 % 4096) × (d.flags2 % 4096 ≤ buffer_size + 4)

take_frame-total :
    (d : BufferDescriptor)
    → length d.buffer ≡ buffer_size
    → LengthFits d
    → (frames : List (List ℕ)) × (take_frame d ≡ ok frames)
unfolding take_frame
take_frame-total d sized counts = elim (Bool-cases (whole_frame d)) [
  | inl whole ↦
      let (least, most) = counts whole in
      let left : sub32 (d.flags2 % 4096) 4 ≡ d.flags2 % 4096 - 4 = omega (arith, least) in
      let (bytes, run) =
        first_bytes-total (sub32 (d.flags2 % 4096) 4) d.buffer (omega (arith, left, most, sized)) in
      (bytes ∷ [], rw whole (rw run refl))
  | inr broken ↦ ([], rw broken refl)
]

-- What the card has written from the current descriptor on: there is one that it holds, and the
-- lengths of the whole frames before that one fit.
pub record UpTo (ring : List BufferDescriptor) (current stop : ℕ) : Type 0 where
  pub later : current ≤ stop
  pub holder : BufferDescriptor
  pub there : get_elem? ring stop ≡ some holder
  pub owned : card_owns holder ≡ true
  pub lengths :
      (i : ℕ) (d : BufferDescriptor)
      → current ≤ i
      → i < stop
      → get_elem? ring i ≡ some d
      → LengthFits d

-- The card after the descriptor at its position.
abbrev gone_on : Nic → BufferDescriptor → List (List ℕ) → Nic
gone_on n d frames = record n {
  recv_buffer_descr = set n.recv_buffer_descr n.current_rx_buffer (give_back d);
  current_rx_buffer = suc n.current_rx_buffer;
  received = n.received ++ frames;
}

take_in-gone_on :
    (n : Nic) (d : BufferDescriptor) (frames : List (List ℕ))
    → take_frame d ≡ ok frames
    → n.current_rx_buffer < rx_buffer_count
    → take_in d n ≡ ok (gone_on n d frames)
unfolding take_in
take_in-gone_on n d frames took inside =
    rw took (rw (next_rx-small n.current_rx_buffer inside) refl)

gone_on-Receiving :
    (n₀ n : Nic) (d : BufferDescriptor) (frames : List (List ℕ))
    → Receiving n₀ n
    → get_elem? n.recv_buffer_descr n.current_rx_buffer ≡ some d
    → Receiving n₀ (gone_on n d frames)
gone_on-Receiving n₀ n d frames r at = record {
  tx_count = r.tx_count;
  rx_count = length-set n.recv_buffer_descr n.current_rx_buffer (give_back d) ∙ r.rx_count;
  tx_at = r.tx_at;
  rx_at = omega (arith, lt-length_of_some n.recv_buffer_descr n.current_rx_buffer at, r.rx_count);
  tx_sized = r.tx_sized;
  rx_sized =
      set-AllSized n.recv_buffer_descr n.current_rx_buffer (give_back d) r.rx_sized
        (r.rx_sized n.current_rx_buffer d at);
  same_writes = r.same_writes;
  same_io_base = r.same_io_base;
  same_tx_dropped = r.same_tx_dropped;
  same_rx_dropped = r.same_rx_dropped;
}

gone_on-UpTo :
    (n : Nic) (d : BufferDescriptor) (frames : List (List ℕ)) (stop : ℕ)
    → UpTo n.recv_buffer_descr n.current_rx_buffer stop
    → n.current_rx_buffer < stop
    → UpTo (gone_on n d frames).recv_buffer_descr (suc n.current_rx_buffer) stop
gone_on-UpTo n d frames stop u before = record {
  later = omega arith;
  holder = u.holder;
  there = get_elem?-set_ne n.recv_buffer_descr (give_back d) (apart stop (omega arith)) ∙ u.there;
  owned = u.owned;
  lengths = λ i e le lt at.
      u.lengths i e (omega arith) lt
        (sym (get_elem?-set_ne n.recv_buffer_descr (give_back d) (apart i (omega arith))) ∙ at);
}
  where
    apart : (i : ℕ) → n.current_rx_buffer < i → n.current_rx_buffer ≢ i
    apart i lt = omega arith

pub stopped :
    (n₀ n : Nic) → Receiving n₀ n → n.current_rx_buffer < length n.recv_buffer_descr → Received n₀ n
stopped n₀ n r inside = record {
  valid = record {
    tx_count = r.tx_count;
    rx_count = r.rx_count;
    tx_at = r.tx_at;
    rx_at = omega (arith, inside, r.rx_count);
    tx_sized = r.tx_sized;
    rx_sized = r.rx_sized;
  };
  same_writes = r.same_writes;
  same_io_base = r.same_io_base;
  same_tx_dropped = r.same_tx_dropped;
  same_rx_dropped = r.same_rx_dropped;
}

receive_from :
    (n₀ : Nic) (fuel : ℕ) (n : Nic) (stop : ℕ)
    → Receiving n₀ n
    → UpTo n.recv_buffer_descr n.current_rx_buffer stop
    → stop < fuel + n.current_rx_buffer
    → (n' : Nic) × (receive fuel n ≡ ok n') × Received n₀ n'
receive_from n₀ zero n stop r u enough = absurd (omega (arith, u.later, enough))
receive_from n₀ (suc fuel) n stop r u enough =
    let present = lt-length_of_some n.recv_buffer_descr stop u.there in
    let inside : n.current_rx_buffer < length n.recv_buffer_descr =
      omega (arith, u.later, present) in
    let (d, at) = get_elem?_of_lt n.recv_buffer_descr n.current_rx_buffer inside in
    elim (Bool-cases (card_owns d)) [
      | inl owned ↦ (n, receive-stop fuel n d at owned, stopped n₀ n r inside)
      | inr free ↦
          let apart : n.current_rx_buffer ≢ stop = λ q. cc (
            sym (
              ap card_owns (
                some-injective d u.holder (sym at ∙ ap (get_elem? n.recv_buffer_descr) q ∙ u.there))
              ∙ u.owned)
            ∙ free) in
          let before : n.current_rx_buffer < stop = omega (arith, apart, u.later) in
          let (frames, took) =
            take_frame-total d (r.rx_sized n.current_rx_buffer d at)
              (u.lengths n.current_rx_buffer d (omega arith) before at) in
          let (n', run, left) =
            receive_from n₀ fuel (gone_on n d frames) stop (gone_on-Receiving n₀ n d frames r at)
              (gone_on-UpTo n d frames stop u before) (omega (arith, enough)) in
          (
            n',
            receive-turn fuel n d at free
                ∙ ap (λ m. m >>= receive fuel)
                    (take_in-gone_on n d frames took (omega (arith, inside, r.rx_count)))
                ∙ run,
            left,
          )
    ]

pub IsValid-Receiving : (n : Nic) → IsValid n → Receiving n n
IsValid-Receiving n v = record {
  tx_count = v.tx_count;
  rx_count = v.rx_count;
  tx_at = v.tx_at;
  rx_at = omega (arith, v.rx_at);
  tx_sized = v.tx_sized;
  rx_sized = v.rx_sized;
  same_writes = refl;
  same_io_base = refl;
  same_tx_dropped = refl;
  same_rx_dropped = refl;
}

-- On rings of the right shape, of which the card holds a receiving descriptor at the current position
-- or behind it, the lengths of the whole frames before it fitting their buffers: the loop of `receive`
-- comes to an end, in at most one turn more than there are descriptors before that one. It keeps the
-- rings' shape, writes to no port, and counts nothing as dropped.
pub receive-IsValid :
    (n : Nic) (stop fuel : ℕ)
    → IsValid n
    → UpTo n.recv_buffer_descr n.current_rx_buffer stop
    → stop < fuel + n.current_rx_buffer
    → (n' : Nic) × (receive fuel n ≡ ok n') × Received n n'
receive-IsValid n stop fuel v u enough = receive_from n fuel n stop (IsValid-Receiving n v) u enough
