-- ===== src/Drivers/Nic/Bursts.antt =====
-- Packets in a row for the card of drivers/i386/am79c793.c.
use jnix.Prelude.{
  ℕ, suc, ◌+◌, ◌%◌, ◌≤◌, ◌<◌, ◌≡◌, ◌≢◌, refl, ap, ◌∙◌, false, some, List, arith, get_elem?,
  get_elem?-set_ne, set,
}
use jnix.Drivers.Nic.{
  BufferDescriptor, Nic, tx_buffer_count, card_owns, next_tx, fill, outw, am79c793,
}
use jnix.Drivers.Nic.Rings.{IsValid}
use jnix.Drivers.Nic.Sending.{next_tx-mod, accepted, send-accepted, accepted-IsValid}
use jnix.Net.Device.{Serves}

-- The next `k` descriptors of the sending ring are free.
pub record Free (k : ℕ) (n : Nic) : Type 0 where
  pub valid : IsValid n
  pub few : k ≤ tx_buffer_count
  pub free :
      (i : ℕ)
      → i < k
      → (d : BufferDescriptor) × (get_elem? n.send_buffer_descr
            ((n.current_tx_buffer + i) % tx_buffer_count)
          ≡ some d)
        × (card_owns d ≡ false)

accepted-Free :
    (packet : List ℕ) (n : Nic) (d : BufferDescriptor) (k : ℕ)
    → Free (suc k) n
    → (i : ℕ) → i < k
    → (e : BufferDescriptor) × (get_elem?
          (accepted packet d n).send_buffer_descr
          (((accepted packet d n).current_tx_buffer + i) % tx_buffer_count)
        ≡ some e)
      × (card_owns e ≡ false)
unfolding accepted outw
accepted-Free packet n d k f i lt =
    let at = f.valid.tx_at in
    let most = f.few in
    let (e, there, free) = f.free (suc i) (omega arith) in
    let place : (next_tx n.current_tx_buffer + i) % tx_buffer_count
        ≡ (n.current_tx_buffer + suc i) % tx_buffer_count =
      ap (λ j. (j + i) % tx_buffer_count) (next_tx-mod n.current_tx_buffer at) ∙ omega arith in
    let apart : n.current_tx_buffer ≢ (n.current_tx_buffer + suc i) % tx_buffer_count =
      behind n.current_tx_buffer i at (omega arith) in
    (
      e,
      ap (get_elem? (set n.send_buffer_descr n.current_tx_buffer (fill packet d))) place
          ∙ get_elem?-set_ne n.send_buffer_descr (fill packet d) apart
          ∙ there,
      free,
    )
  where
    behind : (c i : ℕ) → c < 16 → i < 15 → c ≢ (c + suc i) % 16
    behind c i lc li = omega arith

same_addr :
    (packet : List ℕ) (d : BufferDescriptor) (n : Nic) → (accepted packet d n).dev_addr ≡ n.dev_addr
unfolding accepted outw
same_addr packet d n = refl

-- As long as descriptors are free, the card takes one frame after the other.
pub am79c793-Serves : Serves am79c793 Free
unfolding am79c793
am79c793-Serves = record {
  serve = λ k frame n f short.
      (let (d, at, free) = f.free 0 (omega arith) in
        let tx_at = f.valid.tx_at in
        let few = f.few in
        let here : get_elem? n.send_buffer_descr n.current_tx_buffer ≡ some d =
          ap (get_elem? n.send_buffer_descr) (omega arith) ∙ at in
        (
          accepted frame d n,
          send-accepted frame n d here free (omega arith),
          record {
            valid = accepted-IsValid frame n d f.valid here (omega arith);
            few = omega arith;
            free = accepted-Free frame n d k f;
          },
          same_addr frame d n,
        ));
}
