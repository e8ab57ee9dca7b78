-- ===== src/Drivers/Nic/Interrupt.antt =====
-- The interrupt handler of drivers/i386/am79c793.c.
use jnix.Prelude.{
  ℕ, ◌+◌, ◌<◌, ◌≡◌, refl, sym, subst, ap, ◌∙◌, Bool, true, false, List, ◌∷◌, if◌then◌else◌, add32,
  ok, ◌>>=◌,
}
use jnix.Drivers.Nic.{
  Nic, data_port, add_port, receive, has_bit, count_errors, outw, am79c_interrupt_handle,
}
use jnix.Drivers.Nic.Rings.{UpTo, IsValid, Received, receive-IsValid, stopped, IsValid-Receiving}

pub outw-IsValid : (value port : ℕ) (n : Nic) → IsValid n → IsValid (outw value port n)
unfolding outw
outw-IsValid value port n v = record {
  tx_count = v.tx_count;
  rx_count = v.rx_count;
  tx_at = v.tx_at;
  rx_at = v.rx_at;
  tx_sized = v.tx_sized;
  rx_sized = v.rx_sized;
}

-- What the handler leaves: the status it read is written back after the reading, and its errors
-- are counted.
pub record Handled (inw : List (ℕ × ℕ) → ℕ → ℕ) (n n' : Nic) : Type 0 where
  pub temp : ℕ
  pub read : temp ≡ inw ((n.io_base + add_port, 0) ∷ n.writes) (n.io_base + data_port)
  pub writes :
      n'.writes
      ≡ (n.io_base + data_port, temp)
        ∷ (n.io_base + add_port, 0)
        ∷ (n.io_base + add_port, 0)
        ∷ n.writes
  pub tx_dropped :
      n'.tx_dropped ≡ (if has_bit temp 0x4000 then add32 n.tx_dropped 1 else n.tx_dropped)
  pub rx_dropped :
      n'.rx_dropped ≡ (if has_bit temp 0x1000 then add32 n.rx_dropped 1 else n.rx_dropped)
  pub valid : IsValid n'

-- The interrupt handler, on rings of the right shape of which the card holds a receiving descriptor at
-- the current position or behind it, the lengths of the whole frames before it fitting their buffers:
-- it returns. It has written back the status word that it read, counted the sender's and the
-- receiver's errors in it, and kept the shape of the rings.
pub am79c_interrupt_handle_lem :
    (inw : List (ℕ × ℕ) → ℕ → ℕ) (stop fuel : ℕ) (n : Nic)
    → IsValid n
    → UpTo n.recv_buffer_descr n.current_rx_buffer stop
    → stop < fuel + n.current_rx_buffer
    → (n' : Nic) × (am79c_interrupt_handle inw fuel n ≡ ok n') × Handled inw n n'
unfolding am79c_interrupt_handle outw
am79c_interrupt_handle_lem inw stop fuel n v u enough =
    let (n', run, r) = dispatched (has_bit temp 0x0400) in
    (
      outw temp data_port (outw 0 add_port n'),
      ap (λ m. m >>= λ n₃. ok (outw temp data_port (outw 0 add_port n₃))) run,
      record {
        temp = temp;
        read = refl;
        writes =
            ap (λ b. (b + data_port, temp) ∷ (b + add_port, 0) ∷ n'.writes) r.same_io_base
            ∙ ap (λ w. (n.io_base + data_port, temp) ∷ (n.io_base + add_port, 0) ∷ w) r.same_writes;
        tx_dropped = r.same_tx_dropped;
        rx_dropped = r.same_rx_dropped;
        valid =
            outw-IsValid temp data_port (outw 0 add_port n') (outw-IsValid 0 add_port n' r.valid);
      },
    )
  where
    temp : ℕ
    temp = inw ((n.io_base + add_port, 0) ∷ n.writes) (n.io_base + data_port)

    counted : Nic
    counted = count_errors temp (record n { writes = (n.io_base + add_port, 0) ∷ n.writes })

    counted_valid : IsValid counted
    counted_valid = record {
      tx_count = v.tx_count;
      rx_count = v.rx_count;
      tx_at = v.tx_at;
      rx_at = v.rx_at;
      tx_sized = v.tx_sized;
      rx_sized = v.rx_sized;
    }

    dispatched :
        (there : Bool)
        → (n' : Nic) × (elim there [ true ↦ receive fuel counted | false ↦ ok counted ] ≡ ok n')
          × Received counted n'
    dispatched true = receive-IsValid counted stop fuel counted_valid u enough
    dispatched false = (
      counted,
      refl,
      stopped counted counted (IsValid-Receiving counted counted_valid)
          (subst (λ k. n.current_rx_buffer < k) (sym v.rx_count) v.rx_at),
    )
