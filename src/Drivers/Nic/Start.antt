-- ===== src/Drivers/Nic/Start.antt =====
-- `am79c793_probe` and `init` of drivers/i386/am79c793.c. The registration of the interrupt handler
-- is left out; the three addresses that `init` allocates are parameters.
use jnix.Prelude.{
  ℕ, zero, suc, ◌+◌, ◌*◌, ◌/◌, ◌%◌, ◌<◌, ◌≡◌, refl, subst, ◌&&◌, Option, none, some, List, [], ◌∷◌,
  arith, ◌==◌, if◌then◌else◌, length, replicate, minus, u32_mod,
}
use mathlib.Core.Option.{none-ne-some, some-injective}
use jnix.Net.Arp.{Mac}
use jnix.Net.Device.{register_netdev}
use jnix.Drivers.Nic.{
  BufferDescriptor, Nic, buffer_size, rx_buffer_count, tx_buffer_count, data_port, add_port, outw,
}
use jnix.Drivers.Nic.Rings.{AllSized, IsValid}

abbrev pub busreg_port : ℕ
busreg_port = 0x16

-- `PCI_DEVICE_BA` and what `init` reads of a `PCI_DEVICE_DESC`; the first of `ba` is not looked at.
pub record PciDeviceBa : Type 0 where
  pub map_type : ℕ
  pub address : ℕ

pub record PciDeviceDesc : Type 0 where
  pub interrupt_line : ℕ
  pub ba : List PciDeviceBa

-- The loop of `am79c793_probe`: the first one that is mapped to ports.
unfoldable pub find_io : ℕ → List PciDeviceBa → ℕ
find_io io_base [] = io_base
find_io io_base (next ∷ ba) = if next.map_type == 1 then next.address else find_io io_base ba

abbrev pub behind_first : List PciDeviceBa → List PciDeviceBa
behind_first [] = []
behind_first (first ∷ ba) = ba

unfoldable pub am79c793_probe : Option PciDeviceDesc → Nic → ℕ × Nic
am79c793_probe none n = (minus 1, n)
am79c793_probe (some pdev) n =
    (0, record n { io_base = find_io n.io_base (behind_first pdev.ba); irq = pdev.interrupt_line })

abbrev pub new_send : BufferDescriptor
new_send = record { buffer = replicate buffer_size 0; flags = 0xF7FF; flags2 = 0; avail = 0 }

abbrev pub new_recv : BufferDescriptor
new_recv = record { buffer = replicate buffer_size 0; flags = 0x8000F7FF; flags2 = 0; avail = 0 }

-- `temp | 0xC00`
abbrev pub or_c00 : ℕ → ℕ
or_c00 temp = temp / 4096 * 4096 + 0xC00 + temp % 1024

-- `outw(add, io_base + ADD_PORT); outw(value, io_base + port);`
abbrev pub select : ℕ → ℕ → ℕ → Nic → Nic
select add value port n = outw value port (outw add add_port n)

module _ (inw : List (ℕ × ℕ) → ℕ → ℕ) (block send_pa recv_pa : ℕ) where
  -- The byte pairs at the ports 0, 2 and 4.
  abbrev pub read_mac : Nic → Mac
  read_mac n =
      inw n.writes n.io_base % 256
      ∷ inw n.writes n.io_base / 256 % 256
      ∷ inw n.writes (n.io_base + 2) % 256
      ∷ inw n.writes (n.io_base + 2) / 256 % 256
      ∷ inw n.writes (n.io_base + 4) % 256
      ∷ inw n.writes (n.io_base + 4) / 256 % 256
      ∷ []

  -- From the reading of the address to the two rings.
  unfoldable pub set_up : Nic → Nic
  set_up n =
      let n' = select 0 0x04 data_port (select 20 0x102 busreg_port n) in
      record n' {
        init_block = record {
          mode = 0;
          rlen = 5 * 16;
          tlen = 4 * 16;
          mac = read_mac n;
          reserved3 = 0;
          ladr_low = 0;
          ladr_hight = 0;
          recv_buffer_descr_address = recv_pa;
          send_buffer_descr_address = send_pa;
        };
        dev_addr = read_mac n;
        send_buffer_descr = replicate tx_buffer_count new_send;
        recv_buffer_descr = replicate rx_buffer_count new_recv;
        current_rx_buffer = 0;
        current_tx_buffer = 0;
      }

  -- From the address of the block to the last write.
  unfoldable pub activate : Nic → Nic
  activate n =
      let n₁ = select 2 (block / 65536 % 65536) data_port (select 1 (block % 65536) data_port n) in
      let n₂ = outw 4 add_port (select 0 0x41 data_port n₁) in
      let temp = inw n₂.writes (n₂.io_base + data_port) in
      select 0 0x42 data_port (select 4 (or_c00 temp) data_port n₂)

  -- The card was found.
  unfoldable pub init : Option PciDeviceDesc → Nic → ℕ × Nic
  init pdev n =
      let (ret, n') = am79c793_probe pdev n in
      if ret == minus 1 then (minus 1, n') else (0, activate (set_up n'))

  -- What `register_netdev` returns is not used.
  unfoldable pub am79c793_init : Option PciDeviceDesc → Nic → ℕ × Nic
  am79c793_init pdev n = let (ret, n') = register_netdev (some (init pdev)) n in (0, n')

-- The card's register `r`: the value that was last written to the data port with the register
-- selected; the last write comes first.
unfoldable pub csr : ℕ → ℕ → List (ℕ × ℕ) → Option ℕ
csr base r [] = none
csr base r ((port, value) ∷ []) = none
csr base r ((port, value) ∷ (port', add) ∷ writes) =
    let rest = csr base r ((port', add) ∷ writes) in
    if (port == base + data_port) && (port' == base + add_port) && (add == r)
    then some value
    else rest

pub replicate-AllSized :
    (k : ℕ) (d : BufferDescriptor) → length d.buffer ≡ buffer_size → AllSized (replicate k d)
replicate-AllSized zero d h i e at = absurd (none-ne-some e at)
replicate-AllSized (suc k) d h zero e at =
    subst (λ (f : BufferDescriptor). length f.buffer ≡ buffer_size) (some-injective d e at) h
replicate-AllSized (suc k) d h (suc i) e at = replicate-AllSized k d h i e at

-- A card that is found is set up: the rings have their shape, the receiving one with the card and
-- the sending one free, the registers 1 and 2 have the two halves of the block's address, and the
-- last two writes select register 0 and start the card.
pub init_lem :
    (inw : List (ℕ × ℕ) → ℕ → ℕ) (block send_pa recv_pa : ℕ) (pdev : PciDeviceDesc) (n : Nic)
    → block < u32_mod
    → (n' : Nic) × (init inw block send_pa recv_pa (some pdev) n ≡ (0, n'))
      × IsValid n'
      × (n'.send_buffer_descr ≡ replicate tx_buffer_count new_send)
      × (n'.recv_buffer_descr ≡ replicate rx_buffer_count new_recv)
      × (n'.dev_addr ≡ n'.init_block.mac)
      × (csr n'.io_base 0 n'.writes ≡ some 0x42)
      × ((earlier : List (ℕ × ℕ)) × (n'.writes
            ≡ (n'.io_base + data_port, 0x42) ∷ (n'.io_base + add_port, 0) ∷ earlier))
      × (low : ℕ) × (high : ℕ) × (csr n'.io_base 1 n'.writes ≡ some low)
      × (csr n'.io_base 2 n'.writes ≡ some high)
      × (low + 65536 * high ≡ block)
unfolding init am79c793_probe set_up activate outw csr
init_lem inw block send_pa recv_pa pdev n lt = (
  activate inw block send_pa recv_pa
      (set_up inw block send_pa recv_pa (am79c793_probe (some pdev) n).1),
  refl,
  record {
    tx_count = refl;
    rx_count = refl;
    tx_at = omega arith;
    rx_at = omega arith;
    tx_sized = replicate-AllSized tx_buffer_count new_send refl;
    rx_sized = replicate-AllSized rx_buffer_count new_recv refl;
  },
  refl,
  refl,
  refl,
  ground arith,
  (_, refl),
  block % 65536,
  block / 65536 % 65536,
  ground arith,
  ground arith,
  omega arith,
)
