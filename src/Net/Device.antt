-- ===== src/Net/Device.antt =====
-- include/net/netdevice.h: what the network code asks of a device. The functions that
-- `struct net_device` points to are a record, which a driver fills.
use jnix.Prelude.{
  ℕ, suc, ◌∷◌, ◌≤◌, length, Option, none, some, List, ◌++◌, [], replicate, Run, ok, ◌>>=◌, ◌≡◌, ap,
  ◌∙◌,
}
use jnix.Net.Bytes.{htons}
use jnix.Net.Packet.{bytes16}
use jnix.Net.Arp.{Mac, HashMap}

-- `struct net_device` over the state `D` of its driver. `header_ops_create` may be null; where it
-- returns a negative number the header is none.
pub record NetDevice (D : Type 0) : Type 0 where
  pub dev_addr : D → Mac
  pub ip : D → ℕ
  pub header_ops_create : Option (D → ℕ → Mac → Option Mac → Option (List ℕ))
  pub send : List ℕ → D → Run (ℕ × D)

-- `register_netdev` of net/netdevice.c, with the device's `init`
abbrev pub register_netdev : {D : Type 0} → Option (D → ℕ × D) → D → ℕ × D
register_netdev none d = (0, d)
register_netdev (some init) d = init d

-- What the packets rely on: the header is the two addresses and the type, in network order.
pub record LawfulDevice {D : Type 0} (dev : NetDevice D) : Type 0 where
  pub create : D → ℕ → Mac → Option Mac → Option (List ℕ)
  pub is_set : dev.header_ops_create ≡ some create
  pub header :
      (d : D) (type : ℕ) (daddr saddr : Mac)
      → create d type daddr (some saddr) ≡ some (daddr ++ (saddr ++ bytes16 (htons type) []))

-- The network as the code keeps it: the device and `arp_map`.
pub record Network (D : Type 0) : Type 0 where
  pub device : D
  pub arp_map : HashMap

module _ {D : Type 0} (dev : NetDevice D) where
  -- The header is in cleared memory.
  unfoldable pub dev_hard_header : D → ℕ → Mac → Option Mac → Option (List ℕ)
  dev_hard_header d type daddr saddr = elim (dev.header_ops_create) [
    | none ↦ some (replicate 14 0)
    | some create ↦ create d type daddr saddr
  ]

  pub dev_hard_header_lem :
      LawfulDevice dev
      → (d : D) (type : ℕ) (daddr saddr : Mac)
      → dev_hard_header d type daddr (some saddr)
        ≡ some (daddr ++ (saddr ++ bytes16 (htons type) []))
  unfolding dev_hard_header
  dev_hard_header_lem lawful d type daddr saddr =
      ap header lawful.is_set ∙ lawful.header d type daddr saddr
    where
      header : Option (D → ℕ → Mac → Option Mac → Option (List ℕ)) → Option (List ℕ)
      header ops = elim ops [
        | none ↦ some (replicate 14 0)
        | some create ↦ create d type daddr (some saddr)
      ]

  -- `dev->send(dev, packet, size)`
  unfoldable pub send_frame : List ℕ → Network D → Run (ℕ × Network D)
  send_frame packet n = do (ret, d) ← dev.send packet n.device; ok (ret, record n { device = d })

-- A device that is `ready (suc k)` takes a frame of up to 1514 bytes, keeps its address, and is
-- `ready k` afterwards.
pub record Serves {D : Type 0} (dev : NetDevice D) (ready : ℕ → D → Type 0) : Type 0 where
  pub serve :
      (k : ℕ) (frame : List ℕ) (d : D)
      → ready (suc k) d
      → length frame ≤ 1514
      → (d' : D) × (dev.send frame d ≡ ok (0, d')) × ready k d' × (dev.dev_addr d' ≡ dev.dev_addr d)

-- The frames that take a device from one state to another, each of them accepted.
pub data Sends {D : Type 0} (dev : NetDevice D) : D → List (List ℕ) → D → Type 0 where
  sent_all : {d : D} → Sends dev d [] d
  sent :
      {d d' d'' : D} {frame : List ℕ} {frames : List (List ℕ)}
      → dev.send frame d ≡ ok (0, d')
      → Sends dev d' frames d''
      → Sends dev d (frame ∷ frames) d''
