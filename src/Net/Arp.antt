-- ===== src/Net/Arp.antt =====
-- net/arp.c: the hash map from addresses to hardware addresses. A bucket is an entry in the array
-- with a chain of entries behind it; address 0 marks a bucket that is empty.
pub mod Chains
pub mod Lookup
pub mod Start
use jnix.Prelude.{
  ℕ, zero, suc, ◌+◌, ◌-◌, ◌%◌, ◌||◌, Bool, true, false, Option, none, some, List, [], ◌∷◌, ◌==◌,
  if◌then◌else◌, length, get_elem?, set, replicate, add32, sub32, Run, ok, fault, ◌>>=◌, deref,
}

-- Six bytes, which are only copied.
abbrev pub Mac : Type 0
Mac = List ℕ

-- `struct hash_entry`; `next` is the position in the chain.
pub record Entry : Type 0 where
  pub ip : ℕ
  pub mac : Mac

pub record Bucket : Type 0 where
  pub head : Entry
  pub next : List Entry

-- `struct hash_map`; a null `list` is the empty list.
pub record HashMap : Type 0 where
  pub size : ℕ
  pub list_size : ℕ
  pub list : List Bucket

abbrev pub zero_mac : Mac
zero_mac = replicate 6 0

abbrev pub empty_bucket : Bucket
empty_bucket = record { head = record { ip = 0; mac = zero_mac }; next = [] }

unfoldable pub hash_code : HashMap → ℕ → ℕ
hash_code map ip = ip % map.list_size

-- `while (current != 0)`: whether some entry holds the address
unfoldable pub has_ip : ℕ → List Entry → Bool
has_ip ip [] = false
has_ip ip (e ∷ es) = (e.ip == ip) || has_ip ip es

-- The bucket after `hash_put`, and by how much `size` grows. An address that is found anywhere in
-- the chain has its bytes copied to `map->list[index].mac`.
unfoldable pub put_bucket : ℕ → Mac → Bucket → Bucket × ℕ
unfolding has_ip
put_bucket ip mac b =
    if b.head.ip == 0
    then (record b { head = record { ip = ip; mac = mac } }, 1)
    else if has_ip ip (b.head ∷ b.next)
    then (record b { head = record { ip = b.head.ip; mac = mac } }, 0)
    else (record b { next = record { ip = ip; mac = mac } ∷ b.next }, 1)

unfoldable pub hash_put : HashMap → ℕ → Mac → Run HashMap
unfolding hash_code put_bucket
hash_put map ip mac = do
  let index = hash_code map ip
  b ← deref (get_elem? map.list index)
  let r = put_bucket ip mac b
  ok (record map { size = add32 map.size r.1; list = set map.list index r.0 })

-- `while (e->ip != 0 && ip != e->ip) e = e->next;`: behind the last entry `e` is null.
unfoldable pub walk : ℕ → List Entry → Run (Option Mac)
walk ip [] = fault
walk ip (e ∷ es) = if e.ip == 0 then ok none else if ip == e.ip then ok (some e.mac) else walk ip es

unfoldable pub hash_get : HashMap → ℕ → Run (Option Mac)
unfolding hash_code walk
hash_get map ip = do b ← deref (get_elem? map.list (hash_code map ip)); walk ip (b.head ∷ b.next)

-- The walk of `hash_remove` over the entries behind the first.
unfoldable pub unlink : ℕ → List Entry → List Entry × ℕ
unlink ip [] = ([], 0)
unlink ip (e ∷ es) = let rest = unlink ip es in if e.ip == ip then (es, 1) else (e ∷ rest.0, rest.1)

-- The bucket after `hash_remove`, and by how much `size` shrinks.
unfoldable pub remove_bucket : ℕ → Bucket → Bucket × ℕ
unfolding unlink
remove_bucket ip b =
    if b.head.ip == 0
    then (b, 0)
    else if b.head.ip == ip
    then (elim b.next [
      | [] ↦ (record b { head = record { ip = 0; mac = zero_mac } }, 1)
      | temp ∷ rest ↦ (record { head = temp; next = rest }, 1)
    ])
    else (let (next, n) = unlink ip b.next in (record b { next = next }, n))

unfoldable pub hash_remove : HashMap → ℕ → Run HashMap
unfolding hash_code remove_bucket
hash_remove map ip = do
  let index = hash_code map ip
  b ← deref (get_elem? map.list index)
  let r = remove_bucket ip b
  ok (record map { size = sub32 map.size r.1; list = set map.list index r.0 })

-- `map->list = 0; map->size = 0;` on `arp_map`, whose cleared list nothing points to any more
unfoldable pub hash_clear : HashMap → HashMap
hash_clear map = record map { size = 0; list = [] }

-- `arp_init`: ten empty buckets
unfoldable pub arp_init : HashMap
arp_init = record { size = 0; list_size = 10; list = replicate 10 empty_bucket }
