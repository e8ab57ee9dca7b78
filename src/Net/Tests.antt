-- ===== src/Net/Tests.antt =====
-- The address map and the IP header at concrete contents.
use jnix.Prelude.{
  ◌+◌, List, ◌-◌, ◌*◌, ℕ, zero, suc, ◌<◌, ◌%◌, ◌≡◌, ◌≢◌, refl, sym, subst, none, some, [], ◌∷◌,
  arith, ◌==◌, if◌then◌else◌, get_elem?, ok, fault,
}
use mathlib.Core.Option.{none-ne-some, some-injective}
use jnix.Net.Arp.{Bucket, HashMap, empty_bucket, hash_get, hash_put, hash_remove}
use jnix.Net.Arp.Chains.{count, BucketIsValid}
use jnix.Net.Bytes.{u16_mod, htons}
use jnix.Net.Ip.{ip_hdr_checksum}
use jnix.Net.Ip.Checksum.{word_sum, ip_hdr_checksum_lem}
use jnix.Net.Arp.Lookup.{
  IsValid, bucket_of, lookup, displaced, hash_get_lem, hash_put_lem, hash_remove_lem,
}

-- Addresses 7 and 9 in the second of two buckets.
abbrev filled : Bucket
filled = record {
  head = record { ip = 7; mac = 1 ∷ [] };
  next = record { ip = 9; mac = 2 ∷ [] } ∷ [];
}

abbrev map : HashMap
map = record { size = 2; list_size = 2; list = empty_bucket ∷ filled ∷ [] }

get_9 : hash_get map 9 ≡ ok (some (2 ∷ []))
unfolding hash_get
get_9 = refl

empty_valid : BucketIsValid empty_bucket
unfolding count
empty_valid = record { once = λ ip. ground arith; nonzero = refl; empty = λ h. refl }

filled_valid : BucketIsValid filled
unfolding count
filled_valid = record {
  once = λ ip. ground arith;
  nonzero = refl;
  empty = λ h. absurd (omega arith);
}

map_placed :
    (i : ℕ) (b : Bucket) (q : ℕ)
    → get_elem? map.list i ≡ some b
    → q ≢ 0
    → 0 < count q (b.head ∷ b.next)
    → q % 2 ≡ i
unfolding count
map_placed zero b q at nz there =
    let here =
      subst (λ (d : Bucket). 0 < count q (d.head ∷ d.next)) (sym (some-injective empty_bucket b at))
        there in
    ground arith
map_placed (suc zero) b q at nz there =
    let here =
      subst (λ (d : Bucket). 0 < count q (d.head ∷ d.next)) (sym (some-injective filled b at))
        there in
    ground arith
map_placed (suc (suc i)) b q at nz there = absurd (none-ne-some b at)

map_buckets : (i : ℕ) (b : Bucket) → get_elem? map.list i ≡ some b → BucketIsValid b
map_buckets zero b at = subst BucketIsValid (some-injective empty_bucket b at) empty_valid
map_buckets (suc zero) b at = subst BucketIsValid (some-injective filled b at) filled_valid
map_buckets (suc (suc i)) b at = absurd (none-ne-some b at)

map-IsValid : IsValid map
map-IsValid = record {
  sized = refl;
  positive = omega arith;
  buckets = map_buckets;
  placed = map_placed;
}

hash_get_lem_example :
    (b : Bucket) × (bucket_of map 9 ≡ some b)
    × (hash_get map 9 ≡ (
        if b.head.ip == 0
        then ok none
        else elim (lookup map 9) [ some mac ↦ ok (some mac) | none ↦ fault ]))
hash_get_lem_example = hash_get_lem map map-IsValid 9

hash_put_lem_example :
    (b : Bucket) × (m' : HashMap) × (bucket_of map 9 ≡ some b)
    × (hash_put map 9 (3 ∷ []) ≡ ok m')
    × IsValid m'
    × ((q : ℕ)
        → q ≢ 0
        → lookup m' q ≡ (
            if displaced 9 b
            then (if b.head.ip == q then some (3 ∷ []) else lookup map q)
            else (if 9 == q then some (3 ∷ []) else lookup map q)))
hash_put_lem_example = hash_put_lem map map-IsValid 9 (3 ∷ []) (omega arith)

hash_remove_lem_example :
    (m' : HashMap) × (hash_remove map 7 ≡ ok m')
    × IsValid m'
    × ((q : ℕ) → q ≢ 0 → lookup m' q ≡ (if 7 == q then none else lookup map q))
hash_remove_lem_example = hash_remove_lem map map-IsValid 7 (omega arith)

-- "abc", with an odd byte at the end.
abbrev letters : List ℕ
letters = 97 ∷ 98 ∷ 99 ∷ []

checksum_letters : ip_hdr_checksum letters 3 ≡ ok (65535 - (97 * 256 + 98 + 99))
unfolding ip_hdr_checksum htons
checksum_letters = refl

ip_hdr_checksum_lem_example :
    (c : ℕ) × (ip_hdr_checksum letters 3 ≡ ok c)
    × (c < u16_mod)
    × ((word_sum letters + c) % 65535 ≡ 0)
ip_hdr_checksum_lem_example = ip_hdr_checksum_lem letters refl (omega arith)
