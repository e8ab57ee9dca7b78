-- ===== src/Net/Arp/Chains.antt =====
-- One bucket of the address map against the finite map that it stands for.
use jnix.Prelude.{
  ℕ, ◌+◌, ◌≤◌, ◌<◌, ◌≡◌, ◌≢◌, refl, ◌⊎◌, inl, inr, ◌&&◌, not, Bool, true, false, Option, none, some,
  List, [], ◌∷◌, arith, ◌==◌, if◌then◌else◌, Bool-cases, ok, fault,
}
use jnix.Net.Arp.{Mac, Entry, Bucket, has_ip, put_bucket, walk, unlink, remove_bucket}

-- The entries of a bucket.
unfoldable pub entries : Bucket → List Entry
entries b = if b.head.ip == 0 then [] else b.head ∷ b.next

unfoldable pub find : ℕ → List Entry → Option Mac
find ip [] = none
find ip (e ∷ es) = if e.ip == ip then some e.mac else find ip es

abbrev pub to_nat : Bool → ℕ
to_nat true = 1
to_nat false = 0

unfoldable pub count : ℕ → List Entry → ℕ
count ip [] = 0
count ip (e ∷ es) = to_nat (e.ip == ip) + count ip es

-- No address stands twice, none behind the first entry is 0, and an empty bucket has no chain.
pub record BucketIsValid (b : Bucket) : Type 0 where
  pub once : (ip : ℕ) → count ip (b.head ∷ b.next) ≤ 1
  pub nonzero : count 0 b.next ≡ 0
  pub empty : b.head.ip ≡ 0 → b.next ≡ []

find-none_of_count : (ip : ℕ) (es : List Entry) → count ip es ≡ 0 → find ip es ≡ none
unfolding count find
find-none_of_count ip [] h = refl
find-none_of_count ip (e ∷ es) h = ground (arith, find-none_of_count ip es)

has_ip-eq-count : (ip : ℕ) (es : List Entry) → count ip es ≤ 1 → to_nat (has_ip ip es) ≡ count ip es
unfolding count has_ip
has_ip-eq-count ip [] h = refl
has_ip-eq-count ip (e ∷ es) h = ground (arith, has_ip-eq-count ip es)

-- Looking an address up, on every branch: its bytes where it is present, nothing in an empty
-- bucket, and otherwise the walk runs off the end of the chain.
walk_lem :
    (ip : ℕ) (es : List Entry)
    → count 0 es ≡ 0
    → walk ip es ≡ elim (find ip es) [ some mac ↦ ok (some mac) | none ↦ fault ]
unfolding count find walk
walk_lem ip [] h = refl
walk_lem ip (e ∷ es) h = ground (arith, walk_lem ip es)

pub walk-bucket :
    (ip : ℕ) (b : Bucket)
    → BucketIsValid b
    → walk ip (b.head ∷ b.next) ≡ (
        if b.head.ip == 0
        then ok none
        else elim (find ip (entries b)) [ some mac ↦ ok (some mac) | none ↦ fault ])
unfolding find walk entries
walk-bucket ip b v = ground (arith, walk_lem ip b.next v.nonzero)

-- What `hash_put` does to the map of a bucket.
pub find-put_bucket :
    (ip : ℕ) (mac : Mac) (b : Bucket) (q : ℕ)
    → BucketIsValid b
    → ip ≢ 0
    → find q (entries (put_bucket ip mac b).0) ≡ (
        if has_ip ip (entries b) && not (b.head.ip == ip)
        then (if b.head.ip == q then some mac else find q (entries b))
        else (if ip == q then some mac else find q (entries b)))
unfolding find entries put_bucket
find-put_bucket ip mac b q v ne = elim (Bool-cases (b.head.ip == 0)) [
  | inl z ↦ let e = v.empty (ground arith) in ground arith
  | inr nz ↦
      ground (
        arith,
        has_ip-eq-count ip b.next,
        find-none_of_count ip b.next,
        v.once ip,
        v.once b.head.ip,
      )
]

pub put_bucket-BucketIsValid :
    (ip : ℕ) (mac : Mac) (b : Bucket)
    → BucketIsValid b
    → ip ≢ 0
    → BucketIsValid (put_bucket ip mac b).0
unfolding put_bucket count
put_bucket-BucketIsValid ip mac b v ne = record {
  once = λ q. ground (arith, v.empty, v.once q, v.once ip, has_ip-eq-count ip b.next);
  nonzero = ground (arith, v.nonzero, v.empty);
  empty = ground (arith, v.empty);
}

-- Only addresses that were there, and the new one, are there after `hash_put`.
pub count-put_bucket :
    (ip : ℕ) (mac : Mac) (b : Bucket) (q : ℕ)
    → q ≢ 0
    → 0 < count q ((put_bucket ip mac b).0.head ∷ (put_bucket ip mac b).0.next)
    → (ip ≡ q) ⊎ (0 < count q (b.head ∷ b.next))
unfolding put_bucket count
count-put_bucket ip mac b q nz h = elim (Bool-cases (ip == q)) [
  | inl same ↦ inl (ground arith)
  | inr other ↦ inr (ground arith)
]

unlink-gone : (ip : ℕ) (es : List Entry) → count ip es ≤ 1 → count ip (unlink ip es).0 ≡ 0
unfolding unlink count
unlink-gone ip [] h = refl
unlink-gone ip (e ∷ es) h = ground (arith, unlink-gone ip es)

unlink-count : (ip : ℕ) (es : List Entry) (q : ℕ) → ip ≢ q → count q (unlink ip es).0 ≡ count q es
unfolding unlink count
unlink-count ip [] q ne = refl
unlink-count ip (e ∷ es) q ne = ground (arith, unlink-count ip es q)

unlink-find : (ip : ℕ) (es : List Entry) (q : ℕ) → ip ≢ q → find q (unlink ip es).0 ≡ find q es
unfolding unlink find
unlink-find ip [] q ne = refl
unlink-find ip (e ∷ es) q ne = ground (arith, unlink-find ip es q)

abbrev bucket : Entry → List Entry → Bucket
bucket e es = record { head = e; next = es }

find-remove :
    (ip : ℕ) (e : Entry) (es : List Entry) (q : ℕ)
    → BucketIsValid (bucket e es)
    → ip ≢ 0
    → find q (entries (remove_bucket ip (bucket e es)).0)
      ≡ (if ip == q then none else find q (entries (bucket e es)))
unfolding find entries remove_bucket count
find-remove ip e [] q v ne = ground arith
find-remove ip e (t ∷ r) q v ne = ground (
  arith,
  v.nonzero,
  v.empty,
  v.once ip,
  v.once q,
  find-none_of_count q r,
  find-none_of_count q (unlink ip r).0,
  unlink-gone ip r,
  unlink-find ip r q,
)

-- `hash_remove` takes the address out of the map of a bucket, and no other.
pub find-remove_bucket :
    (ip : ℕ) (b : Bucket) (q : ℕ)
    → BucketIsValid b
    → ip ≢ 0
    → find q (entries (remove_bucket ip b).0) ≡ (if ip == q then none else find q (entries b))
find-remove_bucket ip b q v ne = find-remove ip b.head b.next q v ne

count-remove :
    (ip : ℕ) (e : Entry) (es : List Entry) (q : ℕ)
    → BucketIsValid (bucket e es)
    → q ≢ 0
    → count q ((remove_bucket ip (bucket e es)).0.head ∷ (remove_bucket ip (bucket e es)).0.next)
      ≤ count q (e ∷ es)
unfolding remove_bucket count
count-remove ip e [] q v ne = ground arith
count-remove ip e (t ∷ r) q v ne = elim (Bool-cases (ip == q)) [
  | inl same ↦ ground (arith, unlink-gone q r, v.once q)
  | inr other ↦ ground (arith, unlink-count ip r q)
]

pub count-remove_bucket :
    (ip : ℕ) (b : Bucket) (q : ℕ)
    → BucketIsValid b
    → q ≢ 0
    → count q ((remove_bucket ip b).0.head ∷ (remove_bucket ip b).0.next)
      ≤ count q (b.head ∷ b.next)
count-remove_bucket ip b q v ne = count-remove ip b.head b.next q v ne

remove-BucketIsValid :
    (ip : ℕ) (e : Entry) (es : List Entry)
    → BucketIsValid (bucket e es)
    → ip ≢ 0
    → BucketIsValid (remove_bucket ip (bucket e es)).0
unfolding remove_bucket count
remove-BucketIsValid ip e [] v ne = record {
  once = λ q. ground (arith, v.once q);
  nonzero = ground arith;
  empty = ground arith;
}
remove-BucketIsValid ip e (t ∷ r) v ne = record {
  once = λ q. elim (Bool-cases (q == 0)) [
    | inl zero_ip ↦
        let z : q ≡ 0 = ground arith in
        rw z (ground (arith, unlink-count ip r 0, v.nonzero, v.empty))
    | inr real ↦
        let le = count-remove ip e (t ∷ r) q v (ground arith) in let one = v.once q in omega arith
  ];
  nonzero = ground (arith, v.nonzero, v.empty, unlink-count ip r 0);
  empty = ground (arith, v.nonzero, v.empty, v.once 0);
}

pub remove_bucket-BucketIsValid :
    (ip : ℕ) (b : Bucket) → BucketIsValid b → ip ≢ 0 → BucketIsValid (remove_bucket ip b).0
remove_bucket-BucketIsValid ip b v ne = remove-BucketIsValid ip b.head b.next v ne
