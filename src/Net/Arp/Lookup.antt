-- ===== src/Net/Arp/Lookup.antt =====
-- The address map of net/arp.c against a finite map: what `hash_get`, `hash_put` and `hash_remove`
-- do to the bytes that an address has.
use jnix.Prelude.{
  ℕ, ◌%◌, ◌<◌, ◌≡◌, ◌≢◌, refl, sym, subst, ap, ◌∙◌, ◌⊎◌, inl, inr, ◌&&◌, not, Bool, false, Option,
  none, some, ◌∷◌, arith, ◌==◌, if◌then◌else◌, Bool-cases, length, get_elem?, set,
  get_elem?-set_self, get_elem?-set_ne, length-set, get_elem?_of_lt, lt-length_of_some, ok, fault,
}
use jnix.Prelude.{add32, sub32}
use jnix.Net.Arp.{
  Mac, Bucket, HashMap, has_ip, put_bucket, hash_put, hash_get, remove_bucket, hash_remove,
}
use jnix.Net.Arp.Chains.{
  entries, find, count, BucketIsValid, walk-bucket, find-put_bucket, put_bucket-BucketIsValid,
  count-put_bucket, find-remove_bucket, remove_bucket-BucketIsValid, count-remove_bucket,
}

pub record IsValid (m : HashMap) : Type 0 where
  pub sized : length m.list ≡ m.list_size
  pub positive : 0 < m.list_size
  pub buckets : (i : ℕ) (b : Bucket) → get_elem? m.list i ≡ some b → BucketIsValid b
  pub placed :
      (i : ℕ) (b : Bucket) (q : ℕ)
      → get_elem? m.list i ≡ some b
      → q ≢ 0
      → 0 < count q (b.head ∷ b.next)
      → q % m.list_size ≡ i

-- The bucket of an address.
abbrev pub bucket_of : HashMap → ℕ → Option Bucket
bucket_of m ip = get_elem? m.list (ip % m.list_size)

-- The bytes that the map holds for an address.
unfoldable pub lookup : HashMap → ℕ → Option Mac
lookup m ip = elim (bucket_of m ip) [ none ↦ none | some b ↦ find ip (entries b) ]

-- The address is present, behind another one at the head of its bucket.
abbrev pub displaced : ℕ → Bucket → Bool
displaced ip b = has_ip ip (entries b) && not (b.head.ip == ip)

module _ (m : HashMap) (v : IsValid m) (ip : ℕ) where
  bucket_at : (b : Bucket) × (bucket_of m ip ≡ some b)
  bucket_at =
      let s = v.sized in
      let p = v.positive in get_elem?_of_lt m.list (ip % m.list_size) (grind arith)

  -- Looking up in a well-formed map: the bytes of an address that is present. For one that is absent the code answers
  -- "none" only if its bucket is empty; if the bucket holds other addresses the walk reads through
  -- a null pointer.
  pub hash_get_lem :
      (b : Bucket) × (bucket_of m ip ≡ some b)
      × (hash_get m ip ≡ (
          if b.head.ip == 0
          then ok none
          else elim (lookup m ip) [ some mac ↦ ok (some mac) | none ↦ fault ]))
  unfolding hash_get lookup
  hash_get_lem =
      let (b, e) = bucket_at in (b, e, rw (e, hash_get) ((walk-bucket ip b (v.buckets _ b e))))

  -- The map after the bucket of `ip` is replaced.
  module _ (b b' : Bucket) (e : bucket_of m ip ≡ some b) (n : ℕ) where
    abbrev replaced : HashMap
    replaced = record m { size = n; list = set m.list (ip % m.list_size) b' }

    lookup-replaced :
        (q : ℕ)
        → lookup replaced q
          ≡ (if q % m.list_size == ip % m.list_size then find q (entries b') else lookup m q)
    unfolding lookup
    lookup-replaced q = elim (Bool-cases (q % m.list_size == ip % m.list_size)) [
      | inl same ↦
          let at : q % m.list_size ≡ ip % m.list_size = ground arith in
          let here =
            get_elem?-set_self m.list (ip % m.list_size) b'
              (lt-length_of_some m.list (ip % m.list_size) e) in
          let here' = subst (λ k. get_elem? replaced.list k ≡ some b') (sym at) here in
          rw same (rw (here', lookup) refl)
      | inr other ↦
          let ne : ip % m.list_size ≢ q % m.list_size = ground arith in
          rw other (rw (get_elem?-set_ne m.list b' ne, lookup) refl)
    ]

    bucket-replaced :
        (i : ℕ) (c : Bucket)
        → get_elem? replaced.list i ≡ some c
        → ((i ≡ ip % m.list_size) × (b' ≡ c)) ⊎ (get_elem? m.list i ≡ some c)
    bucket-replaced i c at = elim (Bool-cases (i == ip % m.list_size)) [
      | inl same ↦
          let q : i ≡ ip % m.list_size = ground arith in
          let here =
            get_elem?-set_self m.list (ip % m.list_size) b'
              (lt-length_of_some m.list (ip % m.list_size) e) in
          let at' = subst (λ k. get_elem? replaced.list k ≡ some c) q at in
          inl (q, cc (sym here ∙ at'))
      | inr other ↦
          let ne : ip % m.list_size ≢ i = ground arith in
          inr (sym (get_elem?-set_ne m.list b' ne) ∙ at)
    ]

    replaced-IsValid :
        BucketIsValid b'
        → ((q : ℕ)
            → q ≢ 0
            → 0 < count q (b'.head ∷ b'.next)
            → (ip ≡ q) ⊎ (0 < count q (b.head ∷ b.next)))
        → IsValid replaced
    replaced-IsValid valid from = record {
      sized = length-set m.list (ip % m.list_size) b' ∙ v.sized;
      positive = v.positive;
      buckets = λ i c at. elim (bucket-replaced i c at) [
        | inl (same, new) ↦ subst BucketIsValid new valid
        | inr old ↦ v.buckets i c old
      ];
      placed = λ i c q at nz there. elim (bucket-replaced i c at) [
        | inr old ↦ v.placed i c q old nz there
        | inl (same, new) ↦
            let there' = subst (λ (d : Bucket). 0 < count q (d.head ∷ d.next)) (sym new) there in
            elim (from q nz there') [
              | inl mine ↦ ap (λ k. k % m.list_size) (sym mine) ∙ sym same
              | inr old ↦ v.placed (ip % m.list_size) b q e nz old ∙ sym same
            ]
      ];
    }

    lookup-same : (q : ℕ) → q % m.list_size ≡ ip % m.list_size → lookup m q ≡ find q (entries b)
    unfolding lookup
    lookup-same q same =
        let here = subst (λ k. get_elem? m.list k ≡ some b) (sym same) e in rw (here, lookup) refl

    head_elsewhere : (q : ℕ) → q ≢ 0 → q % m.list_size ≢ ip % m.list_size → (b.head.ip == q) ≡ false
    unfolding count
    head_elsewhere q nz away = elim (Bool-cases (b.head.ip == q)) [
      | inr other ↦ other
      | inl same ↦ absurd (away (v.placed (ip % m.list_size) b q e nz (ground arith)))
    ]

    ip_elsewhere : (q : ℕ) → q % m.list_size ≢ ip % m.list_size → (ip == q) ≡ false
    ip_elsewhere q away = elim (Bool-cases (ip == q)) [
      | inr other ↦ other
      | inl same ↦
          let here : ip ≡ q = ground arith in absurd (away (ap (λ k. k % m.list_size) (sym here)))
    ]

  -- What `hash_put` makes of a well-formed map, at an address that is not 0. An address that is new, or at the head of its bucket, gets
  -- the bytes, and no other address changes. But bytes for an address that is present behind the
  -- head of its bucket go to the address at the head, and the address itself keeps its old ones.
  pub hash_put_lem :
      (mac : Mac)
      → ip ≢ 0
      → (b : Bucket) × (m' : HashMap) × (bucket_of m ip ≡ some b)
        × (hash_put m ip mac ≡ ok m')
        × IsValid m'
        × ((q : ℕ)
            → q ≢ 0
            → lookup m' q ≡ (
                if displaced ip b
                then (if b.head.ip == q then some mac else lookup m q)
                else (if ip == q then some mac else lookup m q)))
  unfolding hash_put
  hash_put_lem mac ne =
      let (b, e) = bucket_at in
      let valid = v.buckets _ b e in
      let b' = (put_bucket ip mac b).0 in
      let n = add32 m.size (put_bucket ip mac b).1 in
      (
        b,
        replaced b b' e n,
        e,
        rw (e, hash_put) refl,
        replaced-IsValid b b' e n (put_bucket-BucketIsValid ip mac b valid ne)
            (count-put_bucket ip mac b),
        λ q nz. elim (Bool-cases (q % m.list_size == ip % m.list_size)) [
          | inl same ↦ ground (
            arith,
            lookup-replaced b b' e n q,
            lookup-same b b' e n q,
            find-put_bucket ip mac b q valid ne,
          )
          | inr other ↦ ground (
            arith,
            lookup-replaced b b' e n q,
            head_elsewhere b b' e n q nz,
            ip_elsewhere b b' e n q,
          )
        ],
      )

  -- On a well-formed map `hash_remove` of an address that is not 0 succeeds, keeps the map well formed,
  -- and takes out that address and no other.
  pub hash_remove_lem :
      ip ≢ 0
      → (m' : HashMap) × (hash_remove m ip ≡ ok m')
        × IsValid m'
        × ((q : ℕ) → q ≢ 0 → lookup m' q ≡ (if ip == q then none else lookup m q))
  unfolding hash_remove
  hash_remove_lem ne =
      let (b, e) = bucket_at in
      let valid = v.buckets _ b e in
      let b' = (remove_bucket ip b).0 in
      let n = sub32 m.size (remove_bucket ip b).1 in
      (
        replaced b b' e n,
        rw (e, hash_remove) refl,
        replaced-IsValid b b' e n (remove_bucket-BucketIsValid ip b valid ne)
            (λ q nz there. let le = count-remove_bucket ip b q valid nz in inr (omega arith)),
        λ q nz. elim (Bool-cases (q % m.list_size == ip % m.list_size)) [
          | inl same ↦ ground (
            arith,
            lookup-replaced b b' e n q,
            lookup-same b b' e n q,
            find-remove_bucket ip b q valid ne,
          )
          | inr other ↦ ground (arith, lookup-replaced b b' e n q, ip_elsewhere b b' e n q)
        ],
      )
