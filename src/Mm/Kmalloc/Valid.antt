-- ===== src/Mm/Kmalloc/Valid.antt =====
-- The whole allocator: which descriptors stand where, and the invariant that ties the table of
-- pages, the chains and the live objects together.
use jnix.Prelude.{
  ℕ, ◌*◌, ◌%◌, ◌^◌, ◌≤◌, ◌<◌, ◌≡◌, ◌≢◌, refl, sym, ap, ◌∙◌, ◌⊎◌, inl, inr, true, some, List, arith,
  ◌==◌, Bool-cases, length, get_elem?, set, get_elem?-set_self, get_elem?-set_ne, lt-length_of_some,
  u32_mod,
}
use jnix.Mm.Page.{Page, page_size, va, in_use}
use jnix.Mm.Kmalloc.{Desc, Dir, Heap}
use jnix.Mm.Kmalloc.Slots.{Live}
use jnix.Mm.Kmalloc.Bucket.{IsSize, IsSlot, BucketIsValid}

-- The descriptor at position `j` of the chain of entry `k`, whose size is `s`.
pub record At (dirs : List Dir) (k j s : ℕ) (d : Desc) : Type 0 where
  pub dir : Dir
  pub entry : get_elem? dirs k ≡ some dir
  pub member : get_elem? dir.chain j ≡ some d
  pub sized : dir.size ≡ s

-- The page at virtual address `q` is in use in the table of pages.
pub record UsedPage (table : List Page) (q : ℕ) : Type 0 where
  pub index : ℕ
  pub page : Page
  pub there : get_elem? table index ≡ some page
  pub used : in_use page ≡ true
  pub address : q ≡ va (index * page_size % u32_mod)

-- The live object `x` belongs to a bucket.
pub record Owned (dirs : List Dir) (x : ℕ) : Type 0 where
  pub k : ℕ
  pub j : ℕ
  pub s : ℕ
  pub d : Desc
  pub at : At dirs k j s d
  pub slot : IsSlot d.page s x

-- 896 MB of pages, the HIGH_MEMORY of the source
abbrev pub max_pages : ℕ
max_pages = 0x38000

pub record IsValid (live : Live) (h : Heap) : Type 0 where
  pub sizes :
      (k : ℕ) (dir : Dir)
      → get_elem? h.bucket_dir k ≡ some dir
      → IsSize dir.size × (dir.size < 2 ^ 16)
  pub buckets : (k j s : ℕ) (d : Desc) → At h.bucket_dir k j s d → BucketIsValid h.ram.mem live s d
  pub once :
      (k j s : ℕ) (d : Desc) (k' j' s' : ℕ) (d' : Desc)
      → At h.bucket_dir k j s d
      → At h.bucket_dir k' j' s' d'
      → d.page ≡ d'.page
      → (k ≡ k') × (j ≡ j')
  pub pages : (k j s : ℕ) (d : Desc) → At h.bucket_dir k j s d → UsedPage h.ram.mem_map d.page
  pub owned : (x : ℕ) → live x ≡ true → Owned h.bucket_dir x
  pub few : length h.ram.mem_map ≤ max_pages

pub some_inj {ℓ} : {A : Type ℓ} {a b : A} → some a ≡ some b → a ≡ b
some_inj h = cc

-- What stands in the table after the chain of entry `k` is replaced.
pub At-set :
    (dirs : List Dir) (k : ℕ) (dir : Dir) (chain : List Desc) {k' j' s' : ℕ} {d' : Desc}
    → get_elem? dirs k ≡ some dir
    → At (set dirs k (record dir { chain = chain })) k' j' s' d'
    → ((k' ≡ k) × (dir.size ≡ s') × (get_elem? chain j' ≡ some d'))
      ⊎ ((k' ≢ k) × At dirs k' j' s' d')
At-set dirs k dir chain {k'} {j'} {s'} {d'} e at = elim (Bool-cases (k' == k)) [
  | inl same ↦
      let ek : k' ≡ k = ground arith in
      let here =
        get_elem?-set_self dirs k (record dir { chain = chain }) (lt-length_of_some dirs k e) in
      let got : at.dir ≡ record dir { chain = chain } = some_inj (
        sym at.entry
        ∙ ap (λ i. get_elem? (set dirs k (record dir { chain = chain })) i) ek
        ∙ here) in
      inl (
        ek,
        sym (ap (λ (r : Dir). r.size) got) ∙ at.sized,
        sym (ap (λ (r : Dir). get_elem? r.chain j') got) ∙ at.member,
      )
  | inr other ↦
      let ne : k' ≢ k = ground arith in
      inr (
        ne,
        record {
          dir = at.dir;
          entry =
              sym (get_elem?-set_ne dirs (record dir { chain = chain }) (λ q. ne (sym q)))
              ∙ at.entry;
          member = at.member;
          sized = at.sized;
        },
      )
]

-- The other way round, at another entry.
pub At-set_ne :
    (dirs : List Dir) (k : ℕ) (dir : Dir) {k' j' s' : ℕ} {d' : Desc}
    → k' ≢ k
    → At dirs k' j' s' d'
    → At (set dirs k dir) k' j' s' d'
At-set_ne dirs k dir ne at = record {
  dir = at.dir;
  entry = get_elem?-set_ne dirs dir (λ q. ne (sym q)) ∙ at.entry;
  member = at.member;
  sized = at.sized;
}

-- And at the entry itself.
pub At-set_self :
    (dirs : List Dir) (k : ℕ) (dir : Dir) (chain : List Desc) {j' : ℕ} {d' : Desc}
    → get_elem? dirs k ≡ some dir
    → get_elem? chain j' ≡ some d'
    → At (set dirs k (record dir { chain = chain })) k j' dir.size d'
At-set_self dirs k dir chain e m = record {
  dir = record dir { chain = chain };
  entry = get_elem?-set_self dirs k (record dir { chain = chain }) (lt-length_of_some dirs k e);
  member = m;
  sized = refl;
}
