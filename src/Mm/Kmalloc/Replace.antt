-- ===== src/Mm/Kmalloc/Replace.antt =====
-- A descriptor is changed in place, and its page with it: the step that `kmalloc` and `kfree` share.
use jnix.Prelude.{
  ℕ, ◌+◌, ◌%◌, ◌^◌, ◌≤◌, ◌<◌, ◌≡◌, ◌≢◌, refl, sym, subst, ap, ◌∙◌, ◌⊎◌, inl, inr, true, some, List,
  arith, ◌==◌, Bool-cases, get_elem?, set, get_elem?-set_self, get_elem?-set_ne, lt-length_of_some,
}
use jnix.Mm.Page.{page_size}
use jnix.Mm.Kmalloc.{Desc, Dir, Heap, set_chain}
use jnix.Mm.Kmalloc.Slots.{Live}
use jnix.Mm.Kmalloc.Bucket.{IsSize, IsSlot, BucketIsValid, BucketIsValid-frame}
use jnix.Mm.Kmalloc.Valid.{At, UsedPage, IsValid, some_inj, At-set, At-set_ne, At-set_self}

-- Memory and live objects are as before outside the page `q`.
abbrev pub SameOutside : (mem mem' : ℕ → ℕ) → (live live' : Live) → ℕ → Type 0
SameOutside mem mem' live live' q =
    (a : ℕ) → (a < q) ⊎ (q + page_size ≤ a) → (mem' a ≡ mem a) × (live' a ≡ live a)

-- A bucket of another page stays valid.
pub BucketIsValid-apart :
    {size : ℕ} {mem mem' : ℕ → ℕ} {live live' : Live} {d : Desc} (q : ℕ)
    → IsSize size
    → BucketIsValid mem live size d
    → d.page ≢ q
    → q % page_size ≡ 0
    → SameOutside mem mem' live live' q
    → BucketIsValid mem' live' size d
BucketIsValid-apart {mem'} {live'} q fits v ne aligned same =
    BucketIsValid-frame fits v mem' live' (λ a lo hi. let g = v.aligned in same a (omega arith))

module _ {live : Live} {h : Heap} (v : IsValid live h) where
  pub At-IsSize : {k j s : ℕ} {d : Desc} → At h.bucket_dir k j s d → IsSize s
  At-IsSize {k} at = subst IsSize at.sized (v.sizes k at.dir at.entry).0

  module _ (k : ℕ) (dir : Dir) (e : get_elem? h.bucket_dir k ≡ some dir) where
    pub sizes-set_chain :
        (chain : List Desc) (k' : ℕ) (dir' : Dir)
        → get_elem? (set_chain h k dir chain) k' ≡ some dir'
        → IsSize dir'.size × (dir'.size < 2 ^ 16)
    sizes-set_chain chain k' dir' e' = elim (Bool-cases (k' == k)) [
      | inl same ↦
          let ek : k ≡ k' = ground arith in
          let here =
            get_elem?-set_self h.bucket_dir k (record dir { chain = chain })
              (lt-length_of_some h.bucket_dir k e) in
          let got : record dir { chain = chain } ≡ dir' =
            some_inj (sym here ∙ ap (λ i. get_elem? (set_chain h k dir chain) i) ek ∙ e') in
          subst (λ (r : Dir). IsSize r.size × (r.size < 2 ^ 16)) got (v.sizes k dir e)
      | inr other ↦
          let ne : k ≢ k' = ground arith in
          v.sizes k' dir'
            (sym (get_elem?-set_ne h.bucket_dir (record dir { chain = chain }) ne) ∙ e')
    ]

    module _ (j : ℕ) (d d' : Desc) (m : get_elem? dir.chain j ≡ some d)
        (paged : d'.page ≡ d.page) where
      old-At : At h.bucket_dir k j dir.size d
      old-At = record { dir = dir; entry = e; member = m; sized = refl }

      -- A descriptor of the new table is the changed one, or an old one at its old place.
      At-replace :
          {k' j' s' : ℕ} {d₁ : Desc}
          → At (set_chain h k dir (set dir.chain j d')) k' j' s' d₁
          → ((k' ≡ k) × (j' ≡ j) × (dir.size ≡ s') × (d' ≡ d₁))
            ⊎ (At h.bucket_dir k' j' s' d₁ × ((k' ≢ k) ⊎ (j' ≢ j)))
      At-replace {k'} {j'} {s'} {d₁} at =
          elim (At-set h.bucket_dir k dir (set dir.chain j d') e at) [
            | inl (ek, es, got) ↦ elim (Bool-cases (j' == j)) [
              | inl same ↦
                  let ej : j' ≡ j = ground arith in
                  let here = get_elem?-set_self dir.chain j d' (lt-length_of_some dir.chain j m) in
                  inl (
                    ek,
                    ej,
                    es,
                    some_inj (sym here ∙ ap (λ i. get_elem? (set dir.chain j d') i) (sym ej) ∙ got),
                  )
              | inr other ↦
                  let ne : j ≢ j' = ground arith in
                  inr (
                    record {
                      dir = dir;
                      entry = ap (λ i. get_elem? h.bucket_dir i) ek ∙ e;
                      member = sym (get_elem?-set_ne dir.chain d' ne) ∙ got;
                      sized = es;
                    },
                    inr (λ q. ne (sym q)),
                  )
            ]
            | inr (ne, old) ↦ inr (old, inl ne)
          ]

      At-before :
          {k' j' s' : ℕ} {d₁ : Desc}
          → At (set_chain h k dir (set dir.chain j d')) k' j' s' d₁
          → (d₀ : Desc) × At h.bucket_dir k' j' s' d₀ × (d₀.page ≡ d₁.page)
      At-before {k'} {j'} {s'} {d₁} at = elim (At-replace at) [
        | inl (ek, ej, es, ed) ↦ (
          d,
          record {
            dir = dir;
            entry = ap (λ i. get_elem? h.bucket_dir i) ek ∙ e;
            member = ap (λ i. get_elem? dir.chain i) ej ∙ m;
            sized = es;
          },
          sym paged ∙ ap (λ (r : Desc). r.page) ed,
        )
        | inr (old, away) ↦ (d₁, old, refl)
      ]

      At-after :
          {k' j' s' : ℕ} {d₁ : Desc}
          → At h.bucket_dir k' j' s' d₁
          → (d₂ : Desc) × At (set_chain h k dir (set dir.chain j d')) k' j' s' d₂
            × (d₂.page ≡ d₁.page)
      At-after {k'} {j'} {s'} {d₁} at = elim (Bool-cases (k' == k)) [
        | inr other ↦ (d₁, At-set_ne h.bucket_dir k _ (ground arith) at, refl)
        | inl same ↦
            let ek : k ≡ k' = ground arith in
            let got : at.dir ≡ dir =
              some_inj (sym at.entry ∙ ap (λ i. get_elem? h.bucket_dir i) (sym ek) ∙ e) in
            let old : get_elem? dir.chain j' ≡ some d₁ =
              ap (λ (r : Dir). get_elem? r.chain j') (sym got) ∙ at.member in
            let size : dir.size ≡ s' = ap (λ (r : Dir). r.size) (sym got) ∙ at.sized in
            let place = λ (d₂ : Desc) (g : get_elem? (set dir.chain j d') j' ≡ some d₂).
              subst (λ i. At (set_chain h k dir (set dir.chain j d')) i j' s' d₂) ek
                (subst (λ s. At (set_chain h k dir (set dir.chain j d')) k j' s d₂) size
                  (At-set_self h.bucket_dir k dir (set dir.chain j d') e g)) in
            elim (Bool-cases (j' == j)) [
              | inr far ↦
                  let ne : j ≢ j' = ground arith in
                  (d₁, place d₁ (get_elem?-set_ne dir.chain d' ne ∙ old), refl)
              | inl near ↦
                  let ej : j ≡ j' = ground arith in
                  let here = get_elem?-set_self dir.chain j d' (lt-length_of_some dir.chain j m) in
                  let was : d ≡ d₁ = some_inj (sym m ∙ ap (λ i. get_elem? dir.chain i) ej ∙ old) in
                  (
                    d',
                    place d' (ap (λ i. get_elem? (set dir.chain j d') i) (sym ej) ∙ here),
                    paged ∙ ap (λ (r : Desc). r.page) was,
                  )
            ]
      ]

      -- The invariant survives, if the changed bucket is valid and nothing changes outside its
      -- page.
      pub IsValid-replace :
          (mem' : ℕ → ℕ) (live' : Live)
          → BucketIsValid mem' live' dir.size d'
          → SameOutside h.ram.mem mem' live live' d.page
          → ((x : ℕ) → live' x ≡ true → (live x ≡ true) ⊎ IsSlot d.page dir.size x)
          → IsValid live' (record h {
            ram = record h.ram { mem = mem' };
            bucket_dir = set_chain h k dir (set dir.chain j d');
          })
      IsValid-replace mem' live' valid same grown = record {
        sizes = sizes-set_chain (set dir.chain j d');
        buckets = λ k' j' s' d₁ at. elim (At-replace at) [
          | inl (ek, ej, es, ed) ↦
              subst (λ r. BucketIsValid mem' live' s' r) ed
                (subst (λ s. BucketIsValid mem' live' s d') es valid)
          | inr (old, away) ↦
              BucketIsValid-apart d.page (At-IsSize old) (v.buckets k' j' s' d₁ old)
                (λ q.
                  let both = v.once k' j' s' d₁ k j dir.size d old old-At q in
                  elim away [ inl n ↦ n both.0 | inr n ↦ n both.1 ])
                (v.buckets k j dir.size d old-At).aligned same
        ];
        once = λ k₁ j₁ s₁ d₁ k₂ j₂ s₂ d₂ a b q.
            let (d₃, a', qa) = At-before a in
            let (d₄, b', qb) = At-before b in
            v.once k₁ j₁ s₁ d₃ k₂ j₂ s₂ d₄ a' b' (qa ∙ q ∙ sym qb);
        pages = λ k₁ j₁ s₁ d₁ a.
            let (d₃, a', qa) = At-before a in
            subst (λ p. UsedPage h.ram.mem_map p) qa (v.pages k₁ j₁ s₁ d₃ a');
        owned = λ x alive. elim (grown x alive) [
          | inl was ↦
              let o = v.owned x was in
              let (d₂, a, q) = At-after o.at in
              record {
                k = o.k;
                j = o.j;
                s = o.s;
                d = d₂;
                at = a;
                slot = subst (λ p. IsSlot p o.s x) (sym q) o.slot;
              }
          | inr slot ↦
              let (d₂, a, q) = At-after old-At in
              record {
                k = k;
                j = j;
                s = dir.size;
                d = d₂;
                at = a;
                slot = subst (λ p. IsSlot p dir.size x) (sym q) slot;
              }
        ];
        few = v.few;
      }
