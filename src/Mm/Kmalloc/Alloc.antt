-- ===== src/Mm/Kmalloc/Alloc.antt =====
-- `kmalloc`: it panics, or returns an object that was not live, and keeps the allocator valid.
use jnix.Prelude.{
  ℕ, zero, suc, ◌+◌, ◌-◌, ◌/◌, ◌%◌, ◌^◌, ◌≤◌, ◌<◌, ◌≡◌, ◌≢◌, refl, subst, ap, ◌⊎◌, inl, inr, true,
  false, none, some, List, [], ◌∷◌, ◌++◌, arith, ◌==◌, leb, Bool-cases, List-cases, get_elem?, set,
  get_elem?-set_self, lt-length_of_some, ok, panicked,
}
use jnix.Mm.Page.{Ram, page_size, va}
use jnix.Mm.Page.Alloc.{get_free_page_lem}
use jnix.Mm.Kmalloc.{
  Desc, Dir, Heap, set_chain, has_free, take_slot, find_dir, init_bucket_desc, ensure_desc,
  new_bucket, desc_addresses, take_from, kmalloc,
}
use jnix.Mm.Kmalloc.Slots.{Live, set_live}
use jnix.Mm.Kmalloc.Bucket.{IsSlot, IsSlot-page, head-IsSlot, BucketIsValid-take}
use jnix.Mm.Kmalloc.Valid.{At, Owned, IsValid, At-set_self}
use jnix.Mm.Kmalloc.Replace.{IsValid-replace}
use jnix.Mm.Kmalloc.Insert.{fresh_address, IsValid-claim, IsValid-carved}

desc_addresses-cons : (n p : ℕ) → 0 < n → desc_addresses n p ≡ p ∷ desc_addresses (n - 1) (p + 16)
unfolding desc_addresses
desc_addresses-cons zero p h = absurd (omega arith)
desc_addresses-cons (suc n) p h = ap (λ m. p ∷ desc_addresses m (p + 16)) (omega arith)

-- `init_bucket_desc` panics, or keeps the allocator valid and leaves spare descriptors.
ensure_desc_lem :
    {live : Live} (h : Heap)
    → IsValid live h
    → (ensure_desc h ≡ panicked)
      ⊎ ((ram : Ram) × (d : ℕ) × (ds : List ℕ) × (ensure_desc h
            ≡ ok (record h { ram = ram; free_bucket_desc = d ∷ ds }))
          × IsValid live (record h { ram = ram; free_bucket_desc = d ∷ ds }))
unfolding ensure_desc init_bucket_desc
ensure_desc_lem {live} h v = elim (List-cases h.free_bucket_desc) [
  | inr (d, ds, e) ↦ inr (
    h.ram,
    d,
    ds,
    rw (e, ensure_desc) (ap (λ l. ok (record h { free_bucket_desc = l })) e),
    record {
      sizes = v.sizes;
      buckets = v.buckets;
      once = v.once;
      pages = v.pages;
      owned = v.owned;
      few = v.few;
    },
  )
  | inl e ↦ elim (get_free_page_lem h.ram) [
    | inr (p, used) ↦ inl (rw (e, ensure_desc) (rw (p, init_bucket_desc) refl))
    | inl (i, addr, ram, took, t) ↦
        let fa = fresh_address v t in
        let nonzero : (va addr == 0) ≡ false = ground arith in
        inr (
          ram,
          va addr,
          desc_addresses (page_size / 16 - 1) (va addr + 16) ++ h.free_bucket_desc,
          rw (e, ensure_desc)
              (rw (took, init_bucket_desc)
                (rw (nonzero, desc_addresses-cons (page_size / 16) (va addr) (omega arith))
                  (ap
                    (λ l. ok (record h {
                      ram = ram;
                      free_bucket_desc =
                          va addr ∷ (desc_addresses (page_size / 16 - 1) (va addr + 16) ++ l);
                    }))
                    e))),
          IsValid-claim v t _,
        )
  ]
]

-- A new bucket keeps the allocator valid and has a free object.
new_bucket_lem :
    {live : Live} (h : Heap) (k : ℕ) (dir : Dir)
    → IsValid live h
    → get_elem? h.bucket_dir k ≡ some dir
    → (new_bucket k h ≡ panicked)
      ⊎ ((h' : Heap) × (chain : List Desc) × (new_bucket k h ≡ ok h')
          × IsValid live h'
          × (get_elem? h'.bucket_dir k ≡ some (record dir { chain = chain }))
          × (has_free chain ≡ true))
unfolding new_bucket has_free
new_bucket_lem h k dir v e = elim (ensure_desc_lem h v) [
  | inl p ↦ inl (rw p refl)
  | inr (ram, d, ds, q, v₁) ↦ elim (get_free_page_lem ram) [
    | inr (p, used) ↦ inl (rw (q, e) (rw p refl))
    | inl (i, addr, ram', took, t) ↦
        let fa = fresh_address v₁ t in
        let nonzero : (va addr == 0) ≡ false = ground arith in
        let v₂ : IsValid _ (record h { ram = ram; free_bucket_desc = ds }) = record {
          sizes = v₁.sizes;
          buckets = v₁.buckets;
          once = v₁.once;
          pages = v₁.pages;
          owned = v₁.owned;
          few = v₁.few;
        } in
        inr (
          _,
          _,
          rw (q, e) (rw took (rw nonzero refl)),
          IsValid-carved v₂ k dir e t d,
          get_elem?-set_self h.bucket_dir k _ (lt-length_of_some h.bucket_dir k e),
          rw nonzero refl,
        )
  ]
]

-- The search for a free object finds a descriptor with one, and takes its head.
take_slot_lem :
    (mem : ℕ → ℕ) (chain : List Desc)
    → has_free chain ≡ true
    → (j : ℕ) × (d : Desc) × (get_elem? chain j ≡ some d)
      × (d.freeptr ≢ 0)
      × (take_slot mem chain
          ≡ some (
            d.freeptr,
            set chain j (record d { freeptr = mem d.freeptr; refcnt = (d.refcnt + 1) % 2 ^ 16 }),
          ))
unfolding has_free take_slot
take_slot_lem mem [] h = absurd (ground arith)
take_slot_lem mem (d ∷ ds) h = elim (Bool-cases (d.freeptr == 0)) [
  | inr some_free ↦ (0, d, refl, ground arith, rw some_free refl)
  | inl empty ↦
      let (j, d', at, ne, e) = take_slot_lem mem ds (ground arith) in
      (suc j, d', at, ne, rw empty (rw (e, take_slot) refl))
]

-- The entry that `find_dir` gives is the first that is large enough.
pub record BestFit (dirs : List Dir) (len k : ℕ) : Type 0 where
  pub dir : Dir
  pub entry : get_elem? dirs k ≡ some dir
  pub enough : len ≤ dir.size
  pub first : (k' : ℕ) (dir' : Dir) → k' < k → get_elem? dirs k' ≡ some dir' → dir'.size < len

abbrev pub TooLarge : List Dir → ℕ → Type 0
TooLarge dirs len = (k : ℕ) (dir : Dir) → get_elem? dirs k ≡ some dir → dir.size < len

find_dir_lem :
    (dirs : List Dir) (len : ℕ)
    → ((find_dir dirs len ≡ none) × TooLarge dirs len)
      ⊎ ((k : ℕ) × (find_dir dirs len ≡ some k) × BestFit dirs len k)
unfolding find_dir
find_dir_lem [] len = inl (refl, λ k dir e. absurd (ground arith))
find_dir_lem (dir ∷ dirs) len = elim (Bool-cases (leb len dir.size)) [
  | inl fits ↦ inr (
    0,
    rw fits refl,
    record {
      dir = dir;
      entry = refl;
      enough = ground arith;
      first = λ k' dir' lt e. absurd (omega arith);
    },
  )
  | inr small ↦ elim (find_dir_lem dirs len) [
    | inl (e, large) ↦ inl (rw small (rw (e, find_dir) refl), larger small large)
    | inr (k, e, fit) ↦ inr (
      suc k,
      rw small (rw (e, find_dir) refl),
      record { dir = fit.dir; entry = fit.entry; enough = fit.enough; first = before small fit },
    )
  ]
]
  where
    larger : leb len dir.size ≡ false → TooLarge dirs len → TooLarge (dir ∷ dirs) len
    larger small large zero d e = ground arith
    larger small large (suc k) d e = large k d e

    before :
        {k : ℕ}
        → leb len dir.size ≡ false
        → BestFit dirs len k
        → (k' : ℕ) (d : Dir) → k' < suc k
        → get_elem? (dir ∷ dirs) k' ≡ some d
        → d.size < len
    before small fit zero d lt e = ground arith
    before small fit (suc k') d lt e = fit.first k' d (omega arith) e

-- What the caller gets: an object of the best-fitting entry that nobody holds, and a valid
-- allocator in which exactly this object is live besides those that were.
pub record Allocated (live : Live) (h : Heap) (len x : ℕ) (h' : Heap) : Type 0 where
  pub k : ℕ
  pub fit : BestFit h.bucket_dir len k
  pub was_dead : live x ≡ false
  pub valid : IsValid (set_live live x true) h'
  pub owner : Owned h'.bucket_dir x
  pub entry : owner.k ≡ k
  pub size : owner.s ≡ fit.dir.size

module _ {live : Live} (h : Heap) (len k : ℕ) (fit : BestFit h.bucket_dir len k) (h₁ : Heap)
    (v : IsValid live h₁) (chain : List Desc)
    (e : get_elem? h₁.bucket_dir k ≡ some (record fit.dir { chain = chain })) where
  abbrev dir₁ : Dir
  dir₁ = record fit.dir { chain = chain }

  take-Allocated :
      (j : ℕ) (d : Desc)
      → get_elem? chain j ≡ some d
      → d.freeptr ≢ 0
      → Allocated live h len d.freeptr (record h₁ {
        bucket_dir = set_chain h₁ k dir₁ (
            set chain j
              (record d { freeptr = h₁.ram.mem d.freeptr; refcnt = (d.refcnt + 1) % 2 ^ 16 }));
      })
  take-Allocated j d m ne =
      let d' : Desc = record d {
        freeptr = h₁.ram.mem d.freeptr;
        refcnt = (d.refcnt + 1) % 2 ^ 16;
      } in
      let at : At h₁.bucket_dir k j fit.dir.size d = record {
        dir = dir₁;
        entry = e;
        member = m;
        sized = refl;
      } in
      let fits = (v.sizes k dir₁ e).0 in
      let b = v.buckets k j fit.dir.size d at in
      let (slot, dead) = head-IsSlot fits b ne in
      let (lo, hi) = IsSlot-page fits d.page d.freeptr slot in
      let big = fits.large in
      record {
        k = k;
        fit = fit;
        was_dead = dead;
        valid =
            IsValid-replace v k dir₁ e j d d' m refl h₁.ram.mem (set_live live d.freeptr true)
              (BucketIsValid-take fits b ne)
              (λ a out.
                let apart : (a == d.freeptr) ≡ false = ground arith in (refl, rw apart refl))
              (λ x alive. elim (Bool-cases (x == d.freeptr)) [
                | inl same ↦
                    let q : d.freeptr ≡ x = ground arith in
                    inr (subst (λ y. IsSlot d.page fit.dir.size y) q slot)
                | inr other ↦ inl (ground arith)
              ]);
        owner = record {
          k = k;
          j = j;
          s = fit.dir.size;
          d = d';
          at =
              At-set_self h₁.bucket_dir k dir₁ (set chain j d') e
                (get_elem?-set_self chain j d' (lt-length_of_some chain j m));
          slot = slot;
        };
        entry = refl;
        size = refl;
      }

  -- The last part of `kmalloc`, once the entry has a free object.
  take-ok :
      has_free chain ≡ true
      → (x : ℕ) × (h' : Heap) × (take_from k h₁ ≡ ok (x, h')) × Allocated live h len x h'
  unfolding take_from
  take-ok free =
      let (j, d, m, ne, q) = take_slot_lem h₁.ram.mem chain free in
      (_, _, rw e (rw q refl), take-Allocated j d m ne)

-- On a valid allocator `kmalloc` either hands out an object that nobody holds, from the entry that
-- fits best, and the allocator stays valid with that object live; or it panics, and then the request
-- is larger than every entry, or no bucket of the best-fitting entry has a free object.
pub kmalloc_lem :
    (live : Live) (h : Heap) (len : ℕ)
    → IsValid live h
    → ((x : ℕ) × (h' : Heap) × (kmalloc len h ≡ ok (x, h')) × Allocated live h len x h')
      ⊎ ((kmalloc len h ≡ panicked)
          × (TooLarge h.bucket_dir len
              ⊎ ((k : ℕ) × (fit : BestFit h.bucket_dir len k) × (has_free fit.dir.chain ≡ false))))
unfolding kmalloc
kmalloc_lem live h len v = elim (find_dir_lem h.bucket_dir len) [
  | inl (e, large) ↦ inr (rw (e, kmalloc) refl, inl large)
  | inr (k, e, fit) ↦ elim (Bool-cases (has_free fit.dir.chain)) [
    | inl free ↦
        let (x, h', q, a) = take-ok h len k fit h v fit.dir.chain fit.entry free in
        inl (x, h', rw (e, kmalloc) (rw (fit.entry, kmalloc) (rw free q)), a)
    | inr full ↦ elim (new_bucket_lem h k fit.dir v fit.entry) [
      | inl p ↦
          inr (rw (e, kmalloc) (rw (fit.entry, kmalloc) (rw full (rw p refl))), inr (k, fit, full))
      | inr (h₁, chain, p, v₁, e₁, free) ↦
          let (x, h', q, a) = take-ok h len k fit h₁ v₁ chain e₁ free in
          inl (x, h', rw (e, kmalloc) (rw (fit.entry, kmalloc) (rw full (rw p q))), a)
    ]
  ]
]
