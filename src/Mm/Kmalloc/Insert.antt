-- ===== src/Mm/Kmalloc/Insert.antt =====
-- A page is taken from the table of pages, and becomes the bucket at the head of a chain.
use jnix.Prelude.{
  ℕ, zero, suc, ◌+◌, ◌*◌, ◌/◌, ◌%◌, ◌^◌, ◌<◌, ◌≡◌, ◌≢◌, refl, sym, subst, ap, ◌∙◌, ◌⊎◌, inl, inr,
  true, false, some, List, ◌∷◌, arith, ◌==◌, if◌then◌else◌, Bool-cases, get_elem?,
  lt-length_of_some,
}
use jnix.Mm.Page.{Ram, page_size, va, in_use}
use jnix.Mm.Page.Alloc.{Taken}
use jnix.Mm.Kmalloc.{Desc, Dir, Heap, set_chain, carve}
use jnix.Mm.Kmalloc.Slots.{Live, carve-outside}
use jnix.Mm.Kmalloc.Bucket.{
  IsSlot-page, BucketIsValid, objects, objects_pos, slot_bound, BucketIsValid-carve,
}
use jnix.Mm.Kmalloc.Valid.{
  At, UsedPage, IsValid, max_pages, some_inj, At-set, At-set_ne, At-set_self,
}
use jnix.Mm.Kmalloc.Replace.{SameOutside, BucketIsValid-apart, At-IsSize, sizes-set_chain}

module _ {live : Live} {h : Heap} (v : IsValid live h) {i addr : ℕ} {ram : Ram}
    (t : Taken h.ram i addr ram) where
  index_bound : i < max_pages
  index_bound =
      let g = lt-length_of_some h.ram.mem_map i t.was_free.1 in let f = v.few in omega arith

  pub fresh_address : va addr ≡ i * page_size + 0xC0000000
  fresh_address = let a = t.address in let b = index_bound in omega arith

  pub not_owned : {k j s : ℕ} {d : Desc} → At h.bucket_dir k j s d → d.page ≢ va addr
  not_owned {k} {j} {s} {d} at q =
      let u = v.pages k j s d at in
      let low = lt-length_of_some h.ram.mem_map u.index u.there in
      let f = v.few in
      let ua = u.address in
      let fa = fresh_address in
      let same : u.index ≡ i = omega arith in
      let (p, e, free) = t.was_free in
      let pp : u.page ≡ p = some_inj (sym u.there ∙ ap (λ n. get_elem? h.ram.mem_map n) same ∙ e) in
      let used = subst (λ r. in_use r ≡ true) pp u.used in cc (sym used ∙ free)

  used_before : {q : ℕ} → UsedPage h.ram.mem_map q → UsedPage ram.mem_map q
  used_before {q} u =
      let (p, e, free) = t.was_free in
      let ne : u.index ≢ i = λ same.
        let pp : u.page ≡ p =
          some_inj (sym u.there ∙ ap (λ n. get_elem? h.ram.mem_map n) same ∙ e) in
        cc (sym (subst (λ r. in_use r ≡ true) pp u.used) ∙ free) in
      record {
        index = u.index;
        page = u.page;
        there = t.others u.index ne ∙ u.there;
        used = u.used;
        address = u.address;
      }

  -- The page alone, not yet in any chain: every bucket is as before.
  pub IsValid-claim : (ds : List ℕ) → IsValid live (record h { ram = ram; free_bucket_desc = ds })
  IsValid-claim ds = record {
    sizes = v.sizes;
    buckets = λ k j s d at.
        BucketIsValid-apart (va addr) (At-IsSize v at) (v.buckets k j s d at) (not_owned at)
          (let fa = fresh_address in omega arith) (λ a out. (t.kept a out, refl));
    once = v.once;
    pages = λ k j s d at. used_before (v.pages k j s d at);
    owned = v.owned;
    few = let f = v.few in let g = t.size in omega arith;
  }

-- Positions in the chain of entry `k` move up by one.
abbrev shift : ℕ → ℕ → ℕ → ℕ
shift k k' j = if k' == k then suc j else j

module _ {live : Live} {h : Heap} (v : IsValid live h) (k : ℕ) (dir : Dir)
    (e : get_elem? h.bucket_dir k ≡ some dir) (d' : Desc) where
  abbrev inserted : List Dir
  inserted = set_chain h k dir (d' ∷ dir.chain)

  -- A descriptor of the new table is the new one, or an old one.
  At-insert :
      {k' j' s' : ℕ} {d₁ : Desc}
      → At inserted k' j' s' d₁
      → ((k' ≡ k) × (j' ≡ 0) × (dir.size ≡ s') × (d' ≡ d₁))
        ⊎ ((j₀ : ℕ) × At h.bucket_dir k' j₀ s' d₁ × (j' ≡ shift k k' j₀))
  At-insert {k'} {j'} {s'} {d₁} at = elim (At-set h.bucket_dir k dir (d' ∷ dir.chain) e at) [
    | inl (ek, es, got) ↦ go j' got ek es
    | inr (ne, old) ↦ inr (j', old, ground arith)
  ]
    where
      go :
          (n : ℕ)
          → get_elem? (d' ∷ dir.chain) n ≡ some d₁
          → k' ≡ k
          → dir.size ≡ s'
          → ((k' ≡ k) × (n ≡ 0) × (dir.size ≡ s') × (d' ≡ d₁))
            ⊎ ((j₀ : ℕ) × At h.bucket_dir k' j₀ s' d₁ × (n ≡ shift k k' j₀))
      go zero g ek es = inl (ek, refl, es, some_inj g)
      go (suc n) g ek es = inr (
        n,
        record {
          dir = dir;
          entry = ap (λ m. get_elem? h.bucket_dir m) ek ∙ e;
          member = g;
          sized = es;
        },
        ground arith,
      )

  At-shift :
      {k' j' s' : ℕ} {d₁ : Desc}
      → At h.bucket_dir k' j' s' d₁
      → At inserted k' (shift k k' j') s' d₁
  At-shift {k'} {j'} {s'} {d₁} at = elim (Bool-cases (k' == k)) [
    | inr other ↦ rw other (At-set_ne h.bucket_dir k _ (ground arith) at)
    | inl same ↦
        let ek : k ≡ k' = ground arith in
        let got : at.dir ≡ dir =
          some_inj (sym at.entry ∙ ap (λ m. get_elem? h.bucket_dir m) (sym ek) ∙ e) in
        let old = ap (λ (r : Dir). get_elem? r.chain j') (sym got) ∙ at.member in
        let size : dir.size ≡ s' = ap (λ (r : Dir). r.size) (sym got) ∙ at.sized in
        rw same (
          subst (λ n. At inserted n (suc j') s' d₁) ek
            (subst (λ s. At inserted k (suc j') s d₁) size
              (At-set_self h.bucket_dir k dir (d' ∷ dir.chain) e old)))
  ]

  new-At : At inserted k 0 dir.size d'
  new-At = At-set_self h.bucket_dir k dir (d' ∷ dir.chain) e refl

  -- A valid bucket on a page of its own joins the chain.
  pub IsValid-insert :
      (mem' : ℕ → ℕ)
      → d'.page % page_size ≡ 0
      → ((k' j' s' : ℕ) (d : Desc) → At h.bucket_dir k' j' s' d → d.page ≢ d'.page)
      → UsedPage h.ram.mem_map d'.page
      → BucketIsValid mem' live dir.size d'
      → SameOutside h.ram.mem mem' live live d'.page
      → IsValid live (record h { ram = record h.ram { mem = mem' }; bucket_dir = inserted })
  IsValid-insert mem' aligned fresh used valid same = record {
    sizes = sizes-set_chain v k dir e (d' ∷ dir.chain);
    buckets = λ k₁ j₁ s₁ d₁ at. elim (At-insert at) [
      | inl (ek, ej, es, ed) ↦
          subst (λ r. BucketIsValid mem' live s₁ r) ed
            (subst (λ s. BucketIsValid mem' live s d') es valid)
      | inr (j₀, old, ej) ↦
          BucketIsValid-apart d'.page (At-IsSize v old) (v.buckets k₁ j₀ s₁ d₁ old)
            (fresh k₁ j₀ s₁ d₁ old) aligned same
    ];
    once = λ k₁ j₁ s₁ d₁ k₂ j₂ s₂ d₂ a b q. elim (At-insert a) [
      | inl (ek, ej, es, ed) ↦ elim (At-insert b) [
        | inl (ek', ej', es', ed') ↦ (ek ∙ sym ek', ej ∙ sym ej')
        | inr (j₀, old, ej') ↦
            absurd (fresh k₂ j₀ s₂ d₂ old (sym q ∙ sym (ap (λ (r : Desc). r.page) ed)))
      ]
      | inr (j₀, old, ej) ↦ elim (At-insert b) [
        | inl (ek', ej', es', ed') ↦
            absurd (fresh k₁ j₀ s₁ d₁ old (q ∙ sym (ap (λ (r : Desc). r.page) ed')))
        | inr (j₃, old', ej') ↦
            let (kk, jj) = v.once k₁ j₀ s₁ d₁ k₂ j₃ s₂ d₂ old old' q in (kk, ground arith)
      ]
    ];
    pages = λ k₁ j₁ s₁ d₁ a. elim (At-insert a) [
      | inl (ek, ej, es, ed) ↦ subst (λ (r : Desc). UsedPage h.ram.mem_map r.page) ed used
      | inr (j₀, old, ej) ↦ v.pages k₁ j₀ s₁ d₁ old
    ];
    owned = λ x alive.
        let o = v.owned x alive in
        record {
          k = o.k;
          j = shift k o.k o.j;
          s = o.s;
          d = o.d;
          at = At-shift o.at;
          slot = o.slot;
        };
    few = v.few;
  }

-- A page that has just been taken is carved, and the bucket on it joins the chain of entry `k`.
module _ {live : Live} {h : Heap} (v : IsValid live h) (k : ℕ) (dir : Dir)
    (e : get_elem? h.bucket_dir k ≡ some dir) {i addr : ℕ} {ram : Ram} (t : Taken h.ram i addr ram)
    (at : ℕ) where
  abbrev pub carved : Desc
  carved = record {
    at = at;
    page = va addr;
    freeptr = va addr;
    refcnt = 0;
    bucket_size = dir.size % 2 ^ 16;
  }

  dead_slots : (n : ℕ) → n < objects dir.size → live (va addr + n * dir.size) ≡ false
  dead_slots n lt = elim (Bool-cases (live (va addr + n * dir.size))) [
    | inr dead ↦ dead
    | inl alive ↦
        let o = v.owned (va addr + n * dir.size) alive in
        let (lo, hi) = IsSlot-page (At-IsSize v o.at) o.d.page (va addr + n * dir.size) o.slot in
        let bound = slot_bound (v.sizes k dir e).0 n lt in
        let a = (v.buckets o.k o.j o.s o.d o.at).aligned in
        let fa = fresh_address v t in
        let big = (At-IsSize v o.at).large in
        let big' = (v.sizes k dir e).0.large in absurd (not_owned v t o.at (omega arith))
  ]

  pub IsValid-carved : IsValid live (record h {
    ram = record ram { mem = carve (page_size / dir.size) dir.size (va addr) ram.mem };
    bucket_dir = set_chain h k dir (carved ∷ dir.chain);
  })
  IsValid-carved =
      let (fits, small) = v.sizes k dir e in
      let fa = fresh_address v t in
      let aligned : va addr % page_size ≡ 0 = omega arith in
      IsValid-insert (IsValid-claim v t h.free_bucket_desc) k dir e carved
        (carve (page_size / dir.size) dir.size (va addr) ram.mem) aligned
        (λ k' j' s' d old. not_owned v t old)
        (record {
          index = i;
          page = t.now_used.0;
          there = t.now_used.1;
          used = t.now_used.2;
          address = ap va t.address;
        })
        (BucketIsValid-carve fits ram.mem live (va addr) at aligned (omega arith) small dead_slots)
        (λ a out.
          let w = fits.whole in
          let big = fits.large in
          (
            carve-outside dir.size (omega arith) (page_size / dir.size) (va addr) ram.mem a
                (objects_pos fits) (omega arith),
            refl,
          ))
