-- ===== src/Mm/Kmalloc/Free.antt =====
-- `kfree` of a live object.
use jnix.Prelude.{
  ℕ, zero, suc, ◌+◌, ◌-◌, ◌*◌, ◌%◌, ◌^◌, ◌≤◌, ◌≡◌, ◌≢◌, refl, sym, subst, ap, ◌∙◌, ◌⊎◌, inl, inr,
  true, false, none, some, List, [], ◌∷◌, arith, ◌==◌, ltb, Bool-cases, get_elem?, set,
  get_elem?-set_self, set-set, lt-length_of_some, ok,
}
use jnix.Mm.Page.{Ram, page_size, pa, free_page}
use jnix.Mm.Page.Alloc.{Freed, free_page_lem}
use jnix.Mm.Kmalloc.{
  Desc, Dir, Heap, store, remove_at, set_chain, page_of, find_page, find_in, find_owner, put_at,
  kfree,
}
use jnix.Mm.Kmalloc.Slots.{Live, set_live}
use jnix.Mm.Kmalloc.Bucket.{IsSlot, IsSlot-page, BucketIsValid-put}
use jnix.Mm.Kmalloc.Valid.{At, UsedPage, Owned, IsValid, some_inj}
use jnix.Mm.Kmalloc.Replace.{At-IsSize, IsValid-replace}
use jnix.Mm.Kmalloc.Remove.{IsValid-remove, used_page, page_address}

find_page_lem :
    (ds : List Desc) (page : ℕ)
    → ((j : ℕ) × (d : Desc) × (find_page ds page ≡ some j)
        × (get_elem? ds j ≡ some d)
        × (d.page ≡ page))
      ⊎ ((find_page ds page ≡ none)
          × ((j : ℕ) (d : Desc) → get_elem? ds j ≡ some d → d.page ≢ page))
unfolding find_page
find_page_lem [] page = inr (refl, λ j d e. absurd (ground arith))
find_page_lem (d ∷ ds) page = elim (Bool-cases (d.page == page)) [
  | inl here ↦ inl (0, d, rw here refl, refl, ground arith)
  | inr other ↦ elim (find_page_lem ds page) [
    | inl (j, d', e, at, q) ↦ inl (suc j, d', rw other (rw (e, find_page) refl), at, q)
    | inr (e, away) ↦ inr (rw other (rw (e, find_page) refl), farther other away)
  ]
]
  where
    farther :
        (d.page == page) ≡ false
        → ((j : ℕ) (d' : Desc) → get_elem? ds j ≡ some d' → d'.page ≢ page)
        → (j : ℕ) (d' : Desc) → get_elem? (d ∷ ds) j ≡ some d'
        → d'.page ≢ page
    farther other away zero d' e = ground arith
    farther other away (suc j) d' e = away j d' e

find_in_lem :
    (dir : Dir) (page size : ℕ)
    → ((j : ℕ) × (d : Desc) × (find_in dir page size ≡ some j)
        × (get_elem? dir.chain j ≡ some d)
        × (d.page ≡ page))
      ⊎ ((find_in dir page size ≡ none)
          × ((j : ℕ) (d : Desc) → get_elem? dir.chain j ≡ some d → size ≤ dir.size → d.page ≢ page))
unfolding find_in
find_in_lem dir page size = elim (Bool-cases (ltb dir.size size)) [
  | inl small ↦ inr (rw small refl, λ j d at le. absurd (ground arith))
  | inr large ↦ elim (find_page_lem dir.chain page) [
    | inl (j, d, e, at, q) ↦ inl (j, d, rw large e, at, q)
    | inr (e, away) ↦ inr (rw large e, λ j d at le. away j d at)
  ]
]

abbrev NoOwner : List Dir → ℕ → ℕ → Type 0
NoOwner dirs page size = (k j s : ℕ) (d : Desc) → At dirs k j s d → size ≤ s → d.page ≢ page

-- The search passes over no entry that is large enough.
find_owner_lem :
    (dirs : List Dir) (page size : ℕ)
    → ((k j s : ℕ) × (d : Desc) × (find_owner dirs page size ≡ some (k, j))
        × At dirs k j s d
        × (d.page ≡ page))
      ⊎ ((find_owner dirs page size ≡ none) × NoOwner dirs page size)
unfolding find_owner
find_owner_lem [] page size = inr (refl, λ k j s d at. absurd (let e = at.entry in ground arith))
find_owner_lem (dir ∷ dirs) page size = elim (find_in_lem dir page size) [
  | inl (j, d, e, at, q) ↦ inl (
    0,
    j,
    dir.size,
    d,
    rw (e, find_owner) refl,
    record { dir = dir; entry = refl; member = at; sized = refl },
    q,
  )
  | inr (e, none_here) ↦ elim (find_owner_lem dirs page size) [
    | inl (k, j, s, d, f, at, q) ↦ inl (
      suc k,
      j,
      s,
      d,
      rw (e, find_owner) (rw (f, find_owner) refl),
      record { dir = at.dir; entry = at.entry; member = at.member; sized = at.sized },
      q,
    )
    | inr (f, none_later) ↦
        inr (rw (e, find_owner) (rw (f, find_owner) refl), nowhere none_here none_later)
  ]
]
  where
    nowhere :
        ((j : ℕ) (d : Desc) → get_elem? dir.chain j ≡ some d → size ≤ dir.size → d.page ≢ page)
        → NoOwner dirs page size
        → NoOwner (dir ∷ dirs) page size
    nowhere none_here none_later zero j s d at le =
        let here : dir ≡ at.dir = some_inj at.entry in
        none_here j d (ap (λ (r : Dir). get_elem? r.chain j) here ∙ at.member)
          (subst (λ n. size ≤ n) (sym at.sized ∙ sym (ap (λ (r : Dir). r.size) here)) le)
    nowhere none_here none_later (suc k) j s d at le =
        none_later k j s d
          (record { dir = at.dir; entry = at.entry; member = at.member; sized = at.sized }) le

remove_at-set {ℓ} :
    {A : Type ℓ} (xs : List A) (j : ℕ) (x : A) → remove_at (set xs j x) j ≡ remove_at xs j
unfolding remove_at
remove_at-set [] j x = refl
remove_at-set (y ∷ ys) zero x = refl
remove_at-set (y ∷ ys) (suc j) x = ap (λ l. y ∷ l) (remove_at-set ys j x)

module _ {live : Live} {h : Heap} (v : IsValid live h) (k j : ℕ) (dir : Dir) (d : Desc)
    (e : get_elem? h.bucket_dir k ≡ some dir) (m : get_elem? dir.chain j ≡ some d) (x : ℕ)
    (slot : IsSlot d.page dir.size x) (alive : live x ≡ true) where
  abbrev freed_desc : Desc
  freed_desc = record d { freeptr = x; refcnt = (d.refcnt + (2 ^ 16 - 1)) % 2 ^ 16 }

  abbrev chain' : List Desc
  chain' = set dir.chain j freed_desc

  -- The object is back in its free list.
  abbrev put_heap : Heap
  put_heap = record h {
    ram = record h.ram { mem = store h.ram.mem x d.freeptr };
    bucket_dir = set_chain h k dir chain';
  }

  IsValid-put : IsValid (set_live live x false) put_heap
  IsValid-put =
      let fits = (v.sizes k dir e).0 in
      let b =
        v.buckets k j dir.size d (record { dir = dir; entry = e; member = m; sized = refl }) in
      let (lo, hi) = IsSlot-page fits d.page x slot in
      let big = fits.large in
      IsValid-replace v k dir e j d freed_desc m refl (store h.ram.mem x d.freeptr)
        (set_live live x false) (BucketIsValid-put fits b x slot alive)
        (λ a out. let apart : (a == x) ≡ false = ground arith in (rw apart refl, rw apart refl))
        (λ y on. inl (ground arith))

  abbrev put_dir : Dir
  put_dir = record dir { chain = chain' }

  put_entry : get_elem? put_heap.bucket_dir k ≡ some put_dir
  put_entry = get_elem?-set_self h.bucket_dir k put_dir (lt-length_of_some h.bucket_dir k e)

  put_member : get_elem? chain' j ≡ some freed_desc
  put_member = get_elem?-set_self dir.chain j freed_desc (lt-length_of_some dir.chain j m)

  put_page : UsedPage put_heap.ram.mem_map d.page
  put_page = used_page IsValid-put k j put_dir freed_desc put_entry put_member

  Freed-page :
      (ram : Ram) × (free_page (pa d.page) put_heap.ram ≡ ok ram)
      × Freed put_heap.ram put_page.index ram
  unfolding put_page
  Freed-page =
      let address = page_address IsValid-put k j put_dir freed_desc put_entry put_member in
      let fit = lt-length_of_some h.ram.mem_map put_page.index put_page.there in
      let (ram, f, freed) = free_page_lem put_heap.ram put_page.index 0 fit (omega arith) in
      let plain : put_page.index * page_size + 0 ≡ pa d.page = omega arith in
      (ram, subst (λ n. free_page n put_heap.ram ≡ ok ram) plain f, freed)

  -- With no reference left its page is given back too.
  drop-ok :
      (freed_desc.refcnt == 0) ≡ true
      → (h' : Heap) × (put_at k j x h ≡ ok h') × IsValid (set_live live x false) h'
  unfolding put_at put_page
  drop-ok zero_refs =
      let (ram', f, freed) = Freed-page in
      let gone =
        IsValid-remove IsValid-put k j put_dir freed_desc put_entry put_member
          (d.at ∷ h.free_bucket_desc) (ground arith) freed in
      let dirs : set_chain put_heap k put_dir (remove_at chain' j)
          ≡ set_chain h k dir (remove_at dir.chain j) =
        set-set h.bucket_dir k put_dir _
        ∙ ap (λ c. set_chain h k dir c) (remove_at-set dir.chain j freed_desc) in
      (
        record {
          ram = ram';
          bucket_dir = set_chain h k dir (remove_at dir.chain j);
          free_bucket_desc = d.at ∷ h.free_bucket_desc;
        },
        rw (e, put_at) (rw (m, put_at) (rw zero_refs (rw f refl))),
        subst
            (λ l.
              IsValid (set_live live x false) (record {
                ram = ram';
                bucket_dir = l;
                free_bucket_desc = d.at ∷ h.free_bucket_desc;
              }))
            dirs gone,
      )

  put_at_lem : (h' : Heap) × (put_at k j x h ≡ ok h') × IsValid (set_live live x false) h'
  unfolding put_at
  put_at_lem = elim (Bool-cases (freed_desc.refcnt == 0)) [
    | inl zero_refs ↦ drop-ok zero_refs
    | inr held ↦ (put_heap, rw (e, put_at) (rw (m, put_at) (rw held refl)), IsValid-put)
  ]

-- On a valid allocator, freeing a live object with its size or any smaller hint (0 where it is not
-- known) succeeds, and leaves a valid allocator in which the object alone is no longer live.
pub kfree_lem :
    (live : Live) (h : Heap) (x size : ℕ) (o : Owned h.bucket_dir x)
    → IsValid live h
    → live x ≡ true
    → size ≤ o.s
    → (h' : Heap) × (kfree x size h ≡ ok h') × IsValid (set_live live x false) h'
unfolding kfree
kfree_lem live h x size o v alive le =
    let fits = At-IsSize v o.at in
    let b = v.buckets o.k o.j o.s o.d o.at in
    let (lo, hi) = IsSlot-page fits o.d.page x o.slot in
    let big = fits.large in
    let al = b.aligned in
    let page : o.d.page ≡ page_of x = omega arith in
    elim (find_owner_lem h.bucket_dir (page_of x) size) [
      | inr (f, nobody) ↦ absurd (nobody o.k o.j o.s o.d o.at le page)
      | inl (k, j, s, d, f, at, q) ↦
          let (kk, jj) = v.once o.k o.j o.s o.d k j s d o.at at (page ∙ sym q) in
          let found : find_owner h.bucket_dir (page_of x) size ≡ some (o.k, o.j) =
            f ∙ ap (λ n. some (n, j)) (sym kk) ∙ ap (λ n. some (o.k, n)) (sym jj) in
          let (h', run, valid) =
            put_at_lem v o.k o.j o.at.dir o.d o.at.entry o.at.member x
              (subst (λ n. IsSlot o.d.page n x) (sym o.at.sized) o.slot) alive in
          (h', rw (found, kfree) run, valid)
    ]
