-- ===== src/Mm/Kmalloc/Client.antt =====
-- What the holder of an object may rely on: objects do not overlap, a write inside a live object
-- leaves the allocator valid, and `kzmalloc` returns cleared memory.
use jnix.Prelude.{
  ℕ, ◌+◌, ◌-◌, ◌*◌, ◌≤◌, ◌<◌, ◌≡◌, ◌≢◌, refl, sym, subst, ap, ◌∙◌, ◌⊎◌, inl, inr, true, false,
  arith, ◌==◌, ltb, Bool-cases, get_elem?, set, set-get_elem?, ok, panicked,
}
use jnix.Mm.Kmalloc.{Dir, Heap, has_free, set_chain, kmalloc, kzmalloc, clear_bytes}
use jnix.Mm.Kmalloc.Slots.{Live, set_live, occurs}
use jnix.Mm.Kmalloc.Bucket.{IsSlot, IsSlot-page, split_at, Chain-congr}
use jnix.Mm.Kmalloc.Valid.{Owned, IsValid, some_inj}
use jnix.Mm.Kmalloc.Replace.{At-IsSize, IsValid-replace}
use jnix.Mm.Kmalloc.Alloc.{TooLarge, BestFit, kmalloc_lem}

-- Two objects of one page are the same or apart.
slots_apart :
    (page s x y : ℕ) → 0 < s → IsSlot page s x → IsSlot page s y → x ≢ y → (x + s ≤ y) ⊎ (y + s ≤ x)
slots_apart page s x y pos (i, li, ei) (n, ln, en) ne = elim (Bool-cases (ltb i n)) [
  | inl less ↦ let h : i < n = ground arith in inl (grind arith)
  | inr more ↦ elim (Bool-cases (i == n)) [
    | inl same ↦
        let h : i ≡ n = ground arith in absurd (ne (ei ∙ ap (λ m. page + m * s) h ∙ sym en))
    | inr other ↦ let h : n < i = ground arith in inr (grind arith)
  ]
]

-- In a valid allocator two different objects of its buckets do not overlap.
live_disjoint :
    (live : Live) (h : Heap) (x y : ℕ) (o : Owned h.bucket_dir x) (p : Owned h.bucket_dir y)
    → IsValid live h
    → x ≢ y
    → (x + o.s ≤ y) ⊎ (y + p.s ≤ x)
live_disjoint live h x y o p v ne = elim (Bool-cases (o.d.page == p.d.page)) [
  | inl same ↦
      let q : o.d.page ≡ p.d.page = ground arith in
      let (kk, jj) = v.once o.k o.j o.s o.d p.k p.j p.s p.d o.at p.at q in
      let dirs : o.at.dir ≡ p.at.dir =
        some_inj (sym o.at.entry ∙ ap (λ n. get_elem? h.bucket_dir n) kk ∙ p.at.entry) in
      let sizes : p.s ≡ o.s = sym p.at.sized ∙ sym (ap (λ (r : Dir). r.size) dirs) ∙ o.at.sized in
      let big = (At-IsSize v o.at).large in
      let slot : IsSlot o.d.page o.s y =
        subst (λ s. IsSlot o.d.page s y) sizes (subst (λ a. IsSlot a p.s y) (sym q) p.slot) in
      elim (slots_apart o.d.page o.s x y (omega arith) o.slot slot ne) [
        | inl l ↦ inl l
        | inr r ↦ inr (omega arith)
      ]
  | inr other ↦
      let (lo, hi) = IsSlot-page (At-IsSize v o.at) o.d.page x o.slot in
      let (lo', hi') = IsSlot-page (At-IsSize v p.at) p.d.page y p.slot in
      let a = (v.buckets o.k o.j o.s o.d o.at).aligned in
      let b = (v.buckets p.k p.j p.s p.d p.at).aligned in
      let apart : o.d.page ≢ p.d.page = ground arith in
      elim (Bool-cases (ltb o.d.page p.d.page)) [
        | inl less ↦ let l : o.d.page < p.d.page = ground arith in inl (omega arith)
        | inr more ↦ let l : p.d.page ≤ o.d.page = ground arith in inr (omega arith)
      ]
]

-- With an object live, `kmalloc` on a valid allocator either returns an object of at least the size
-- asked for that does not overlap it, or it panics with the request too large or its entry full.
pub kmalloc-disjoint :
    (live : Live) (h : Heap) (len y : ℕ)
    → IsValid live h
    → live y ≡ true
    → ((x : ℕ) × (h' : Heap) × (kmalloc len h ≡ ok (x, h'))
        × ((o : Owned h'.bucket_dir x) × (p : Owned h'.bucket_dir y) × (len ≤ o.s)
            × ((x + o.s ≤ y) ⊎ (y + p.s ≤ x))))
      ⊎ ((kmalloc len h ≡ panicked)
          × (TooLarge h.bucket_dir len
              ⊎ ((k : ℕ) × (fit : BestFit h.bucket_dir len k) × (has_free fit.dir.chain ≡ false))))
kmalloc-disjoint live h len y v alive = elim (kmalloc_lem live h len v) [
  | inr p ↦ inr p
  | inl (x, h', run, a) ↦
      let apart : x ≢ y = λ q. cc (sym alive ∙ ap live (sym q) ∙ a.was_dead) in
      let still : set_live live x true y ≡ true = ground (arith, alive) in
      let o = a.owner in
      let p = a.valid.owned y still in
      inl (
        x,
        h',
        run,
        (
          o,
          p,
          omega (arith, a.size, a.fit.enough),
          live_disjoint (set_live live x true) h' x y o p a.valid apart,
        ),
      )
]

-- A change of memory inside one live object leaves a valid allocator valid.
pub IsValid-write :
    (live : Live) (h : Heap) (mem' : ℕ → ℕ) (x : ℕ) (o : Owned h.bucket_dir x)
    → IsValid live h
    → live x ≡ true
    → ((a : ℕ) → (a < x) ⊎ (x + o.s ≤ a) → mem' a ≡ h.ram.mem a)
    → IsValid live (record h { ram = record h.ram { mem = mem' } })
IsValid-write live h mem' x o v alive same =
    let dir = o.at.dir in
    let slot = subst (λ s. IsSlot o.d.page s x) (sym o.at.sized) o.slot in
    let (fits, small) = v.sizes o.k dir o.at.entry in
    let b =
      v.buckets o.k o.j dir.size o.d
        (record { dir = dir; entry = o.at.entry; member = o.at.member; sized = refl }) in
    let (lo, hi) = IsSlot-page fits o.d.page x slot in
    let big = fits.large in
    let sized = o.at.sized in
    let dirs : set_chain h o.k dir (set dir.chain o.j o.d) ≡ h.bucket_dir =
      ap (λ c. set_chain h o.k dir c) (set-get_elem? dir.chain o.j o.at.member)
      ∙ set-get_elem? h.bucket_dir o.k o.at.entry in
    subst (λ l. IsValid live (record h { ram = record h.ram { mem = mem' }; bucket_dir = l })) dirs
      (IsValid-replace v o.k dir o.at.entry o.j o.d o.d o.at.member refl mem' live
        (record {
          free = b.free;
          bucket_size = b.bucket_size;
          aligned = b.aligned;
          positive = b.positive;
          chain =
              Chain-congr h.ram.mem mem' o.d.freeptr b.free
                (λ y there.
                  let one = split_at fits b x slot in
                  let ne : x ≢ y = λ q.
                    let there' = subst (λ n. 0 < occurs n b.free) (sym q) there in ground arith in
                  elim (slots_apart o.d.page dir.size x y (omega arith) slot (b.slots y there) ne) [
                    | inl l ↦ same y (inr (omega arith))
                    | inr r ↦ same y (inl (omega arith))
                  ])
                b.chain;
          slots = b.slots;
          split = b.split;
          refs = b.refs;
        })
        (λ a out. (same a (omega arith), refl)) (λ y on. inl on))

-- On a valid allocator `kzmalloc` either returns an object that was not live, leaves the allocator
-- valid with it live, and has cleared every whole word of the requested size; or it panics, and
-- `kmalloc` does so too.
pub kzmalloc_lem :
    (live : Live) (h : Heap) (size : ℕ)
    → IsValid live h
    → ((x : ℕ) × (h' : Heap) × (kzmalloc size h ≡ ok (x, h'))
        × IsValid (set_live live x true) h'
        × (live x ≡ false)
        × ((a : ℕ) → x ≤ a → a + 4 ≤ x + size → h'.ram.mem a ≡ 0))
      ⊎ ((kzmalloc size h ≡ panicked) × (kmalloc size h ≡ panicked))
unfolding kzmalloc
kzmalloc_lem live h size v = elim (kmalloc_lem live h size v) [
  | inr (p, why) ↦ inr (rw p refl, p)
  | inl (x, h', run, a) ↦
      let alive : set_live live x true x ≡ true = ground arith in
      let fits = a.fit.enough in
      let sized = a.size in
      let o = a.owner in
      let w = a.valid in
      let (lo, hi) = IsSlot-page (At-IsSize w o.at) o.d.page x o.slot in
      let pos = (w.buckets o.k o.j o.s o.d o.at).positive in
      let nonzero : (x == 0) ≡ false = ground arith in
      inl (
        x,
        record h' { ram = record h'.ram { mem = clear_bytes h'.ram.mem x size } },
        rw (run, kzmalloc) (rw nonzero refl),
        IsValid-write (set_live live x true) h' (clear_bytes h'.ram.mem x size) x o w alive
            (λ b out. elim out [
              | inl below ↦ ground arith
              | inr above ↦ let done : x + size - b ≡ 0 = omega arith in rw done (ground arith)
            ]),
        a.was_dead,
        λ b lo' hi'. ground arith,
      )
]
