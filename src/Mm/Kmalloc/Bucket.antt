-- ===== src/Mm/Kmalloc/Bucket.antt =====
-- One page of the allocator: the descriptor, the free list in the page, and the objects of the page
-- that are live.
use jnix.Prelude.{
  ℕ, ◌+◌, ◌-◌, ◌*◌, ◌/◌, ◌%◌, ◌^◌, ◌≤◌, ◌<◌, ◌≡◌, ◌≢◌, refl, sym, subst, ◌∙◌, inl, inr, Bool, true,
  false, List, [], ◌∷◌, arith, ◌==◌, Bool-cases,
}
use jnix.Mm.Page.{page_size}
use jnix.Mm.Kmalloc.{store, carve, Desc}
use jnix.Mm.Kmalloc.Slots.{
  Live, to_nat, set_live, occurs, Chain, Chain-store, live_below, live_below-le, live_below_congr,
  live_of_below-zero, live_below-set_live, slots_from, occurs-slots_from, Chain-carve,
  slot_of_occurs, live_below-zero_of,
}

-- The sizes of the table: a page is a whole number of objects.
pub record IsSize (size : ℕ) : Type 0 where
  pub large : 16 ≤ size
  pub whole : page_size / size * size ≡ page_size

-- `PAGE_SIZE / bdir->size`
abbrev pub objects : ℕ → ℕ
objects size = page_size / size

-- `x` is an object of the page.
abbrev pub IsSlot : ℕ → ℕ → ℕ → Type 0
IsSlot page size x = (i : ℕ) × (i < objects size) × (x ≡ page + i * size)

-- The free list holds each object of the page that is not live, once, and nothing else; the
-- reference count is the number of live objects.
pub record BucketIsValid (mem : ℕ → ℕ) (live : Live) (size : ℕ) (d : Desc) : Type 0 where
  pub free : List ℕ
  pub bucket_size : d.bucket_size ≡ size
  pub aligned : d.page % page_size ≡ 0
  pub positive : 0 < d.page
  pub chain : Chain mem d.freeptr free
  pub slots : (x : ℕ) → 0 < occurs x free → IsSlot d.page size x
  pub split :
      (i : ℕ)
      → i < objects size
      → occurs (d.page + i * size) free + to_nat (live (d.page + i * size)) ≡ 1
  pub refs : d.refcnt ≡ live_below live d.page size (objects size)

module _ {size : ℕ} (fits : IsSize size) where
  size_pos : 0 < size
  size_pos = let h = fits.large in omega arith

  pub objects_pos : 0 < objects size
  objects_pos = let h = fits.whole in grind arith

  pub objects_le : objects size ≤ 256
  objects_le = let h = fits.whole in let g = fits.large in grind arith

  pub slot_bound : (i : ℕ) → i < objects size → i * size + size ≤ page_size
  slot_bound i lt = let h = fits.whole in grind arith

  pub IsSlot-page : (page x : ℕ) → IsSlot page size x → (page ≤ x) × (x + size ≤ page + page_size)
  IsSlot-page page x (i, lt, e) = let h = slot_bound i lt in (omega arith, omega arith)

pub Chain-congr :
    (mem mem' : ℕ → ℕ) (p : ℕ) (xs : List ℕ)
    → ((x : ℕ) → 0 < occurs x xs → mem' x ≡ mem x)
    → Chain mem p xs
    → Chain mem' p xs
Chain-congr mem mem' p [] same c = c
Chain-congr mem mem' p (x ∷ xs) same (e, c) =
    let here : mem' x ≡ mem x = same x (ground arith) in
    (e, rw here (Chain-congr mem mem' (mem x) xs (λ y h. same y (omega arith)) c))

-- Memory and objects are as before in the page.
abbrev pub SameIn : (mem mem' : ℕ → ℕ) → (live live' : Live) → ℕ → Type 0
SameIn mem mem' live live' page =
    (a : ℕ) → page ≤ a → a < page + page_size → (mem' a ≡ mem a) × (live' a ≡ live a)

module _ {size : ℕ} (fits : IsSize size) {mem : ℕ → ℕ} {live : Live} {d : Desc}
    (v : BucketIsValid mem live size d) where
  open v use {free, bucket_size, aligned, positive, chain, slots, split, refs}

  -- Whatever happens outside its page leaves a bucket valid.
  pub BucketIsValid-frame :
      (mem' : ℕ → ℕ) (live' : Live)
      → SameIn mem mem' live live' d.page
      → BucketIsValid mem' live' size d
  BucketIsValid-frame mem' live' same = record {
    free = free;
    bucket_size = bucket_size;
    aligned = aligned;
    positive = positive;
    chain =
        Chain-congr mem mem' d.freeptr free
          (λ x h.
            let (lo, hi) = IsSlot-page fits d.page x (slots x h) in
            let g = fits.large in (same x lo (omega arith)).0)
          chain;
    slots = slots;
    split = λ i lt.
        let h = slot_bound fits i lt in
        let g = fits.large in
        rw ((same (d.page + i * size) (omega arith) (omega arith)).1) (split i lt);
    refs =
        refs
        ∙ sym (
            live_below_congr d.page size live live' (objects size) (λ i lt.
              let h = slot_bound fits i lt in
              let g = fits.large in (same (d.page + i * size) (omega arith) (omega arith)).1));
  }

  -- An empty free list means that no object is free, and otherwise its head is not live.
  pub free_nonempty : d.freeptr ≢ 0 → (x : ℕ) × (xs : List ℕ) × (free ≡ x ∷ xs)
  free_nonempty ne = go free chain
    where
      go : (xs : List ℕ) → Chain mem d.freeptr xs → (x : ℕ) × (ys : List ℕ) × (xs ≡ x ∷ ys)
      go [] c = absurd (ne c)
      go (x ∷ ys) c = (x, ys, refl)

  pub split_at : (x : ℕ) → IsSlot d.page size x → occurs x free + to_nat (live x) ≡ 1
  split_at x (i, lt, e) = subst (λ y. occurs y free + to_nat (live y) ≡ 1) (sym e) (split i lt)

  live_below-set_slot :
      (x : ℕ) (b : Bool)
      → IsSlot d.page size x
      → live_below (set_live live x b) d.page size (objects size) + to_nat (live x)
        ≡ live_below live d.page size (objects size) + to_nat b
  live_below-set_slot x b (i, lt, e) =
      subst
        (λ y.
          live_below (set_live live y b) d.page size (objects size) + to_nat (live y)
          ≡ live_below live d.page size (objects size) + to_nat b)
        (sym e) (live_below-set_live d.page size (size_pos fits) live i b (objects size) lt)

  -- The head of the free list is an object of the page that is not live.
  pub head-IsSlot : d.freeptr ≢ 0 → IsSlot d.page size d.freeptr × (live d.freeptr ≡ false)
  head-IsSlot ne =
      let (x, xs, e) = free_nonempty ne in
      let c = subst (λ ys. Chain mem d.freeptr ys) e chain in
      let once : 0 < occurs d.freeptr free =
        subst (λ ys. 0 < occurs d.freeptr ys) (sym e) (ground (arith, c.0)) in
      let at = slots d.freeptr once in let one = split_at d.freeptr at in (at, ground arith)

  -- `retval = freeptr; freeptr = *retval; refcnt++`
  pub BucketIsValid-take :
      d.freeptr ≢ 0
      → BucketIsValid mem
          (set_live live d.freeptr true)
          size
          (record d { freeptr = mem d.freeptr; refcnt = (d.refcnt + 1) % 2 ^ 16 })
  BucketIsValid-take ne =
      let (x, xs, e) = free_nonempty ne in
      let c = subst (λ ys. Chain mem d.freeptr ys) e chain in
      let (at, dead) = head-IsSlot ne in
      let (i, lt, ei) = at in
      record {
        free = xs;
        bucket_size = bucket_size;
        aligned = aligned;
        positive = positive;
        chain = rw (c.0) (c.1);
        slots = λ y h. slots y (subst (λ ys. 0 < occurs y ys) (sym e) (omega arith));
        split = λ j ltj.
            let one =
              subst (λ ys. occurs (d.page + j * size) ys + to_nat (live (d.page + j * size)) ≡ 1) e
                (split j ltj) in
            ground (arith, c.0);
        refs =
            let sum = live_below-set_slot d.freeptr true at in
            let small = live_below-le d.page size (set_live live d.freeptr true) (objects size) in
            let few = objects_le fits in rw refs (ground (arith));
      }

  -- `*obj = freeptr; freeptr = obj; refcnt--` for a live object of the page
  pub BucketIsValid-put :
      (x : ℕ)
      → IsSlot d.page size x
      → live x ≡ true
      → BucketIsValid
          (store mem x d.freeptr)
          (set_live live x false)
          size
          (record d { freeptr = x; refcnt = (d.refcnt + (2 ^ 16 - 1)) % 2 ^ 16 })
  BucketIsValid-put x at alive =
      let one = split_at x at in
      let away : occurs x free ≡ 0 = ground arith in
      let here : store mem x d.freeptr x ≡ d.freeptr = ground arith in
      record {
        free = x ∷ free;
        bucket_size = bucket_size;
        aligned = aligned;
        positive = positive;
        chain = (refl, rw here (Chain-store mem x d.freeptr d.freeptr free away chain));
        slots = λ y h. elim (Bool-cases (y == x)) [
          | inl same ↦ let e : y ≡ x = ground arith in rw e at
          | inr other ↦ slots y (ground arith)
        ];
        split = λ j ltj. let one' = split j ltj in ground arith;
        refs =
            let sum = live_below-set_slot x false at in
            let small = live_below-le d.page size live (objects size) in
            let few = objects_le fits in rw refs (ground arith);
      }

  -- With no reference left every object of the page is dead.
  pub dead_of_refcnt : d.refcnt ≡ 0 → (x : ℕ) → IsSlot d.page size x → live x ≡ false
  dead_of_refcnt none x (i, lt, e) =
      rw e (live_of_below-zero d.page size live (objects size) i lt (sym refs ∙ none))

-- A page that has just been carved, none of whose objects is live.
pub BucketIsValid-carve :
    {size : ℕ}
    → IsSize size
    → (mem : ℕ → ℕ) (live : Live) (page at : ℕ) → page % page_size ≡ 0
    → 0 < page
    → size < 2 ^ 16
    → ((i : ℕ) → i < objects size → live (page + i * size) ≡ false)
    → BucketIsValid
        (carve (objects size) size page mem)
        live
        size
        (record { at = at; page = page; freeptr = page; refcnt = 0; bucket_size = size % 2 ^ 16 })
BucketIsValid-carve {size} fits mem live page at aligned positive small dead =
    let pos = size_pos fits in
    record {
      free = slots_from (objects size) size page;
      bucket_size = omega arith;
      aligned = aligned;
      positive = positive;
      chain = Chain-carve size pos (objects size) page mem (objects_pos fits);
      slots = slot_of_occurs size (objects size) page;
      split = λ i lt.
          let one = occurs-slots_from size pos (objects size) page i (page + i * size) lt refl in
          rw (dead i lt) (omega arith);
      refs = sym (live_below-zero_of page size live (objects size) dead);
    }
