-- ===== src/Mm/Kmalloc/Remove.antt =====
-- A bucket with no live object leaves its chain, and its page goes back to the table of pages.
use jnix.Prelude.{
  ℕ, zero, suc, ◌-◌, ◌*◌, ◌%◌, ◌≡◌, ◌≢◌, refl, sym, subst, ap, ◌∙◌, ◌⊎◌, inl, inr, true, false,
  some, List, [], ◌∷◌, arith, ◌==◌, ◌&&◌, leb, if◌then◌else◌, Bool-cases, get_elem?,
  lt-length_of_some, u32_mod,
}
use jnix.Mm.Page.{Ram, page_size, va, pa}
use jnix.Mm.Page.Alloc.{Freed}
use jnix.Mm.Kmalloc.{Desc, Dir, Heap, remove_at, set_chain}
use jnix.Mm.Kmalloc.Slots.{Live}
use jnix.Mm.Kmalloc.Bucket.{BucketIsValid, dead_of_refcnt}
use jnix.Mm.Kmalloc.Valid.{At, UsedPage, Owned, IsValid, some_inj, At-set, At-set_ne, At-set_self}
use jnix.Mm.Kmalloc.Replace.{At-IsSize, sizes-set_chain}

-- The position before the removal of the element at `j`.
abbrev old_place : ℕ → ℕ → ℕ
old_place j n = if leb j n then suc n else n

module _ {ℓ} {A : Type ℓ} where
  get_elem?-remove_at :
      (xs : List A) (j n : ℕ) → get_elem? (remove_at xs j) n ≡ get_elem? xs (old_place j n)
  unfolding remove_at
  get_elem?-remove_at [] j n = ground arith
  get_elem?-remove_at (x ∷ xs) zero n = ground arith
  get_elem?-remove_at (x ∷ xs) (suc j) zero = ground arith
  get_elem?-remove_at (x ∷ xs) (suc j) (suc n) = ground (arith, get_elem?-remove_at xs j n)

-- The position after it, of another element.
abbrev new_place : ℕ → ℕ → ℕ
new_place j n = if leb j n then n - 1 else n

old_place-new_place : (j n : ℕ) → n ≢ j → old_place j (new_place j n) ≡ n
old_place-new_place j n ne = ground arith

module _ {live : Live} {h : Heap} (v : IsValid live h) (k j : ℕ) (dir : Dir) (d : Desc)
    (e : get_elem? h.bucket_dir k ≡ some dir) (m : get_elem? dir.chain j ≡ some d) where
  abbrev removed : List Dir
  removed = set_chain h k dir (remove_at dir.chain j)

  abbrev place : ℕ → ℕ → ℕ
  place k' j' = if k' == k then old_place j j' else j'

  place_inj : (k' j₁ j₂ : ℕ) → place k' j₁ ≡ place k' j₂ → j₁ ≡ j₂
  place_inj k' j₁ j₂ q = ground arith

  place_away : (k' j' : ℕ) → (k' ≢ k) ⊎ (place k' j' ≢ j)
  place_away k' j' = ground arith

  At-remove :
      {k' j' s' : ℕ} {d₁ : Desc} → At removed k' j' s' d₁ → At h.bucket_dir k' (place k' j') s' d₁
  At-remove {k'} {j'} {s'} {d₁} at = elim (At-set h.bucket_dir k dir (remove_at dir.chain j) e at) [
    | inl (ek, es, got) ↦
        let same : (k' == k) ≡ true = ground arith in
        rw same (record {
          dir = dir;
          entry = ap (λ n. get_elem? h.bucket_dir n) ek ∙ e;
          member = sym (get_elem?-remove_at dir.chain j j') ∙ got;
          sized = es;
        })
    | inr (ne, old) ↦ let other : (k' == k) ≡ false = ground arith in rw other old
  ]

  At-keep :
      {k' j' s' : ℕ} {d₁ : Desc}
      → At h.bucket_dir k' j' s' d₁
      → (k' ≢ k) ⊎ (j' ≢ j)
      → (j₁ : ℕ) × At removed k' j₁ s' d₁
  At-keep {k'} {j'} {s'} {d₁} at away = elim (Bool-cases (k' == k)) [
    | inr other ↦ (j', At-set_ne h.bucket_dir k _ (ground arith) at)
    | inl same ↦
        let ek : k ≡ k' = ground arith in
        let ne : j' ≢ j = elim away [ inl n ↦ absurd (n (sym ek)) | inr n ↦ n ] in
        let got : at.dir ≡ dir =
          some_inj (sym at.entry ∙ ap (λ n. get_elem? h.bucket_dir n) (sym ek) ∙ e) in
        let old = ap (λ (r : Dir). get_elem? r.chain j') (sym got) ∙ at.member in
        let size : dir.size ≡ s' = ap (λ (r : Dir). r.size) (sym got) ∙ at.sized in
        let member : get_elem? (remove_at dir.chain j) (new_place j j') ≡ some d₁ =
          get_elem?-remove_at dir.chain j (new_place j j')
          ∙ ap (λ n. get_elem? dir.chain n) (old_place-new_place j j' ne)
          ∙ old in
        (
          new_place j j',
          subst (λ n. At removed n (new_place j j') s' d₁) ek
              (subst (λ s. At removed k (new_place j j') s d₁) size
                (At-set_self h.bucket_dir k dir (remove_at dir.chain j) e member)),
        )
  ]

  self-At : At h.bucket_dir k j dir.size d
  self-At = record { dir = dir; entry = e; member = m; sized = refl }

  away_page :
      {k' j' s' : ℕ} {d₁ : Desc}
      → At h.bucket_dir k' j' s' d₁
      → (k' ≢ k) ⊎ (j' ≢ j)
      → d₁.page ≢ d.page
  away_page {k'} {j'} {s'} {d₁} at away q =
      let both = v.once k' j' s' d₁ k j dir.size d at self-At q in
      elim away [ inl n ↦ n both.0 | inr n ↦ n both.1 ]

  -- Where the page stands in the table of pages.
  pub used_page : UsedPage h.ram.mem_map d.page
  used_page = v.pages k j dir.size d self-At

  pub page_address : pa d.page ≡ used_page.index * page_size
  page_address =
      let u = used_page in
      let low = lt-length_of_some h.ram.mem_map u.index u.there in
      let f = v.few in let a = u.address in omega arith

  keep_page :
      {ram : Ram}
      → Freed h.ram used_page.index ram
      → (d₁ : Desc) → UsedPage h.ram.mem_map d₁.page
      → d₁.page ≢ d.page
      → UsedPage ram.mem_map d₁.page
  keep_page freed d₁ u ne = record {
    index = u.index;
    page = u.page;
    there =
        freed.others u.index
          (λ q. ne (u.address ∙ ap (λ n. va (n * page_size % u32_mod)) q ∙ sym used_page.address))
        ∙ u.there;
    used = u.used;
    address = u.address;
  }

  not_self :
      {x : ℕ} → d.refcnt ≡ 0 → live x ≡ true → (o : Owned h.bucket_dir x) → (o.k ≢ k) ⊎ (o.j ≢ j)
  not_self {x} dead alive o = elim (Bool-cases ((o.k == k) && (o.j == j))) [
    | inr apart ↦ ground arith
    | inl same ↦
        let ek : o.k ≡ k = ground arith in
        let ej : o.j ≡ j = ground arith in
        let got : o.at.dir ≡ dir =
          some_inj (sym o.at.entry ∙ ap (λ n. get_elem? h.bucket_dir n) ek ∙ e) in
        let here : o.d ≡ d = some_inj (
          sym o.at.member
          ∙ ap (λ (r : Dir). get_elem? r.chain o.j) got
          ∙ ap (λ n. get_elem? dir.chain n) ej
          ∙ m) in
        let gone =
          dead_of_refcnt (At-IsSize v o.at) (v.buckets o.k o.j o.s o.d o.at)
            (ap (λ (r : Desc). r.refcnt) here ∙ dead) x o.slot in
        cc (sym alive ∙ gone)
  ]

  pub IsValid-remove :
      {ram : Ram} (ds : List ℕ)
      → d.refcnt ≡ 0
      → Freed h.ram used_page.index ram
      → IsValid live (record { ram = ram; bucket_dir = removed; free_bucket_desc = ds })
  IsValid-remove ds dead freed = record {
    sizes = sizes-set_chain v k dir e (remove_at dir.chain j);
    buckets = λ k₁ j₁ s₁ d₁ at.
        subst (λ mem. BucketIsValid mem live s₁ d₁) (sym freed.mem)
          (v.buckets k₁ (place k₁ j₁) s₁ d₁ (At-remove at));
    once = λ k₁ j₁ s₁ d₁ k₂ j₂ s₂ d₂ a b q.
        let (kk, jj) =
          v.once k₁ (place k₁ j₁) s₁ d₁ k₂ (place k₂ j₂) s₂ d₂ (At-remove a) (At-remove b) q in
        (kk, place_inj k₁ j₁ j₂ (jj ∙ ap (λ n. place n j₂) (sym kk)));
    pages = λ k₁ j₁ s₁ d₁ a.
        let old = At-remove a in
        keep_page freed d₁ (v.pages k₁ (place k₁ j₁) s₁ d₁ old) (away_page old (place_away k₁ j₁));
    owned = λ x alive.
        let o = v.owned x alive in
        let away : (o.k ≢ k) ⊎ (o.j ≢ j) = not_self dead alive o in
        let (j₁, a) = At-keep o.at away in
        record { k = o.k; j = j₁; s = o.s; d = o.d; at = a; slot = o.slot };
    few = let f = v.few in let g = freed.size in omega arith;
  }
