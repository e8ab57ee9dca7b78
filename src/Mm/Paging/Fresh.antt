-- ===== src/Mm/Paging/Fresh.antt =====
-- `do_no_page` of arch/i386/page.c: a page and a table for it.
use jnix.Prelude.{
  ==-self, ne-==, ℕ, ◌+◌, ◌*◌, ◌/◌, ◌≤◌, ◌<◌, ◌≡◌, ◌≢◌, refl, sym, subst, ap, ◌∙◌, ◌⊎◌, inl, inr,
  Bool, true, false, some, arith, if◌then◌else◌, length, get_elem?, set, lt-length_of_some, Run, ok,
  panicked, u32_mod, add32,
}
use jnix.Mm.Page.{Page, Ram, page_size, va, in_use, get_free_page}
use jnix.Mm.Page.Alloc.{Taken, get_free_page_lem}
use jnix.Mm.Paging.{
  kernel_attr, user_attr, dir_index, table_index, entry_addr, slot_of, write_entry, count_up,
  create_table, do_no_page,
}
use jnix.Mm.Paging.Faults.{page_limit, base, va-base, entry_addr-base, apart, Taken-apart, slot_lem}

-- The directory is the page `d`, which is in use.
pub record Directory (r : Ram) (d address : ℕ) : Type 0 where
  pub size : length r.mem_map ≤ page_limit
  pub small : address < u32_mod
  pub page : Page
  pub at : get_elem? r.mem_map d ≡ some page
  pub used : in_use page ≡ true

-- Every page but one is in use.
abbrev pub AtMostOneFree : Ram → Type 0
AtMostOneFree r =
    (i : ℕ) × ((j : ℕ) (p : Page) → j ≢ i → get_elem? r.mem_map j ≡ some p → in_use p ≡ true)

-- What the handler leaves: a table that was free in the directory, with one entry, to a page that
-- was free; every other entry of the table and every word of the page are 0.
pub record Mapped (r : Ram) (d address attr : ℕ) (r' : Ram) : Type 0 where
  pub table : ℕ
  pub page : ℕ
  pub table_free : (p : Page) × (get_elem? r.mem_map table ≡ some p) × (in_use p ≡ false)
  pub page_free : (p : Page) × (get_elem? r.mem_map page ≡ some p) × (in_use p ≡ false)
  pub entry : r'.mem (base d + 4 * dir_index address) ≡ table * page_size + attr
  pub slot : r'.mem (base table + 4 * table_index address) ≡ page * page_size + attr
  pub alone : (j : ℕ) → j < 1024 → j ≢ table_index address → r'.mem (base table + 4 * j) ≡ 0
  pub zeroed : (k : ℕ) → k < page_size → r'.mem (base page + k) ≡ 0

-- Words of different pages, and different words of a page.
page_ne : (i j x y : ℕ) → i ≢ j → x < page_size → y < page_size → base i + x ≢ base j + y
page_ne i j x y ne lx ly = λ e. ne (omega arith)

module _ (r : Ram) (d address : ℕ) (m : Directory r d address) (i a : ℕ) (r₁ : Ram)
    (k₁ : Taken r i a r₁) (j b : ℕ) (r₂ : Ram) (k₂ : Taken r₁ j b r₂) where
  dir_limit : d < page_limit
  dir_limit = omega (arith, lt-length_of_some r.mem_map d (m.at), m.size)

  page_limited : i < page_limit
  page_limited =
      let (p, at, free) = k₁.was_free in omega (arith, lt-length_of_some r.mem_map i at, m.size)

  table_limited : j < page_limit
  table_limited =
      let (p, at, free) = k₂.was_free in
      omega (arith, lt-length_of_some r₁.mem_map j at, k₁.size, m.size)

  dir_page : d ≢ i
  dir_page = Taken-apart r r₁ i d a (m.page) k₁ (m.at) (m.used)

  dir_table : d ≢ j
  dir_table = Taken-apart r₁ r₂ j d b (m.page) k₂ (k₁.others d dir_page ∙ m.at) (m.used)

  page_table : i ≢ j
  page_table = let (p, at, used, one) = k₁.now_used in Taken-apart r₁ r₂ j i b p k₂ at used

  is_page : a ≡ i * page_size
  is_page = k₁.address ∙ omega (arith, page_limited)

  is_table : b ≡ j * page_size
  is_table = k₂.address ∙ omega (arith, table_limited)

  module _ (attr : ℕ) (small : attr < page_size) where
    abbrev after_fault : Ram
    after_fault =
        let r' : Ram =
          write_entry (base j + 4 * table_index address) (i * page_size + attr)
            (write_entry (base d + 4 * dir_index address) (j * page_size + attr) r₂) in
        let p : Page = k₁.now_used.0 in
        record r' { mem_map = set r₂.mem_map i (record p { count = add32 p.count 1 }) }

    after_fault-Mapped : Mapped r d address attr after_fault
    after_fault-Mapped =
        let e = base d + 4 * dir_index address in
        let index_small : 4 * dir_index address < 4096 = omega (arith, m.small) in
        let page_va : va a ≡ base i = ap va is_page ∙ va-base i page_limited in
        let table_va : va b ≡ base j = ap va is_table ∙ va-base j table_limited in
        let s = base j + 4 * table_index address in
        record {
          table = j;
          page = i;
          table_free =
              let (p, at, free) = k₂.was_free in
              (p, sym (k₁.others j (λ q. page_table (sym q))) ∙ at, free);
          page_free = k₁.was_free;
          entry =
              rw
                (ne-== e s (
                  page_ne d j (4 * dir_index address) (4 * table_index address) dir_table
                    index_small (omega arith)))
                (rw (==-self e) refl);
          slot = rw (==-self s) refl;
          alone = λ x lt ne.
              (let other : base j + 4 * x ≢ s = λ q. ne (omega arith) in
                let not_e =
                  page_ne j d (4 * x) (4 * dir_index address) (λ q. dir_table (sym q)) (omega arith)
                    index_small in
                rw (ne-== (base j + 4 * x) s other) (
                  rw (ne-== (base j + 4 * x) e not_e)
                    (k₂.zeroed (base j + 4 * x) (omega arith) (omega arith))));
          zeroed = λ x lt.
              (let not_s = page_ne i j x (4 * table_index address) page_table lt (omega arith) in
                let not_e =
                  page_ne i d x (4 * dir_index address) (λ q. dir_page (sym q)) lt index_small in
                let still : r₂.mem (base i + x) ≡ r₁.mem (base i + x) = k₂.kept (base i + x) (
                  subst (λ v. (base i + x < v) ⊎ (v + page_size ≤ base i + x)) (sym table_va)
                    (apart j i x page_table lt)) in
                rw (ne-== (base i + x) s not_s) (
                  rw (ne-== (base i + x) e not_e)
                    (still ∙ k₁.zeroed (base i + x) (omega arith) (omega arith))));
        }

    do_no_page_ok :
        (kernel : Bool)
        → (if kernel then kernel_attr else user_attr) ≡ attr
        → get_free_page r ≡ ok (a, r₁)
        → get_free_page r₁ ≡ ok (b, r₂)
        → do_no_page kernel (base d) address r ≡ ok after_fault
    unfolding do_no_page create_table count_up
    do_no_page_ok kernel same got₁ got₂ =
        let e = base d + 4 * dir_index address in
        let (p, at, used, one) = k₁.now_used in
        let there : get_elem? r₂.mem_map i ≡ some p = k₂.others i page_table ∙ at in
        let dir_at : entry_addr (base d) (dir_index address) ≡ e =
          entry_addr-base d (dir_index address) dir_limit (omega (arith, m.small)) in
        let in_table : slot_of (base d) address (write_entry e (j * page_size + attr) r₂)
            ≡ base j + 4 * table_index address =
          slot_lem d j attr address (write_entry e (j * page_size + attr) r₂) dir_limit
            table_limited small (m.small) (rw (==-self e) refl) in
        let index : i * page_size / page_size ≡ i = omega arith in
        let write_both : ℕ → ℕ → Run Ram = λ e s.
          count_up (i * page_size)
            (write_entry s (i * page_size + attr) (write_entry e (j * page_size + attr) r₂)) in
        rw same (
          rw got₁ (
            rw got₂ (
              rw is_page (
                rw is_table (
                  ap
                    (λ e.
                      write_both e
                        (slot_of (base d) address (write_entry e (j * page_size + attr) r₂)))
                    dir_at
                  ∙ ap (write_both e) in_table
                  ∙ rw index (rw there refl))))))

-- A fault at a page that is not there, in a directory that is in use: the address gets a cleared
-- page of its own, by a new table that takes the place of the one in the directory and has this one
-- entry only; or the handler panics, and then at most one page is free.
pub do_no_page_lem :
    (r : Ram) (d address : ℕ) (kernel : Bool)
    → Directory r d address
    → ((r' : Ram) × (do_no_page kernel (base d) address r ≡ ok r')
        × Mapped r d address (if kernel then kernel_attr else user_attr) r')
      ⊎ ((do_no_page kernel (base d) address r ≡ panicked) × AtMostOneFree r)
unfolding do_no_page create_table
do_no_page_lem r d address kernel m = elim (get_free_page_lem r) [
  | inr (full, used) ↦
      inr (rw full refl, (0, λ j p ne at. used j p (lt-length_of_some r.mem_map j at) at))
  | inl (i, a, r₁, got₁, k₁) ↦ elim (get_free_page_lem r₁) [
    | inr (full, used) ↦ inr (
      rw got₁ (rw full refl),
      (
        i,
        λ j p ne at.
            let still = k₁.others j ne ∙ at in
            used j p (lt-length_of_some r₁.mem_map j still) still,
      ),
    )
    | inl (j, b, r₂, got₂, k₂) ↦ inl (
      after_fault r d address m i a r₁ k₁ j b r₂ k₂ attr small,
      do_no_page_ok r d address m i a r₁ k₁ j b r₂ k₂ attr small kernel refl got₁ got₂,
      after_fault-Mapped r d address m i a r₁ k₁ j b r₂ k₂ attr small,
    )
  ]
]
  where
    attr : ℕ
    attr = if kernel then kernel_attr else user_attr

    small : attr < page_size
    small = ground arith
