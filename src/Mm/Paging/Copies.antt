-- ===== src/Mm/Paging/Copies.antt =====
-- `do_wp_page` of arch/i386/page.c: a page that is shared is copied when it is written.
use jnix.Prelude.{
  ℕ, ◌+◌, ◌-◌, ◌*◌, ◌/◌, ◌%◌, ◌≤◌, ◌<◌, ◌≡◌, ◌≢◌, refl, sym, subst, ap, ◌∙◌, ◌⊎◌, inl, inr, Bool,
  true, false, some, arith, leb, ltb, ◌==◌, ◌&&◌, if◌then◌else◌, length, get_elem?, set, length-set,
  get_elem?-set_self, get_elem?-set_ne, lt-length_of_some, Run, ok, panicked, ◌>>=◌, deref, add32,
  sub32,
}
use jnix.Mm.Page.{Page, Ram, page_size, va, in_use, get_free_page}
use jnix.Mm.Page.Alloc.{UsedBelow, Taken, get_free_page_lem}
use jnix.Mm.Paging.{
  user_attr, table_index, page_part, slot_of, write_entry, copy_words, count_up, count_down,
  take_copy, do_wp_page,
}
use jnix.Mm.Paging.Faults.{
  page_limit, base, va-base, apart, Taken-apart, page_part-entry, Tables, Tables-slot, Tables-kept,
}

-- The table's entry leads to the page `o`, which somebody else has too.
pub record Shared (r : Ram) (t o address : ℕ) : Type 0 where
  pub attr : ℕ
  pub attr_small : attr < page_size
  pub entry : r.mem (base t + 4 * table_index address) ≡ o * page_size + attr
  pub old : Page
  pub old_at : get_elem? r.mem_map o ≡ some old
  pub old_used : in_use old ≡ true
  pub shared : (old.count == 1) ≡ false
  pub not_table : t ≢ o

-- What the handler leaves: the entry leads to a page that was free and now has the words of `o`,
-- and no other word has changed; the counts of both pages.
pub record Copied (r : Ram) (t o address shares : ℕ) (r' : Ram) : Type 0 where
  pub new : ℕ
  pub was_free : (p : Page) × (get_elem? r.mem_map new ≡ some p) × (in_use p ≡ false)
  pub entry : r'.mem (base t + 4 * table_index address) ≡ new * page_size + user_attr
  pub copied : (k : ℕ) → k < page_size → r'.mem (base new + k) ≡ r.mem (base o + k)
  pub kept :
      (a : ℕ)
      → a ≢ base t + 4 * table_index address
      → (a < base new) ⊎ (base new + page_size ≤ a)
      → r'.mem a ≡ r.mem a
  pub new_count : (p : Page) × (get_elem? r'.mem_map new ≡ some p) × (p.count ≡ 2)
  pub old_count : (p : Page) × (get_elem? r'.mem_map o ≡ some p) × (p.count ≡ sub32 shares 1)

count_up_lem :
    (i : ℕ) (r : Ram) (p : Page)
    → get_elem? r.mem_map i ≡ some p
    → count_up (i * page_size) r
      ≡ ok (record r { mem_map = set r.mem_map i (record p { count = add32 p.count 1 }) })
unfolding count_up
count_up_lem i r p at =
    let index : i * page_size / page_size ≡ i = omega arith in rw index (rw at refl)

count_down_lem :
    (i : ℕ) (r : Ram) (p : Page)
    → get_elem? r.mem_map i ≡ some p
    → count_down (i * page_size) r
      ≡ ok (record r { mem_map = set r.mem_map i (record p { count = sub32 p.count 1 }) })
unfolding count_down
count_down_lem i r p at =
    let index : i * page_size / page_size ≡ i = omega arith in rw index (rw at refl)

-- What is left when the page `i` is handed out, with the two table entries that are counted.
abbrev after_copy : ℕ → ℕ → ℕ → Page → Page → Ram → Ram
after_copy slot i o new old r =
    let r' =
      copy_words (i * page_size) (o * page_size) (write_entry slot (i * page_size + user_attr) r) in
    record r' {
      mem_map =
          set (set r.mem_map i (record new { count = add32 new.count 1 })) o
            (record old { count = sub32 old.count 1 });
    }

module _ (r : Ram) (d t o address : ℕ) (m : Tables r d t address) (s : Shared r t o address) where
  abbrev slot : ℕ
  slot = base t + 4 * table_index address

  module _ (i addr : ℕ) (r₁ : Ram) (k : Taken r i addr r₁) where
    inside : i < page_limit
    inside =
        let (p, at, free) = k.was_free in omega (arith, lt-length_of_some r.mem_map i at, m.size)

    is_addr : addr ≡ i * page_size
    is_addr = k.address ∙ omega (arith, inside)

    table_apart : t ≢ i
    table_apart = Taken-apart r r₁ i t addr (m.table_page) k (m.table_at) (m.table_used)

    old_apart : o ≢ i
    old_apart = Taken-apart r r₁ i o addr (s.old) k (s.old_at) (s.old_used)

    old_limit : o < page_limit
    old_limit = omega (arith, lt-length_of_some r.mem_map o (s.old_at), m.size)

    take_copy-ok :
        get_free_page r ≡ ok (addr, r₁)
        → take_copy (base d) address (o * page_size) r
          ≡ ok (after_copy slot i o (k.now_used.0) (s.old) r₁)
    unfolding take_copy
    take_copy-ok got =
        let (new, at, used, one) = k.now_used in
        let old_still : get_elem? r₁.mem_map o ≡ some (s.old) = k.others o old_apart ∙ s.old_at in
        let old_there : get_elem? (set r₁.mem_map i (record new { count = add32 new.count 1 })) o
            ≡ some (s.old) =
          get_elem?-set_ne r₁.mem_map (record new { count = add32 new.count 1 })
            (λ e. old_apart (sym e))
          ∙ old_still in
        let written : Ram =
          copy_words (i * page_size) (o * page_size)
            (write_entry slot (i * page_size + user_attr) r₁) in
        rw got (
          rw is_addr (
            rw (Tables-kept r r₁ d t address i addr m k) (
              ap (λ m. m >>= count_down (o * page_size)) (count_up_lem i written new at)
              ∙ count_down_lem o
                  (record written {
                    mem_map = set r₁.mem_map i (record new { count = add32 new.count 1 });
                  })
                  (s.old) old_there)))

    kept_before : (a : ℕ) → (a < base i) ⊎ (base i + page_size ≤ a) → r₁.mem a ≡ r.mem a
    kept_before a out =
        let where_i : va addr ≡ base i = ap va is_addr ∙ va-base i inside in
        k.kept a (subst (λ v. (a < v) ⊎ (v + page_size ≤ a)) (sym where_i) out)

    after_copy-Copied :
        Copied r t o address (s.old.count) (after_copy slot i o (k.now_used.0) (s.old) r₁)
    after_copy-Copied =
        let (new, at, used, one) = k.now_used in
        let new_va = va-base i inside in
        let old_va = va-base o old_limit in
        let out = apart i t (4 * table_index address) table_apart (omega arith) in
        record {
          new = i;
          was_free = k.was_free;
          entry =
              (let outside : (leb (va (i * page_size)) slot
                      && ltb slot (va (i * page_size) + page_size))
                    ≡ false =
                  ground arith in
                let itself : (slot == slot) ≡ true = ground arith in rw outside (rw itself refl));
          copied = λ j lt.
              let within : (leb (va (i * page_size)) (base i + j)
                    && ltb (base i + j) (va (i * page_size) + page_size))
                  ≡ true =
                ground arith in
              let from : va (o * page_size) + (base i + j - va (i * page_size)) ≡ base o + j =
                omega arith in
              let not_slot : (base o + j == slot) ≡ false =
                elim (apart t o j (λ e. s.not_table (sym e)) lt) [
                  | inl lo ↦ ground arith
                  | inr hi ↦ ground arith
                ] in
              rw within
                (rw from (rw not_slot (kept_before (base o + j) (apart i o j old_apart lt))));
          kept = λ a ne far.
              let outside : (leb (va (i * page_size)) a && ltb a (va (i * page_size) + page_size))
                  ≡ false =
                elim far [ inl lo ↦ ground arith | inr hi ↦ ground arith ] in
              let other : (a == slot) ≡ false = ground arith in
              rw outside (rw other (kept_before a far));
          new_count = (
            record new { count = add32 new.count 1 },
            get_elem?-set_ne _ _ old_apart
                ∙ get_elem?-set_self r₁.mem_map i _ (lt-length_of_some r₁.mem_map i at),
            omega (arith, one),
          );
          old_count = (
            record (s.old) { count = sub32 (s.old.count) 1 },
            get_elem?-set_self _ o _ (
                subst (λ l. o < l) (sym (length-set r₁.mem_map i _ ∙ k.size))
                  (lt-length_of_some r.mem_map o (s.old_at))),
            refl,
          );
        }

-- A write to a page that is shared, in a directory and a table that are in use: the writer gets a
-- page of its own with the same words, the page that was shared keeps its words and loses one from
-- its count, and no other word changes but the entry of the table; or memory is used up.
pub do_wp_page_lem :
    (r : Ram) (d t o address : ℕ) (m : Tables r d t address) (s : Shared r t o address)
    → ((r' : Ram) × (do_wp_page (base d) address r ≡ ok r') × Copied r t o address (s.old.count) r')
      ⊎ ((do_wp_page (base d) address r ≡ panicked) × UsedBelow r.mem_map (length r.mem_map))
unfolding do_wp_page take_copy
do_wp_page_lem r d t o address m s = elim (get_free_page_lem r) [
  | inl (i, addr, r₁, got, k) ↦ inl (
    after_copy (slot r d t o address m s) i o (k.now_used.0) (s.old) r₁,
    shared_branch ∙ take_copy-ok r d t o address m s i addr r₁ k got,
    after_copy-Copied r d t o address m s i addr r₁ k,
  )
  | inr (full, used) ↦ inr (shared_branch ∙ (rw full refl), used)
]
  where
    branch : ℕ → Page → Bool → Run Ram
    branch q p alone =
        if alone
        then ok (record (write_entry (slot_of (base d) address r) (q + user_attr) r) {
          mem_map = set r.mem_map (q / page_size) (record p { flags = p.flags - p.flags % 2 + 1 });
        })
        else take_copy (base d) address q r

    shared_branch : do_wp_page (base d) address r ≡ take_copy (base d) address (o * page_size) r
    shared_branch =
        let here : page_part (r.mem (slot_of (base d) address r)) ≡ o * page_size =
          ap (λ a. page_part (r.mem a)) (Tables-slot r d t address m)
          ∙ ap page_part (s.entry)
          ∙ page_part-entry o (s.attr) (s.attr_small) in
        let index : o * page_size / page_size ≡ o = omega arith in
        ap (λ q. deref (get_elem? r.mem_map (q / page_size)) >>= λ p. branch q p (p.count == 1))
          here
        ∙ ap (λ i. deref (get_elem? r.mem_map i) >>= λ p. branch (o * page_size) p (p.count == 1))
            index
        ∙ ap (λ e. deref e >>= λ p. branch (o * page_size) p (p.count == 1)) (s.old_at)
        ∙ ap (branch (o * page_size) (s.old)) (s.shared)
