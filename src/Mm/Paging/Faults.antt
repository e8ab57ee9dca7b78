-- ===== src/Mm/Paging/Faults.antt =====
-- What the two handlers of arch/i386/page.c leave in memory.
use jnix.Prelude.{
  ℕ, ◌+◌, ◌*◌, ◌≤◌, ◌<◌, ◌≡◌, ◌≢◌, sym, subst, ap, ◌∙◌, ◌⊎◌, inl, inr, true, some, arith, length,
  get_elem?, lt-length_of_some, u32_mod,
}
use mathlib.Core.Option.{some-injective}
use jnix.Mm.Page.{Page, Ram, page_size, va, in_use}
use jnix.Mm.Page.Alloc.{Taken}
use jnix.Mm.Paging.{dir_index, table_index, page_part, entry_addr, slot_of}

-- The pages below 896 MB, at their kernel virtual addresses.
abbrev pub page_limit : ℕ
page_limit = 0x38000

abbrev pub base : ℕ → ℕ
base i = i * page_size + 0xC0000000

pub va-base : (i : ℕ) → i < page_limit → va (i * page_size) ≡ base i
va-base i lt = omega arith

pub entry_addr-base : (i j : ℕ) → i < page_limit → j < 1024 → entry_addr (base i) j ≡ base i + 4 * j
entry_addr-base i j lt lj = omega arith

pub page_part-entry : (i attr : ℕ) → attr < 4096 → page_part (i * page_size + attr) ≡ i * page_size
page_part-entry i attr lt = omega arith

-- Two different pages lie apart.
pub apart :
    (i d k : ℕ) → d ≢ i → k < 4096 → (base d + k < base i) ⊎ (base i + page_size ≤ base d + k)
apart i d k ne lt = elim (less_or_more d i ne) [
  | inl below ↦ inl (omega arith)
  | inr above ↦ inr (omega arith)
]
  where
    less_or_more : (a b : ℕ) → a ≢ b → (a < b) ⊎ (b < a)
    less_or_more a b ne = ground arith

-- The table of a directory's entry, and the place in it.
pub slot_lem :
    (d t attr address : ℕ) (r : Ram)
    → d < page_limit
    → t < page_limit
    → attr < 4096
    → address < u32_mod
    → r.mem (base d + 4 * dir_index address) ≡ t * page_size + attr
    → slot_of (base d) address r ≡ base t + 4 * table_index address
slot_lem d t attr address r ld lt la small entry =
    let at : entry_addr (base d) (dir_index address) ≡ base d + 4 * dir_index address =
      entry_addr-base d (dir_index address) ld (omega arith) in
    rw at (
      rw entry (
        rw (page_part-entry t attr la)
          (rw (va-base t lt) (entry_addr-base t (table_index address) lt (omega arith)))))

-- A page in use is not the one that is handed out.
pub Taken-apart :
    (r r' : Ram) (i d addr : ℕ) (p : Page)
    → Taken r i addr r'
    → get_elem? r.mem_map d ≡ some p
    → in_use p ≡ true
    → d ≢ i
Taken-apart r r' i d addr p t at used same =
    let (q, at', free) = t.was_free in
    let q_p : q ≡ p = some-injective q p (sym at' ∙ sym (ap (get_elem? r.mem_map) same) ∙ at) in
    absurd (ground (arith, ap in_use q_p))

-- The directory is the page `d` and its entry for the address leads to the table in the page `t`;
-- both pages are in use.
pub record Tables (r : Ram) (d t address : ℕ) : Type 0 where
  pub size : length r.mem_map ≤ page_limit
  pub small : address < u32_mod
  pub dir_page : Page
  pub dir_at : get_elem? r.mem_map d ≡ some dir_page
  pub dir_used : in_use dir_page ≡ true
  pub table_page : Page
  pub table_at : get_elem? r.mem_map t ≡ some table_page
  pub table_used : in_use table_page ≡ true
  pub attr : ℕ
  pub attr_small : attr < page_size
  pub entry : r.mem (base d + 4 * dir_index address) ≡ t * page_size + attr

pub dir-limit : (r : Ram) (d t address : ℕ) → Tables r d t address → d < page_limit
dir-limit r d t address m = omega (arith, lt-length_of_some r.mem_map d (m.dir_at), m.size)

pub table-limit : (r : Ram) (d t address : ℕ) → Tables r d t address → t < page_limit
table-limit r d t address m = omega (arith, lt-length_of_some r.mem_map t (m.table_at), m.size)

pub Tables-slot :
    (r : Ram) (d t address : ℕ)
    → Tables r d t address
    → slot_of (base d) address r ≡ base t + 4 * table_index address
Tables-slot r d t address m =
    slot_lem d t (m.attr) address r (dir-limit r d t address m) (table-limit r d t address m)
      (m.attr_small) (m.small) (m.entry)

-- Handing out a page leaves the directory and the table as they were.
pub Tables-kept :
    (r r' : Ram) (d t address i addr : ℕ)
    → Tables r d t address
    → Taken r i addr r'
    → slot_of (base d) address r' ≡ base t + 4 * table_index address
Tables-kept r r' d t address i addr m k =
    let (p, at, free) = k.was_free in
    let inside = lt-length_of_some r.mem_map i at in
    let where_i : va addr ≡ base i = ap va (k.address) ∙ omega (arith, inside, m.size) in
    let same : r'.mem (base d + 4 * dir_index address) ≡ r.mem (base d + 4 * dir_index address) =
      k.kept (base d + 4 * dir_index address) (
        subst
          (λ v.
            (base d + 4 * dir_index address < v) ⊎ (v + page_size ≤ base d + 4 * dir_index address))
          (sym where_i)
          (apart i d (4 * dir_index address)
            (Taken-apart r r' i d addr (m.dir_page) k (m.dir_at) (m.dir_used))
            (omega (arith, m.small)))) in
    slot_lem d t (m.attr) address r' (dir-limit r d t address m) (table-limit r d t address m)
      (m.attr_small) (m.small) (same ∙ m.entry)
