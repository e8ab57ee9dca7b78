-- ===== src/Mm/Page.antt =====
-- mm/page.c: the table of physical pages. `Ram` is the table with the memory that the pages hold,
-- addressed by kernel virtual address.
pub mod Alloc
use jnix.Prelude.{
  ℕ, zero, suc, ◌+◌, ◌-◌, ◌*◌, ◌/◌, ◌%◌, ◌^◌, ◌&&◌, Bool, true, false, Option, none, some, List, [],
  ◌∷◌, leb, ltb, ◌==◌, if◌then◌else◌, get_elem?, set, Run, ok, panicked, fault, ◌>>=◌, deref,
  u32_mod, add32, sub32,
}

-- `struct Page`
pub record Page : Type 0 where
  pub count : ℕ
  pub flags : ℕ

pub record Ram : Type 0 where
  pub mem_map : List Page
  pub mem : ℕ → ℕ

abbrev pub page_offset : ℕ
page_offset = 0xC0000000

abbrev pub page_size : ℕ
page_size = 4096

abbrev pub va : ℕ → ℕ
va p = add32 p page_offset

abbrev pub pa : ℕ → ℕ
pa v = sub32 v page_offset

-- `flags & MP_USE`, where MP_USE is the lowest bit
abbrev pub in_use : Page → Bool
in_use p = p.flags % 2 == 1

-- `flags |= MP_USE; count = 1`
abbrev pub claim : Page → Page
claim p = record p { flags = p.flags - p.flags % 2 + 1; count = 1 }

-- `flags = ~MP_USE; count--`
abbrev pub release : Page → Page
release p = record { flags = u32_mod - 2; count = sub32 p.count 1 }

-- `memset((void *)start, 0, PAGE_SIZE)`
abbrev pub clear_page : (ℕ → ℕ) → ℕ → ℕ → ℕ
clear_page mem start a = if leb start a && ltb a (start + page_size) then 0 else mem a

-- The index at which the loop of `get_free_page` stops.
unfoldable pub first_free : List Page → Option ℕ
first_free [] = none
first_free (p ∷ ps) =
    if in_use p then elim (first_free ps) [ none ↦ none | some i ↦ some (suc i) ] else some 0

unfoldable pub get_free_page : Ram → Run (ℕ × Ram)
unfolding first_free
get_free_page r = elim (first_free r.mem_map) [
  | none ↦ panicked
  | some i ↦ do
    p ← deref (get_elem? r.mem_map i)
    ok (
      i * page_size % u32_mod,
      record {
        mem_map = set r.mem_map i (claim p);
        mem = clear_page r.mem (va (i * page_size % u32_mod));
      },
    )
]

-- Out of the table the write goes astray.
unfoldable pub free_page : ℕ → Ram → Run Ram
free_page physics_addr r = do
  let i = physics_addr / page_size
  p ← deref (get_elem? r.mem_map i)
  ok (record r { mem_map = set r.mem_map i (release p) })
