-- ===== src/Mm/Paging.antt =====
-- arch/i386/page.c: the two handlers of page faults. Directories and tables of pages are words in
-- the memory of `Ram`, at kernel virtual addresses. Flushing the processor's cache is left out.
pub mod Faults
pub mod Copies
pub mod Fresh
mod Tests
use jnix.Prelude.{
  ℕ, ◌+◌, ◌-◌, ◌*◌, ◌/◌, ◌%◌, ◌^◌, ◌&&◌, Bool, List, leb, ltb, ◌==◌, if◌then◌else◌, get_elem?, set,
  Run, ok, ◌>>=◌, deref, add32, sub32,
}
use jnix.Mm.Page.{Page, Ram, page_size, va, get_free_page}

-- `PG_P | PG_RWW | PG_USS` and `PG_P | PG_RWW | PG_USU`
abbrev pub kernel_attr : ℕ
kernel_attr = 3

abbrev pub user_attr : ℕ
user_attr = 7

-- `address >> 22` and `address >> 12 & 0x03FF`
abbrev pub dir_index : ℕ → ℕ
dir_index address = address / 2 ^ 22

abbrev pub table_index : ℕ → ℕ
table_index address = address / 2 ^ 12 % 1024

-- `entry & 0xfffff000`
abbrev pub page_part : ℕ → ℕ
page_part entry = entry / page_size * page_size

-- Where `entry[i]` of a directory or table lies.
abbrev pub entry_addr : ℕ → ℕ → ℕ
entry_addr table i = add32 table (4 * i)

-- `&get_pt_entry_v_addr(page_dir->entry[index1])->entry[index2]`
abbrev pub slot_of : ℕ → ℕ → Ram → ℕ
slot_of page_dir address r =
    entry_addr (va (page_part (r.mem (entry_addr page_dir (dir_index address)))))
      (table_index address)

abbrev pub write_entry : ℕ → ℕ → Ram → Ram
write_entry a v r = record r { mem = λ b. if b == a then v else r.mem b }

-- `memcpy((void *)__va(new_page), (void *)__va(old_page), 1024 * 4)`
abbrev pub copy_words : ℕ → ℕ → Ram → Ram
copy_words new_page old_page r = record r {
  mem = λ a.
      if leb (va new_page) a && ltb a (va new_page + page_size)
      then r.mem (va old_page + (a - va new_page))
      else r.mem a;
}

-- `mem_map[page >> 12].count++`, and `count--`
unfoldable pub count_up : ℕ → Ram → Run Ram
count_up page r = do
  p ← deref (get_elem? r.mem_map (page / page_size))
  ok (record r {
    mem_map = set r.mem_map (page / page_size) (record p { count = add32 p.count 1 });
  })

unfoldable pub count_down : ℕ → Ram → Run Ram
count_down page r = do
  p ← deref (get_elem? r.mem_map (page / page_size))
  ok (record r {
    mem_map = set r.mem_map (page / page_size) (record p { count = sub32 p.count 1 });
  })

-- The branch of a page that another table has too.
unfoldable pub take_copy : ℕ → ℕ → ℕ → Ram → Run Ram
take_copy page_dir address old_page r = do
  (new_page, r₁) ← get_free_page r
  let r₂ = write_entry (slot_of page_dir address r₁) (new_page + user_attr) r₁
  r₃ ← count_up new_page (copy_words new_page old_page r₂)
  count_down old_page r₃

-- `page_dir` is the current thread's.
unfoldable pub do_wp_page : ℕ → ℕ → Ram → Run Ram
do_wp_page page_dir address r = do
  let slot = slot_of page_dir address r
  let old_page = page_part (r.mem slot)
  p ← deref (get_elem? r.mem_map (old_page / page_size))
  let r' = write_entry slot (old_page + user_attr) r
  if p.count == 1
      then ok (record r' {
        mem_map =
            set r.mem_map (old_page / page_size) (record p { flags = p.flags - p.flags % 2 + 1 });
      })
      else take_copy page_dir address old_page r

unfoldable pub create_table : ℕ → Ram → Run (ℕ × Ram)
create_table attr r = do (page, r') ← get_free_page r; ok (page + attr, r')

-- `kernel` is whether the current thread is the kernel's.
unfoldable pub do_no_page : Bool → ℕ → ℕ → Ram → Run Ram
do_no_page kernel page_dir address r = do
  let attr = if kernel then kernel_attr else user_attr
  (new_page, r₁) ← get_free_page r
  (table, r₂) ← create_table attr r₁
  let r₃ = write_entry (entry_addr page_dir (dir_index address)) table r₂
  count_up new_page (write_entry (slot_of page_dir address r₃) (new_page + attr) r₃)
