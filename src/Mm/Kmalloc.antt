-- ===== src/Mm/Kmalloc.antt =====
-- mm/kmalloc.c: the bucket allocator. A chain of bucket descriptors is a list, and the list of
-- spare descriptors holds their addresses; the free objects of a page are linked through their
-- first words, in the memory of the page, as in the source.
pub mod Slots
pub mod Bucket
pub mod Valid
pub mod Replace
pub mod Insert
pub mod Alloc
pub mod Remove
pub mod Free
pub mod Client
pub mod Start
use jnix.Prelude.{
  ℕ, zero, suc, ◌+◌, ◌-◌, ◌*◌, ◌/◌, ◌%◌, ◌^◌, ◌&&◌, Bool, true, false, Option, none, some, List, [],
  ◌∷◌, ◌++◌, leb, ltb, ◌==◌, if◌then◌else◌, get_elem?, set, Run, ok, panicked, fault, ◌>>=◌, deref,
  u32_mod, add32, sub32,
}
use jnix.Mm.Page.{Ram, page_size, va, pa, get_free_page, free_page}

-- `struct bucket_desc`; `next` is the position in the chain.
pub record Desc : Type 0 where
  pub at : ℕ
  pub page : ℕ
  pub freeptr : ℕ
  pub refcnt : ℕ
  pub bucket_size : ℕ

-- `struct _bucket_dir`
pub record Dir : Type 0 where
  pub size : ℕ
  pub chain : List Desc

pub record Heap : Type 0 where
  pub ram : Ram
  pub bucket_dir : List Dir
  pub free_bucket_desc : List ℕ

abbrev pub empty_dir : ℕ → Dir
empty_dir n = record { size = n; chain = [] }

-- The table as the source initialises it; the entry of size 0 that ends it is the end of the list.
abbrev pub initial_dir : List Dir
initial_dir =
    empty_dir 16
    ∷ empty_dir 32
    ∷ empty_dir 64
    ∷ empty_dir 128
    ∷ empty_dir 256
    ∷ empty_dir 512
    ∷ empty_dir 1024
    ∷ empty_dir 2048
    ∷ empty_dir 4096
    ∷ []

-- A store of a word at an aligned address.
abbrev pub store : (ℕ → ℕ) → ℕ → ℕ → ℕ → ℕ
store mem p v a = if a == p then v else mem a

-- The addresses of `n` descriptors from `p` on; `sizeof(struct bucket_desc)` is 16.
unfoldable pub desc_addresses : ℕ → ℕ → List ℕ
desc_addresses zero p = []
desc_addresses (suc n) p = p ∷ desc_addresses n (p + 16)

unfoldable pub init_bucket_desc : Heap → Run Heap
init_bucket_desc h = do
  (p, ram) ← get_free_page h.ram
  let first = va p
  if first == 0
      then panicked
      else ok (record h {
        ram = ram;
        free_bucket_desc = desc_addresses (page_size / 16) first ++ h.free_bucket_desc;
      })

-- `for (i = n; i > 1; i--) { *cp = cp + size; cp += size; } *cp = 0;`
unfoldable pub carve : ℕ → ℕ → ℕ → (ℕ → ℕ) → ℕ → ℕ
carve zero size cp mem = store mem cp 0
carve (suc zero) size cp mem = store mem cp 0
carve (suc (suc n)) size cp mem = carve (suc n) size (cp + size) (store mem cp (cp + size))

-- `bucket_dir[k].chain = chain`
abbrev pub set_chain : Heap → ℕ → Dir → List Desc → List Dir
set_chain h k dir chain = set h.bucket_dir k (record dir { chain = chain })

-- `if (!free_bucket_desc) init_bucket_desc();`
unfoldable pub ensure_desc : Heap → Run Heap
ensure_desc h = elim h.free_bucket_desc [ [] ↦ init_bucket_desc h | d ∷ ds ↦ ok h ]

-- `bdesc = free_bucket_desc; free_bucket_desc = bdesc->next;`
unfoldable pub pop_desc : Heap → Run (ℕ × Heap)
pop_desc h = elim h.free_bucket_desc [
  | [] ↦ fault
  | d ∷ ds ↦ ok (d, record h { free_bucket_desc = ds })
]

-- A new descriptor, with its page carved into objects, at the head of the chain of entry `k`.
unfoldable pub new_bucket : ℕ → Heap → Run Heap
unfolding ensure_desc pop_desc
new_bucket k h₀ = do
  h₁ ← ensure_desc h₀
  (at, h) ← pop_desc h₁
  dir ← deref (get_elem? h.bucket_dir k)
  (p, ram) ← get_free_page h.ram
  let cp = va p
  if cp == 0
      then panicked
      else ok (record {
        ram = record ram { mem = carve (page_size / dir.size) dir.size cp ram.mem };
        bucket_dir = set_chain h k dir (
            record { at = at; page = cp; freeptr = cp; refcnt = 0; bucket_size = dir.size % 2 ^ 16 }
            ∷ dir.chain);
        free_bucket_desc = h.free_bucket_desc;
      })

-- The first entry whose size is enough.
unfoldable pub find_dir : List Dir → ℕ → Option ℕ
find_dir [] len = none
find_dir (dir ∷ dirs) len =
    if leb len dir.size
    then some 0
    else elim (find_dir dirs len) [ none ↦ none | some k ↦ some (suc k) ]

unfoldable pub has_free : List Desc → Bool
has_free [] = false
has_free (d ∷ ds) = if d.freeptr == 0 then has_free ds else true

-- Takes the head of the first free list that is not empty.
unfoldable pub take_slot : (ℕ → ℕ) → List Desc → Option (ℕ × List Desc)
take_slot mem [] = none
take_slot mem (d ∷ ds) =
    if d.freeptr == 0
    then elim (take_slot mem ds) [ none ↦ none | some (x, ds') ↦ some (x, d ∷ ds') ]
    else some
        (d.freeptr, record d { freeptr = mem d.freeptr; refcnt = (d.refcnt + 1) % 2 ^ 16 } ∷ ds)

-- `retval = bdesc->freeptr; bdesc->freeptr = *retval; bdesc->refcnt++;` in the chain of entry `k`
unfoldable pub take_from : ℕ → Heap → Run (ℕ × Heap)
take_from k h = do
  dir ← deref (get_elem? h.bucket_dir k)
  (x, chain) ← deref (take_slot h.ram.mem dir.chain)
  ok (x, record h { bucket_dir = set_chain h k dir chain })

-- `if (!bdesc)`: no descriptor of the chain has a free object.
unfoldable pub ensure_free : ℕ → Dir → Heap → Run Heap
ensure_free k dir h = if has_free dir.chain then ok h else new_bucket k h

unfoldable pub kmalloc : ℕ → Heap → Run (ℕ × Heap)
unfolding take_from ensure_free
kmalloc len h₀ = elim (find_dir h₀.bucket_dir len) [
  | none ↦ panicked
  | some k ↦ do dir ← deref (get_elem? h₀.bucket_dir k); h ← ensure_free k dir h₀; take_from k h
]

-- The position in a chain of the descriptor of a page.
unfoldable pub find_page : List Desc → ℕ → Option ℕ
find_page [] page = none
find_page (d ∷ ds) page =
    if d.page == page
    then some 0
    else elim (find_page ds page) [ none ↦ none | some j ↦ some (suc j) ]

-- One round of the search: `if (bdir->size < size) continue;`, else the walk over the chain.
unfoldable pub find_in : Dir → ℕ → ℕ → Option ℕ
find_in dir page size = if ltb dir.size size then none else find_page dir.chain page

-- The search of `kfree`.
unfoldable pub find_owner : List Dir → ℕ → ℕ → Option (ℕ × ℕ)
unfolding find_in
find_owner [] page size = none
find_owner (dir ∷ dirs) page size = elim (find_in dir page size) [
  | some j ↦ some (0, j)
  | none ↦ elim (find_owner dirs page size) [ none ↦ none | some (k, j) ↦ some (suc k, j) ]
]

unfoldable pub remove_at {ℓ} : {A : Type ℓ} → List A → ℕ → List A
remove_at [] j = []
remove_at (x ∷ xs) zero = xs
remove_at (x ∷ xs) (suc j) = x ∷ remove_at xs j

-- `obj & 0xfffff000`
abbrev pub page_of : ℕ → ℕ
page_of obj = obj - obj % page_size

-- What `kfree` does to the descriptor at `j` in the chain of entry `k`: nothing runs between the
-- search and the unlinking, so `prev` needs no second search.
unfoldable pub put_at : ℕ → ℕ → ℕ → Heap → Run Heap
put_at k j obj h = do
  dir ← deref (get_elem? h.bucket_dir k)
  d ← deref (get_elem? dir.chain j)
  let ram = record h.ram { mem = store h.ram.mem obj d.freeptr }
  let d' = record d { freeptr = obj; refcnt = (d.refcnt + (2 ^ 16 - 1)) % 2 ^ 16 }
  if d'.refcnt == 0
      then (do
        ram ← free_page (pa d.page) ram
        ok (record {
          ram = ram;
          bucket_dir = set_chain h k dir (remove_at dir.chain j);
          free_bucket_desc = d.at ∷ h.free_bucket_desc;
        }))
      else ok (record h { ram = ram; bucket_dir = set_chain h k dir (set dir.chain j d') })

unfoldable pub kfree : ℕ → ℕ → Heap → Run Heap
unfolding put_at
kfree obj size h = elim (find_owner h.bucket_dir (page_of obj) size) [
  | none ↦ panicked
  | some (k, j) ↦ put_at k j obj h
]

-- `memset(start, 0, size)` at an aligned address: a last word that the range ends in loses its low
-- bytes only.
abbrev pub clear_bytes : (ℕ → ℕ) → ℕ → ℕ → ℕ → ℕ
clear_bytes mem start size a =
    if leb start a
    then (if leb 4 (start + size - a) then 0 else mem a - mem a % 256 ^ (start + size - a))
    else mem a

unfoldable pub kzmalloc : ℕ → Heap → Run (ℕ × Heap)
kzmalloc size h = do
  (a, h) ← kmalloc size h
  if a == 0
      then ok (a, h)
      else ok (a, record h { ram = record h.ram { mem = clear_bytes h.ram.mem a size } })
