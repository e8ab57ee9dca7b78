-- ===== src/Mm/Tests.antt =====
-- Small runs of mm/, and the theorems at them.
use jnix.Prelude.{
  ℕ, ◌+◌, ◌<◌, ◌≤◌, ◌≡◌, refl, sym, ap, ◌∙◌, ◌⊎◌, inl, inr, true, false, Option, some, none, [],
  ◌∷◌, arith, Run, ok, panicked, fault, stuck, ◌>>=◌,
}
use jnix.Mm.Page.{Page, Ram, get_free_page}
use jnix.Mm.Page.Alloc.{UsedBelow, Taken, get_free_page_lem}
use jnix.Mm.Kmalloc
use jnix.Mm.Kmalloc.{Heap, store, has_free, kmalloc, kzmalloc, kfree}
use jnix.Mm.Kmalloc.Slots.{Live, set_live}
use jnix.Mm.Kmalloc.Valid.{Owned, IsValid}
use jnix.Mm.Kmalloc.Alloc.{BestFit, TooLarge, Allocated, kmalloc_lem}
use jnix.Mm.Kmalloc.Free.{kfree_lem}
use jnix.Mm.Kmalloc.Client.{kmalloc-disjoint}
use jnix.Mm.Kmalloc.Start.{start, start-IsValid}

abbrev free_entry : Page
free_entry = record { count = 0; flags = 0 }

abbrev used_entry : Page
used_entry = record { count = 1; flags = 1 }

-- Page 0 is taken, four pages are free, and memory is full of sevens.
abbrev ram : Ram
ram = record {
  mem_map = used_entry ∷ free_entry ∷ free_entry ∷ free_entry ∷ free_entry ∷ [];
  mem = λ a. 7;
}

abbrev address_of : Run (ℕ × Heap) → Option ℕ
address_of (ok (x, h)) = some x
address_of panicked = none
address_of fault = none
address_of stuck = none

-- The descriptors take page 1, the objects page 2.
first_object : address_of (kmalloc 20 (start ram)) ≡ some 0xC0002000
unfolding kmalloc Kmalloc.find_dir Kmalloc.has_free Kmalloc.new_bucket Kmalloc.init_bucket_desc
    Kmalloc.desc_addresses Kmalloc.take_slot get_free_page
first_object = refl

-- A second request of the same entry takes the next object of the page, and a freed one is taken
-- again.
second_object :
    address_of (do (x, h) ← kmalloc 20 (start ram); (y, h) ← kmalloc 32 h; kmalloc 17 h)
    ≡ some 0xC0002040
unfolding kmalloc Kmalloc.find_dir Kmalloc.has_free Kmalloc.new_bucket Kmalloc.init_bucket_desc
    Kmalloc.desc_addresses Kmalloc.take_slot Kmalloc.carve get_free_page
second_object = refl

too_large : address_of (kmalloc 4097 (start ram)) ≡ none
unfolding kmalloc Kmalloc.find_dir
too_large = refl

abbrev idle : Live
idle = λ x. false

idle-IsValid : IsValid idle (start ram)
idle-IsValid = start-IsValid ram (omega arith)

first :
    (x : ℕ) × (h : Heap) × (kmalloc 20 (start ram) ≡ ok (x, h)) × Allocated idle (start ram) 20 x h
first = elim (kmalloc_lem idle (start ram) 20 idle-IsValid) [
  | inl a ↦ a
  | inr (p, why) ↦ absurd (cc (sym first_object ∙ ap address_of p))
]

abbrev held : Live
held = set_live idle first.0 true

first_size : 20 ≤ first.3.owner.s
first_size = let e = first.3.fit.enough in let q = first.3.size in omega arith

first_alive : held first.0 ≡ true
first_alive = ground arith

get_free_page_lem_example :
    ((i : ℕ) × (addr : ℕ) × (r : Ram) × (get_free_page ram ≡ ok (addr, r)) × Taken ram i addr r)
    ⊎ ((get_free_page ram ≡ panicked) × UsedBelow ram.mem_map 5)
get_free_page_lem_example = get_free_page_lem ram

kmalloc_lem_example :
    ((x : ℕ) × (h : Heap) × (kmalloc 20 (start ram) ≡ ok (x, h))
      × Allocated idle (start ram) 20 x h)
    ⊎ ((kmalloc 20 (start ram) ≡ panicked)
        × (TooLarge (start ram).bucket_dir 20
            ⊎ ((k : ℕ) × (fit : BestFit (start ram).bucket_dir 20 k) × (has_free fit.dir.chain
                  ≡ false))))
kmalloc_lem_example = kmalloc_lem idle (start ram) 20 idle-IsValid

kfree_lem_example :
    (h : Heap) × (kfree first.0 20 first.1 ≡ ok h) × IsValid (set_live held first.0 false) h
kfree_lem_example =
    kfree_lem held first.1 first.0 20 first.3.owner first.3.valid first_alive first_size

first_store :
    (a : ℕ)
    → (a < first.0) ⊎ (first.0 + first.3.owner.s ≤ a)
    → store first.1.ram.mem first.0 99 a ≡ first.1.ram.mem a
first_store a out = let n = first_size in ground arith

kmalloc-disjoint_example :
    ((x : ℕ) × (h' : Heap) × (kmalloc 32 first.1 ≡ ok (x, h'))
      × ((o : Owned h'.bucket_dir x) × (p : Owned h'.bucket_dir first.0) × (32 ≤ o.s)
          × ((x + o.s ≤ first.0) ⊎ (first.0 + p.s ≤ x))))
    ⊎ ((kmalloc 32 first.1 ≡ panicked)
        × (TooLarge first.1.bucket_dir 32
            ⊎ ((k : ℕ) × (fit : BestFit first.1.bucket_dir 32 k) × (has_free fit.dir.chain
                  ≡ false))))
kmalloc-disjoint_example = kmalloc-disjoint held first.1 32 first.0 first.3.valid first_alive
