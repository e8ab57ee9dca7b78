-- ===== src/Mm/Kmalloc/Start.antt =====
-- The allocator as the source initialises it.
use jnix.Prelude.{
  ℕ, zero, suc, ◌^◌, ◌≤◌, ◌<◌, ◌≡◌, refl, sym, subst, ap, ◌∙◌, false, some, List, [], arith, length,
  get_elem?,
}
use jnix.Mm.Page.{Ram}
use jnix.Mm.Kmalloc.{Desc, Dir, Heap, empty_dir, initial_dir}
use jnix.Mm.Kmalloc.Bucket.{IsSize}
use jnix.Mm.Kmalloc.Valid.{At, IsValid, some_inj, max_pages}

abbrev pub start : Ram → Heap
start ram = record { ram = ram; bucket_dir = initial_dir; free_bucket_desc = [] }

abbrev Entry : Dir → Type 0
Entry dir = IsSize dir.size × (dir.size < 2 ^ 16) × (dir.chain ≡ [])

entry_of : (n : ℕ) (dir : Dir) → IsSize n → n < 2 ^ 16 → some (empty_dir n) ≡ some dir → Entry dir
entry_of n dir fits small e = subst Entry (some_inj e) (fits, small, refl)

initial_entry : (k : ℕ) (dir : Dir) → get_elem? initial_dir k ≡ some dir → Entry dir
initial_entry zero dir e = entry_of 16 dir (omega arith) (omega arith) e
initial_entry (suc zero) dir e = entry_of 32 dir (omega arith) (omega arith) e
initial_entry (suc (suc zero)) dir e = entry_of 64 dir (omega arith) (omega arith) e
initial_entry (suc (suc (suc zero))) dir e = entry_of 128 dir (omega arith) (omega arith) e
initial_entry (suc (suc (suc (suc zero)))) dir e = entry_of 256 dir (omega arith) (omega arith) e
initial_entry (suc (suc (suc (suc (suc zero))))) dir e =
    entry_of 512 dir (omega arith) (omega arith) e
initial_entry (suc (suc (suc (suc (suc (suc zero)))))) dir e =
    entry_of 1024 dir (omega arith) (omega arith) e
initial_entry (suc (suc (suc (suc (suc (suc (suc zero))))))) dir e =
    entry_of 2048 dir (omega arith) (omega arith) e
initial_entry (suc (suc (suc (suc (suc (suc (suc (suc zero)))))))) dir e =
    entry_of 4096 dir (omega arith) (omega arith) e
initial_entry (suc (suc (suc (suc (suc (suc (suc (suc (suc k))))))))) dir e = absurd (ground arith)

nowhere : {k j s : ℕ} {d : Desc} → At initial_dir k j s d → ⊥
nowhere {k} {j} at =
    let empty = (initial_entry k at.dir at.entry).2 in
    cc (sym at.member ∙ ap (λ (l : List Desc). get_elem? l j) empty)

-- With no object handed out the table of the source is valid, on any table of pages.
pub start-IsValid : (ram : Ram) → length ram.mem_map ≤ max_pages → IsValid (λ x. false) (start ram)
start-IsValid ram few = record {
  sizes = λ k dir e. let i = initial_entry k dir e in (i.0, i.1);
  buckets = λ k j s d at. absurd (nowhere at);
  once = λ k j s d k' j' s' d' at at' q. absurd (nowhere at);
  pages = λ k j s d at. absurd (nowhere at);
  owned = λ x alive. absurd (cc alive);
  few = few;
}
