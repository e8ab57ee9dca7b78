-- ===== src/Fs/Files/Seek.antt =====
-- `sys_lseek` of fs/file_op.c moves one descriptor, by sums of 32 bits.
use jnix.Prelude.{
  is_negative, minus, ℕ, zero, suc, ◌+◌, ◌^◌, ◌<◌, ◌≤◌, add32, ◌≡◌, ◌≢◌, refl, sym, subst, ap, ◌∙◌,
  ◌⊎◌, inl, inr, false, Option, none, some, arith, ◌==◌, leb, ltb, Bool-cases, get_elem?, set,
  lt-length_of_some, Run, ok, deref, get_elem?-set_self, get_elem?-set_ne,
}
use mathlib.Core.Option.{some-injective}
use jnix.Fs.State.{Inode, FileDescriptor, Vfs, proc_files_max_count}
use jnix.Fs.Files.{set_desc, opened, seek_to, sys_lseek}
use jnix.Fs.Files.Counts.{IsValid, refs}

-- What an offset is relative to.
abbrev pub base_of : FileDescriptor → ℕ → ℕ → ℕ
base_of f size zero = 0
base_of f size (suc zero) = f.pos
base_of f size (suc (suc _)) = size

-- `pos` is the sum of the two in 32 bits.
abbrev pub Wraps : ℕ → ℕ → ℕ → Type 0
Wraps base offset pos = (pos < 2 ^ 32) × ((pos ≡ base + offset) ⊎ (pos + 2 ^ 32 ≡ base + offset))

add32-Wraps :
    (base offset : ℕ) → base < 2 ^ 32 → offset < 2 ^ 32 → Wraps base offset (add32 base offset)
add32-Wraps base offset b o = elim (Bool-cases (ltb (base + offset) (2 ^ 32))) [
  | inl small ↦ (omega arith, inl (ground arith))
  | inr large ↦ (omega arith, inr (ground arith))
]

-- What `seek_to` answers: the sum, for the end of the file only one that is not negative as an int.
Sought : FileDescriptor → ℕ → ℕ → ℕ → Type 0
Sought f size offset whence =
    ((pos : ℕ) × (whence < 3)
      × Wraps (base_of f size whence) offset pos
      × (whence ≡ 2 → pos < 2 ^ 31)
      × (seek_to f size offset whence ≡ some pos))
    ⊎ ((seek_to f size offset whence ≡ none)
        × ((3 ≤ whence) ⊎ ((whence ≡ 2) × ((pos : ℕ) × Wraps size offset pos × (2 ^ 31 ≤ pos)))))

seek_to_lem :
    (f : FileDescriptor) (size offset whence : ℕ)
    → offset < 2 ^ 32
    → f.pos < 2 ^ 32
    → size < 2 ^ 32
    → Sought f size offset whence
unfolding seek_to Sought
seek_to_lem f size offset zero o p s =
    inl (offset, omega arith, (o, inl (omega arith)), λ q. absurd (omega arith), refl)
seek_to_lem f size offset (suc zero) o p s =
    inl (
      add32 f.pos offset,
      omega arith,
      add32-Wraps f.pos offset p o,
      λ q. absurd (omega arith),
      refl,
    )
seek_to_lem f size offset (suc (suc zero)) o p s =
    elim (Bool-cases (is_negative (add32 size offset))) [
      | inl neg ↦
          inr (
            rw neg refl,
            inr (refl, (add32 size offset, add32-Wraps size offset s o, ground arith)),
          )
      | inr pos ↦ inl (
        add32 size offset,
        omega arith,
        add32-Wraps size offset s o,
        λ q. ground arith,
        rw pos refl,
      )
    ]
seek_to_lem f size offset (suc (suc (suc k))) o p s = inr (ground arith, inl (omega arith))

module _ (v : Vfs) (fd i : ℕ) (f : FileDescriptor) (h : IsValid v)
    (e : get_elem? v.current_thread.file_table fd ≡ some (some i))
    (d : get_elem? v.f_desc_table i ≡ some f) where
  abbrev pub moved : ℕ → FileDescriptor
  moved pos = record f { pos = pos }

  moved-IsValid : (pos : ℕ) → IsValid (set_desc v i (record f { pos = pos }))
  moved-IsValid pos = record {
    sized = h.sized;
    opened = λ fd' j at.
        let o = h.opened fd' j at in
        elim (Bool-cases (i == j)) [
          | inl same ↦
              let ij : i ≡ j = ground arith in
              let there = subst (λ k. get_elem? v.f_desc_table k ≡ some f) ij d in
              let q = some-injective o.file f (sym o.there ∙ there) in
              record {
                file = moved pos;
                there =
                    subst (λ k. get_elem? (set v.f_desc_table i (moved pos)) k ≡ some (moved pos))
                      ij
                      (get_elem?-set_self v.f_desc_table i (moved pos)
                        (lt-length_of_some v.f_desc_table i d));
                inode = o.inode;
                has_inode = ap (λ (r : FileDescriptor). r.inode) (sym q) ∙ o.has_inode;
                in_table = o.in_table;
              }
          | inr other ↦
              let ne : i ≢ j = ground arith in
              record {
                file = o.file;
                there = get_elem?-set_ne v.f_desc_table (moved pos) ne ∙ o.there;
                inode = o.inode;
                has_inode = o.has_inode;
                in_table = o.in_table;
              }
        ];
    counted = λ j f' n at q. elim (Bool-cases (i == j)) [
      | inl same ↦
          let ij : i ≡ j = ground arith in
          let at' =
            subst (λ k. get_elem? (set v.f_desc_table i (moved pos)) k ≡ some f') (sym ij) at in
          let here =
            get_elem?-set_self v.f_desc_table i (moved pos)
              (lt-length_of_some v.f_desc_table i d) in
          let m = some-injective (moved pos) f' (sym here ∙ at') in
          sym (ap (λ (r : FileDescriptor). r.used_count) m)
          ∙ h.counted i f n d (ap (λ (r : FileDescriptor). r.inode) m ∙ q)
          ∙ ap (λ k. refs k v.current_thread.file_table) ij
      | inr other ↦
          let ne : i ≢ j = ground arith in
          h.counted j f' n (sym (get_elem?-set_ne v.f_desc_table (moved pos) ne) ∙ at) q
    ];
  }

  -- The answer of `opened` for the descriptor, whose inode may be null.
  abbrev answer : Option ℕ → Run (Option (ℕ × FileDescriptor))
  answer x = ok (elim x [ none ↦ none | some n ↦ some (i, f) ])

  opened_lem : (n : ℕ) → f.inode ≡ some n → opened fd v ≡ ok (some (i, f))
  unfolding opened
  opened_lem n q =
      let lt = lt-length_of_some v.current_thread.file_table fd e in
      let s = h.sized in
      let inside : leb proc_files_max_count fd ≡ false = ground arith in
      let neg : is_negative fd ≡ false = ground arith in
      rw (neg, inside) (rw e (rw d (ap answer q)))

  -- Seeking in an open file. From the start, from the position and from the end with a sum that is
  -- not negative as an int, the new position is the sum of base and offset in 32 bits, the descriptor
  -- keeps all else and the counts still agree: an offset that goes back behind the start wraps round
  -- to a position near 2 ^ 32. From the end with a negative sum, or from anywhere else, the result is
  -- -1 and nothing changes.
  pub sys_lseek_lem :
      (offset whence n : ℕ) (inode : Inode)
      → f.inode ≡ some n
      → get_elem? v.inode_table n ≡ some inode
      → offset < 2 ^ 32
      → f.pos < 2 ^ 32
      → inode.size < 2 ^ 32
      → ((pos : ℕ) × (whence < 3)
          × Wraps (base_of f inode.size whence) offset pos
          × (whence ≡ 2 → pos < 2 ^ 31)
          × (sys_lseek fd offset whence v ≡ ok (pos, set_desc v i (record f { pos = pos })))
          × IsValid (set_desc v i (record f { pos = pos })))
        ⊎ ((sys_lseek fd offset whence v ≡ ok (minus 1, v))
            × ((3 ≤ whence)
                ⊎ ((whence ≡ 2) × ((pos : ℕ) × Wraps inode.size offset pos × (2 ^ 31 ≤ pos)))))
  unfolding sys_lseek Sought
  sys_lseek_lem offset whence n inode q r o p s =
      let step = opened_lem n q in
      elim (seek_to_lem f inode.size offset whence o p s) [
        | inr (e, why) ↦ inr (rw step (rw (ap deref q) (rw r (rw e refl))), why)
        | inl (pos, w, wraps, small, e) ↦
            inl (
              pos,
              w,
              wraps,
              small,
              rw step (rw (ap deref q) (rw r (rw e refl))),
              moved-IsValid pos,
            )
      ]
