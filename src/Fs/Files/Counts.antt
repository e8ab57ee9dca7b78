-- ===== src/Fs/Files/Counts.antt =====
-- The invariant of the descriptors in fs/file_op.c: each counts the entries of the thread's table
-- that point to it.
use jnix.Prelude.{
  ℕ, zero, suc, ◌+◌, ◌≤◌, ◌<◌, ◌≡◌, ◌≢◌, refl, sym, subst, ap, ◌∙◌, ◌⊎◌, inl, inr, Option, none,
  some, List, [], ◌∷◌, arith, ◌==◌, if◌then◌else◌, Bool-cases, length, get_elem?, set, length-set,
  get_elem?-set_self, get_elem?-set_ne, lt-length_of_some,
}
use mathlib.Core.Option.{none-ne-some, some-injective}
use jnix.Fs.State.{Inode, FileDescriptor, Vfs, proc_files_max_count}
use jnix.Fs.Files.{set_fd, set_desc, set_inode}

-- 1 if the entry points to descriptor `i`.
abbrev pub points : ℕ → Option ℕ → ℕ
points i none = 0
points i (some j) = if j == i then 1 else 0

unfoldable pub refs : ℕ → List (Option ℕ) → ℕ
refs i [] = 0
refs i (x ∷ table) = points i x + refs i table

pub refs-set :
    (i : ℕ) (table : List (Option ℕ)) (fd : ℕ) (old new : Option ℕ)
    → get_elem? table fd ≡ some old
    → refs i (set table fd new) + points i old ≡ refs i table + points i new
unfolding refs
refs-set i [] fd old new e = absurd (none-ne-some old e)
refs-set i (x ∷ table) zero old new e =
    let same = ap (points i) (some-injective x old e) in omega arith
refs-set i (x ∷ table) (suc fd) old new e = omega (arith, refs-set i table fd old new e)

pub points-bound : (i : ℕ) (x : Option ℕ) → points i x ≤ 1
points-bound i none = omega arith
points-bound i (some j) = ground arith

pub refs-bound : (i : ℕ) (table : List (Option ℕ)) → refs i table ≤ length table
unfolding refs
refs-bound i [] = omega arith
refs-bound i (x ∷ table) = omega (arith, refs-bound i table, points-bound i x)

pub refs-pos :
    (i : ℕ) (table : List (Option ℕ)) (fd : ℕ)
    → get_elem? table fd ≡ some (some i)
    → 0 < refs i table
unfolding refs
refs-pos i [] fd e = absurd (none-ne-some (some i) e)
refs-pos i (x ∷ table) zero e =
    let one : points i (some i) ≡ 1 = ground arith in
    let same = ap (points i) (some-injective x (some i) e) in omega arith
refs-pos i (x ∷ table) (suc fd) e = omega (arith, refs-pos i table fd e)

-- An entry that points to a descriptor is found in the table.
pub refs-zero :
    (i : ℕ) (table : List (Option ℕ))
    → ((fd : ℕ) → get_elem? table fd ≢ some (some i))
    → refs i table ≡ 0
unfolding refs
refs-zero i [] h = refl
refs-zero i (none ∷ table) h = omega (arith, refs-zero i table (λ fd. h (suc fd)))
refs-zero i (some j ∷ table) h = elim (Bool-cases (j == i)) [
  | inl same ↦ let q : j ≡ i = ground arith in absurd (h 0 (ap (λ k. some (some k)) q))
  | inr other ↦ ground (arith, refs-zero i table (λ fd. h (suc fd)))
]

-- The descriptor `i` is open: it has an inode that is in the table of inodes.
pub record Opened (v : Vfs) (i : ℕ) : Type 0 where
  pub file : FileDescriptor
  pub there : get_elem? v.f_desc_table i ≡ some file
  pub inode : ℕ
  pub has_inode : file.inode ≡ some inode
  pub in_table : inode < length v.inode_table

pub record IsValid (v : Vfs) : Type 0 where
  pub sized : length v.current_thread.file_table ≡ proc_files_max_count
  pub opened : (fd i : ℕ) → get_elem? v.current_thread.file_table fd ≡ some (some i) → Opened v i
  pub counted :
      (i : ℕ) (f : FileDescriptor) (n : ℕ)
      → get_elem? v.f_desc_table i ≡ some f
      → f.inode ≡ some n
      → f.used_count ≡ refs i v.current_thread.file_table

-- The state after one entry of the thread's table, one descriptor and one inode are replaced.
abbrev pub replaced : Vfs → ℕ → Option ℕ → ℕ → FileDescriptor → ℕ → Inode → Vfs
replaced v fd x i f n inode = set_fd (set_inode (set_desc v i f) n inode) fd x

module _ (v : Vfs) (h : IsValid v) (fd i n m : ℕ) (x old : Option ℕ) (f g : FileDescriptor)
    (inode : Inode) (e : get_elem? v.current_thread.file_table fd ≡ some old)
    (d : get_elem? v.f_desc_table i ≡ some g) (p : f.inode ≡ some m)
    (b : m < length v.inode_table) where
  abbrev v' : Vfs
  v' = replaced v fd x i f n inode

  opened-replaced : (j : ℕ) → (j ≡ i) ⊎ Opened v j → Opened v' j
  opened-replaced j which = elim (Bool-cases (j == i)) [
    | inl same ↦
        let q : i ≡ j = ground arith in
        record {
          file = f;
          there =
              subst (λ k. get_elem? v'.f_desc_table k ≡ some f) q
                (get_elem?-set_self v.f_desc_table i f (lt-length_of_some v.f_desc_table i d));
          inode = m;
          has_inode = p;
          in_table = subst (λ k. m < k) (sym (length-set v.inode_table n inode)) b;
        }
    | inr other ↦
        let ne : i ≢ j = ground arith in
        elim which [
          | inl q ↦ absurd (ne (sym q))
          | inr o ↦ record {
            file = o.file;
            there = get_elem?-set_ne v.f_desc_table f ne ∙ o.there;
            inode = o.inode;
            has_inode = o.has_inode;
            in_table = subst (λ k. o.inode < k) (sym (length-set v.inode_table n inode)) o.in_table;
          }
        ]
  ]

  -- The invariant is kept if the new entry points to `i` or nowhere, and the counts still agree.
  pub replaced-IsValid :
      ((j : ℕ) → x ≡ some j → j ≡ i)
      → f.used_count + points i old ≡ refs i v.current_thread.file_table + points i x
      → ((j : ℕ) → j ≢ i → points j old ≡ points j x)
      → IsValid v'
  replaced-IsValid new_entry agrees others = record {
    sized = length-set v.current_thread.file_table fd x ∙ h.sized;
    opened = λ fd' j at. elim (Bool-cases (fd' == fd)) [
      | inl same ↦
          let q : fd' ≡ fd = ground arith in
          let here =
            get_elem?-set_self v.current_thread.file_table fd x
              (lt-length_of_some v.current_thread.file_table fd e) in
          let at' = subst (λ k. get_elem? v'.current_thread.file_table k ≡ some (some j)) q at in
          opened-replaced j (inl (new_entry j (some-injective x (some j) (sym here ∙ at'))))
      | inr other ↦
          let ne : fd ≢ fd' = ground arith in
          opened-replaced j
            (inr (h.opened fd' j (sym (get_elem?-set_ne v.current_thread.file_table x ne) ∙ at)))
    ];
    counted = λ j f' n' at q. elim (Bool-cases (j == i)) [
      | inl same ↦
          let ji : j ≡ i = ground arith in
          let at' = subst (λ k. get_elem? v'.f_desc_table k ≡ some f') ji at in
          let here = get_elem?-set_self v.f_desc_table i f (lt-length_of_some v.f_desc_table i d) in
          let ff : f.used_count ≡ f'.used_count =
            ap (λ (r : FileDescriptor). r.used_count) (some-injective f f' (sym here ∙ at')) in
          let r = refs-set i v.current_thread.file_table fd old x e in
          let rj = ap (λ k. refs k v'.current_thread.file_table) ji in omega arith
      | inr other ↦
          let ne : j ≢ i = ground arith in
          let kept =
            h.counted j f' n' (sym (get_elem?-set_ne v.f_desc_table f (λ r. ne (sym r))) ∙ at) q in
          let r = refs-set j v.current_thread.file_table fd old x e in
          let same = others j ne in omega arith
    ];
  }
