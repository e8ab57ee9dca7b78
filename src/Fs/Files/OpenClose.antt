-- ===== src/Fs/Files/OpenClose.antt =====
-- `sys_open`, `sys_close` and `sys_dup` of fs/file_op.c keep the counts of the descriptors.
use jnix.Prelude.{
  minus, ℕ, zero, suc, ◌<◌, ◌≡◌, ◌≢◌, refl, sym, subst, ap, ◌∙◌, ◌⊎◌, inl, inr, Option, none, some,
  Option-cases, List, [], ◌∷◌, arith, get_elem?, set, get_elem?-set_self, get_elem?-set_ne,
  Bool-cases, ◌==◌, lt-length_of_some, get_elem?_of_lt, ok, fault, add32, sub32,
}
use mathlib.Core.Option.{none-ne-some, some-injective}
use jnix.Fs.State.{FileOperation, Inode, FileDescriptor, Vfs, at}
use jnix.Fs.Path.{namei, get_inode_by_filename}
use jnix.Fs.Files.{
  free_fd, free_desc, open_at, sys_open, file_of, release, retain, sys_close, sys_dup,
}
use jnix.Fs.Files.Counts.{
  points, refs-bound, refs-pos, refs-zero, IsValid, replaced, replaced-IsValid,
}

-- `fd` is the lowest entry of the table that is null.
pub record LowestFree (table : List (Option ℕ)) (fd : ℕ) : Type 0 where
  pub free : get_elem? table fd ≡ some none
  pub below : (j : ℕ) → j < fd → (i : ℕ) × (get_elem? table j ≡ some (some i))

-- The answer of a search behind the first entry.
abbrev later : Option ℕ → Option ℕ
later r = elim r [ none ↦ none | some i ↦ some (suc i) ]

LowestFree-below :
    (x : ℕ) (table : List (Option ℕ)) (k : ℕ)
    → LowestFree table k
    → (j : ℕ) → j < suc k
    → (i : ℕ) × (get_elem? (some x ∷ table) j ≡ some (some i))
LowestFree-below x table k r zero lt = (x, refl)
LowestFree-below x table k r (suc j) lt = r.below j (omega arith)

free_fd_lem : (table : List (Option ℕ)) (fd : ℕ) → free_fd table ≡ some fd → LowestFree table fd
unfolding free_fd
free_fd_lem [] fd h = absurd (none-ne-some fd h)
free_fd_lem (none ∷ table) fd h =
    let q = some-injective 0 fd h in
    record {
      free = subst (λ k. get_elem? (none ∷ table) k ≡ some none) q refl;
      below = λ j lt. absurd (omega arith);
    }
free_fd_lem (some x ∷ table) fd h = elim (Option-cases (free_fd table)) [
  | inl e ↦ absurd (none-ne-some fd (sym (ap later e) ∙ h))
  | inr (k, e) ↦
      let r = free_fd_lem table k e in
      let q = some-injective (suc k) fd (sym (ap later e) ∙ h) in
      subst (λ n. LowestFree (some x ∷ table) n) q
        (record { free = r.free; below = LowestFree-below x table k r })
]

free_desc-here :
    (f : FileDescriptor) (table : List FileDescriptor)
    → f.inode ≡ none
    → free_desc (f ∷ table) ≡ some 0
unfolding free_desc
free_desc-here f table h = rw (h, free_desc) refl

free_desc-later :
    (f : FileDescriptor) (table : List FileDescriptor) (n : ℕ)
    → f.inode ≡ some n
    → free_desc (f ∷ table) ≡ later (free_desc table)
unfolding free_desc
free_desc-later f table n h = rw (h, free_desc) refl

free_desc_lem :
    (table : List FileDescriptor) (i : ℕ)
    → free_desc table ≡ some i
    → (f : FileDescriptor) × (get_elem? table i ≡ some f) × (f.inode ≡ none)
unfolding free_desc
free_desc_lem [] i h = absurd (none-ne-some i h)
free_desc_lem (f ∷ table) i h = elim (Option-cases (f.inode)) [
  | inl empty ↦
      let q = some-injective 0 i (sym (free_desc-here f table empty) ∙ h) in
      (f, subst (λ k. get_elem? (f ∷ table) k ≡ some f) q refl, empty)
  | inr (n, used) ↦
      let step = free_desc-later f table n used in
      elim (Option-cases (free_desc table)) [
        | inl e ↦ absurd (none-ne-some i (sym (ap later e) ∙ sym step ∙ h))
        | inr (k, e) ↦
            let (g, at, empty) = free_desc_lem table k e in
            let q = some-injective (suc k) i (sym (ap later e) ∙ sym step ∙ h) in
            (g, subst (λ j. get_elem? (f ∷ table) j ≡ some g) q at, empty)
      ]
]

free_desc-same :
    (table : List FileDescriptor) (i : ℕ) (f g : FileDescriptor)
    → get_elem? table i ≡ some f
    → g.inode ≡ f.inode
    → free_desc (set table i g) ≡ free_desc table
unfolding free_desc
free_desc-same [] i f g e q = refl
free_desc-same (x ∷ table) zero f g e q =
    let same : g.inode ≡ x.inode =
      q ∙ ap (λ (r : FileDescriptor). r.inode) (sym (some-injective x f e)) in
    rw (same, free_desc) refl
free_desc-same (x ∷ table) (suc i) f g e q = elim (Option-cases (x.inode)) [
  | inl empty ↦ free_desc-here x (set table i g) empty ∙ sym (free_desc-here x table empty)
  | inr (n, used) ↦
      free_desc-later x (set table i g) n used
      ∙ ap later (free_desc-same table i f g e q)
      ∙ sym (free_desc-later x table n used)
]

points-none : (i : ℕ) → points i (some i) ≡ 1
points-none i = ground arith

points_other : (i j : ℕ) → j ≢ i → points j (some i) ≡ 0
points_other i j ne = ground arith

set-inode :
    (table : List FileDescriptor) (i : ℕ) (f g : FileDescriptor)
    → get_elem? table i ≡ some f
    → g.inode ≡ f.inode
    → (j : ℕ) (e : FileDescriptor) → get_elem? table j ≡ some e
    → (e' : FileDescriptor) × (get_elem? (set table i g) j ≡ some e') × (e'.inode ≡ e.inode)
set-inode table i f g here same j e at = elim (Bool-cases (i == j)) [
  | inl there ↦
      let q : i ≡ j = ground arith in
      let kept = get_elem?-set_self table i g (lt-length_of_some table i here) in
      let f_e = some-injective f e (sym here ∙ ap (get_elem? table) q ∙ at) in
      (
        g,
        ap (get_elem? (set table i g)) (sym q) ∙ kept,
        same ∙ ap (λ (r : FileDescriptor). r.inode) f_e,
      )
  | inr other ↦ let ne : i ≢ j = ground arith in (e, get_elem?-set_ne table g ne ∙ at, refl)
]

-- Closing an open file succeeds and empties its entry; the counts agree with the entries again. But
-- every descriptor keeps its inode, and the search for a free one finds what it found before.
pub sys_close_lem :
    (v : Vfs) (fd i : ℕ)
    → IsValid v
    → get_elem? v.current_thread.file_table fd ≡ some (some i)
    → (v' : Vfs) × (sys_close fd v ≡ ok (0, v'))
      × IsValid v'
      × (v'.current_thread.file_table ≡ set v.current_thread.file_table fd none)
      × ((j : ℕ) (f : FileDescriptor)
          → get_elem? v.f_desc_table j ≡ some f
          → (g : FileDescriptor) × (get_elem? v'.f_desc_table j ≡ some g) × (g.inode ≡ f.inode))
      × (free_desc v'.f_desc_table ≡ free_desc v.f_desc_table)
unfolding sys_close file_of
sys_close_lem v fd i h e =
    let o = h.opened fd i e in
    let (inode, en) = get_elem?_of_lt v.inode_table o.inode o.in_table in
    let inode' = record inode { used_count = sub32 inode.used_count 1 } in
    let count = h.counted i o.file o.inode o.there o.has_inode in
    let pos = refs-pos i v.current_thread.file_table fd e in
    let bound = refs-bound i v.current_thread.file_table in
    let sized = h.sized in
    let one = points-none i in
    (
      replaced v fd none i (release o.file) o.inode inode',
      rw e (rw (o.there) (rw (o.has_inode) (rw en refl))),
      replaced-IsValid v h fd i o.inode o.inode none (some i) (release o.file) o.file inode' e
          o.there o.has_inode o.in_table (λ j q. absurd (none-ne-some j q)) (omega arith)
          (λ j ne. points_other i j ne),
      refl,
      set-inode v.f_desc_table i o.file (release o.file) o.there refl,
      free_desc-same v.f_desc_table i o.file (release o.file) o.there refl,
    )

-- Duplicating an open file either finds the table full and changes nothing, or makes the lowest free
-- entry point to the same descriptor; the counts agree with the entries again.
pub sys_dup_lem :
    (v : Vfs) (oldfd i : ℕ)
    → IsValid v
    → get_elem? v.current_thread.file_table oldfd ≡ some (some i)
    → ((free_fd v.current_thread.file_table ≡ none) × (sys_dup oldfd v ≡ ok (minus 1, v)))
      ⊎ ((fd : ℕ) × (v' : Vfs) × LowestFree v.current_thread.file_table fd
          × (sys_dup oldfd v ≡ ok (fd, v'))
          × IsValid v'
          × (v'.current_thread.file_table ≡ set v.current_thread.file_table fd (some i)))
unfolding sys_dup file_of
sys_dup_lem v oldfd i h e = elim (Option-cases (free_fd v.current_thread.file_table)) [
  | inl full ↦ inl (full, rw (full, sys_dup) refl)
  | inr (fd, found) ↦
      let low = free_fd_lem v.current_thread.file_table fd found in
      let o = h.opened oldfd i e in
      let (inode, en) = get_elem?_of_lt v.inode_table o.inode o.in_table in
      let inode' = record inode { used_count = add32 inode.used_count 1 } in
      let count = h.counted i o.file o.inode o.there o.has_inode in
      let bound = refs-bound i v.current_thread.file_table in
      let sized = h.sized in
      let one = points-none i in
      let ne : fd ≢ oldfd = (λ q. none-ne-some i (
        some-injective none (some i)
          (sym low.free ∙ ap (get_elem? v.current_thread.file_table) q ∙ e))) in
      let still = get_elem?-set_ne v.current_thread.file_table (some i) ne ∙ e in
      inr (
        fd,
        replaced v fd (some i) i (retain o.file) o.inode inode',
        low,
        rw (found, sys_dup) (rw e (rw still (rw (o.there) (rw (o.has_inode) (rw en refl))))),
        replaced-IsValid v h fd i o.inode o.inode (some i) none (retain o.file) o.file inode'
            low.free o.there o.has_inode o.in_table (λ j q. sym (some-injective i j q))
            (omega arith) (λ j ne'. sym (points_other i j ne')),
        refl,
      )
]

-- Opening a path that names a file with operations: either one of the two tables is full and nothing
-- changes, or the lowest free entry points to a fresh descriptor of that file at position 0, and the
-- counts agree with the entries again.
pub sys_open_lem :
    (v : Vfs) (path : List ℕ) (n : ℕ) (inode : Inode) (op : FileOperation)
    → IsValid v
    → get_inode_by_filename v path ≡ ok (some n)
    → get_elem? v.inode_table n ≡ some inode
    → inode.f_op ≡ some op
    → (((free_fd v.current_thread.file_table ≡ none) ⊎ (free_desc v.f_desc_table ≡ none))
        × (sys_open path v ≡ ok (minus 1, v)))
      ⊎ ((fd i : ℕ) × (v' : Vfs) × LowestFree v.current_thread.file_table fd
          × (sys_open path v ≡ ok (fd, v'))
          × IsValid v'
          × (v'.current_thread.file_table ≡ set v.current_thread.file_table fd (some i))
          × (get_elem? v'.f_desc_table i
              ≡ some (record { pos = 0; used_count = 1; inode = some n; op = some op })))
unfolding sys_open open_at
sys_open_lem v path n inode op h found en eo =
    elim (Option-cases (free_fd v.current_thread.file_table)) [
      | inl full ↦ inl (inl full, rw (full, sys_open) refl)
      | inr (fd, e) ↦ elim (Option-cases (free_desc v.f_desc_table)) [
        | inl full ↦ inl (inr full, rw (e, sys_open) (rw full refl))
        | inr (i, d) ↦
            let low = free_fd_lem v.current_thread.file_table fd e in
            let (g, there, empty) = free_desc_lem v.f_desc_table i d in
            let f : FileDescriptor = record {
              pos = 0;
              used_count = 1;
              inode = some n;
              op = some op;
            } in
            let inode' = record inode { used_count = add32 inode.used_count 1 } in
            let unused = refs-zero i v.current_thread.file_table (λ k at.
              let o = h.opened k i at in
              none-ne-some o.inode (
                sym empty
                ∙ ap (λ (r : FileDescriptor). r.inode)
                    (some-injective g o.file (sym there ∙ o.there))
                ∙ o.has_inode)) in
            let one = points-none i in
            inr (
              fd,
              i,
              replaced v fd (some i) i f n inode',
              low,
              rw (e, sys_open) (rw d (rw found (rw en (rw eo refl)))),
              replaced-IsValid v h fd i n n (some i) none f g inode' low.free there refl
                  (lt-length_of_some v.inode_table n en) (λ j q. sym (some-injective i j q))
                  (omega arith) (λ j ne'. sym (points_other i j ne')),
              refl,
              get_elem?-set_self v.f_desc_table i f (lt-length_of_some v.f_desc_table i there),
            )
      ]
    ]

-- A path that leads to nothing: with room in both tables `sys_open` follows a null pointer, and does
-- not return -1.
pub sys_open-missing :
    (v : Vfs) (path : List ℕ) (fd i : ℕ)
    → free_fd v.current_thread.file_table ≡ some fd
    → free_desc v.f_desc_table ≡ some i
    → namei v path ≡ ok none
    → sys_open path v ≡ fault
unfolding sys_open get_inode_by_filename
sys_open-missing v path fd i e d found = rw (e, sys_open) (rw d (rw found refl))
