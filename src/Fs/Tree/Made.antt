-- ===== src/Fs/Tree/Made.antt =====
-- A directory that `sys_mkdir` of fs/file_op.c makes is where `namei` finds it.
use jnix.Prelude.{
  ℕ, zero, suc, ◌+◌, ◌<◌, ◌≡◌, refl, sym, subst, ap, ◌∙◌, true, false, none, some, List, [], ◌∷◌,
  ◌++◌, arith, ltb, ◌==◌, length, get_elem?, set, set-set, length-append, lt-length_of_some,
  get_elem?-set_self, get_elem?-set_ne, get_elem?_of_lt, ok, ◌>>=◌, deref,
}
use jnix.Clib.Strings.Compare.{is_text}
use jnix.Fs.State.{Inode, DirEntry, Vfs, file_mode_dir}
use jnix.Fs.Path.{
  same_name, find_child, follow_mounts, is_dot, is_dot_dot, assigned, lookup, walk,
  get_parent_dir_entry, namei,
}
use jnix.Fs.Path.Walk.{
  is_name, append_nil, walk-name, namei-absolute, last_step, find_child-step, same_name_lem,
}
use jnix.Fs.Tree.{get_inode, make_dir, mode_of, sys_mkdir}

get_elem?-append {ℓ} :
    {A : Type ℓ} → (xs : List A) (y : A) → get_elem? (xs ++ (y ∷ [])) (length xs) ≡ some y
get_elem?-append [] y = refl
get_elem?-append (x ∷ xs) y = get_elem?-append xs y

get_elem?-append_old {ℓ} :
    {A : Type ℓ}
    → (xs ys : List A) (i : ℕ) → i < length xs
    → get_elem? (xs ++ ys) i ≡ get_elem? xs i
get_elem?-append_old [] ys i h = absurd (omega arith)
get_elem?-append_old (x ∷ xs) ys zero h = refl
get_elem?-append_old (x ∷ xs) ys (suc i) h = get_elem?-append_old xs ys i (omega arith)

same_name_self : (s : List ℕ) → is_text s ≡ true → same_name s s ≡ ok true
same_name_self s h = let (same, run, (to, from)) = same_name_lem s s h h in run ∙ ap ok (from refl)

-- The entry made for a name below the directory `dir` at `d`.
abbrev pub new_entry : ℕ → DirEntry → ℕ → List ℕ → DirEntry
new_entry d dir n name = record {
  name = name;
  inode = some n;
  sb = dir.sb;
  parent = some d;
  children = [];
  dev_num = dir.dev_num;
  is_mounted = false;
  mounted_dir = none;
}

-- A name that is not looked up by another rule.
pub record Plain (name : List ℕ) : Type 0 where
  pub text : is_text name ≡ true
  pub slashless : is_name name ≡ true
  pub not_dot : is_dot name ≡ false
  pub not_dot_dot : is_dot_dot name ≡ false
  pub not_empty : (length name == 0) ≡ false

follow_mounts-unmounted :
    (fuel : ℕ) (dirs : List DirEntry) (i : ℕ) (e : DirEntry)
    → get_elem? dirs i ≡ some e
    → e.is_mounted ≡ false
    → follow_mounts (suc fuel) dirs i ≡ ok i
unfolding follow_mounts
follow_mounts-unmounted fuel dirs i e h m = rw h (rw m refl)

lookup-head :
    (v : Vfs) (d i : ℕ) (dir e : DirEntry) (children name : List ℕ)
    → Plain name
    → get_elem? v.dirs d ≡ some dir
    → dir.children ≡ i ∷ children
    → get_elem? v.dirs i ≡ some e
    → e.name ≡ name
    → e.is_mounted ≡ false
    → lookup v d name ≡ ok (assigned (some i))
unfolding lookup follow_mounts
lookup-head v d i dir e children name p hd hc he hn hm =
    let same = subst (λ s. same_name name s ≡ ok true) (sym hn) (same_name_self name p.text) in
    let found : find_child v.dirs name dir.children ≡ ok (some i) =
      ap (find_child v.dirs name) hc ∙ find_child-step v.dirs name i children e true he same in
    let last = follow_mounts-unmounted (length v.dirs) v.dirs i e he hm in
    rw hd (rw (p.not_dot, p.not_dot_dot, p.not_empty, found) (rw last refl))

-- The state after `sys_mkdir` made that entry.
abbrev pub made : Vfs → ℕ → DirEntry → Inode → List ℕ → Vfs
made v d dir inode name = record v {
  inode_table = set v.inode_table v.inode_num inode;
  inode_num = v.inode_num + 1;
  dirs =
      set (v.dirs ++ (new_entry d dir v.inode_num name ∷ [])) d
        (record dir { children = length v.dirs ∷ dir.children });
}

module _ (v : Vfs) (root k : ℕ) (dir : DirEntry) (inode : Inode) (name : List ℕ)
    (hr : v.current_thread.root ≡ some root) (hd : get_elem? v.dirs root ≡ some dir)
    (hi : dir.inode ≡ some k) (hk : get_elem? v.inode_table k ≡ some inode) (p : Plain name) where
  abbrev v' : Inode → Vfs
  v' i = made v root dir i name

  walk-last : (w : Vfs) → walk w (some root) none [] name ≡ ok (some root, name)
  unfolding walk
  walk-last w =
      ap (walk w (some root) none []) (sym (append_nil name))
      ∙ walk-name w (some root) none [] name [] p.slashless

  parent_lem : get_parent_dir_entry v (b'/' ∷ name) v.current_thread.root ≡ ok (some root, name)
  unfolding get_parent_dir_entry
  parent_lem = ap (λ x. walk v x none [] name) hr ∙ walk-last v

  mode_lem : mode_of v dir ≡ ok inode.mode
  unfolding mode_of
  mode_lem = rw (ap deref hi) (rw hk refl)

  make_dir_lem :
      v.inode_num < length v.inode_table
      → length name < 256
      → (i : Inode) × (make_dir root dir name v ≡ ok (v' i)) × (i.mode ≡ file_mode_dir)
  unfolding make_dir get_inode
  make_dir_lem room short =
      let (old, found) = get_elem?_of_lt v.inode_table v.inode_num room in
      let blank : Inode = record {
        mode = 0;
        size = 0;
        dev_num = 0;
        num = v.inode_num;
        used_count = 0;
        f_op = none;
        sb = none;
        inode_op = none;
      } in
      let i : Inode = record blank { sb = dir.sb; dev_num = dir.dev_num; mode = file_mode_dir } in
      let self = get_elem?-set_self v.inode_table v.inode_num blank room in
      let fits : ltb (length name) 256 ≡ true = ground arith in
      (
        i,
        rw found (
            rw self (
              rw fits (
                ap (λ t. ok (record (v' i) { inode_table = t }))
                  (set-set v.inode_table v.inode_num blank i)))),
        refl,
      )

  made_mode :
      (i : Inode)
      → v.inode_num < length v.inode_table
      → i.mode ≡ file_mode_dir
      → mode_of (v' i) (new_entry root dir v.inode_num name) ≡ ok file_mode_dir
  unfolding mode_of
  made_mode i room h = rw (get_elem?-set_self v.inode_table v.inode_num i room) (ap ok h)

  namei-made : (i : Inode) → namei (v' i) (b'/' ∷ name) ≡ ok (some (length v.dirs))
  unfolding last_step
  namei-made i =
      let w = v' i in
      let new = new_entry root dir v.inode_num name in
      let parent = record dir { children = length v.dirs ∷ dir.children } in
      let below = lt-length_of_some v.dirs root hd in
      let size = length-append v.dirs (new ∷ []) in
      let there = get_elem?-set_self (v.dirs ++ (new ∷ [])) root parent (omega arith) in
      let child =
        get_elem?-set_ne (v.dirs ++ (new ∷ [])) parent (λ q. absurd (omega (arith, q, below)))
        ∙ get_elem?-append v.dirs new in
      let found =
        lookup-head w root (length v.dirs) parent new dir.children name p there refl child refl
          refl in
      namei-absolute w root name hr ∙ ap (λ r. r >>= last_step w) (walk-last w) ∙ rw found refl

  -- Making a directory of a plain name in the root, with room in the table of inodes, succeeds, and
  -- the path that it was made with then leads to the new entry. The entry is an empty directory of
  -- that name with the root as its parent.
  pub sys_mkdir-namei :
      inode.mode ≡ file_mode_dir
      → v.inode_num < length v.inode_table
      → length name < 256
      → (w : Vfs) × (sys_mkdir (b'/' ∷ name) v ≡ ok (0, w))
        × (namei w (b'/' ∷ name) ≡ ok (some (length v.dirs)))
        × (get_elem? w.dirs (length v.dirs) ≡ some (new_entry root dir v.inode_num name))
        × (mode_of w (new_entry root dir v.inode_num name) ≡ ok file_mode_dir)
  unfolding sys_mkdir
  sys_mkdir-namei is_dir room short =
      let (i, run, mode) = make_dir_lem room short in
      let new = new_entry root dir v.inode_num name in
      let parent = record dir { children = length v.dirs ∷ dir.children } in
      let below = lt-length_of_some v.dirs root hd in
      (
        v' i,
        rw parent_lem (rw hd (rw mode_lem (rw is_dir (rw run refl)))),
        namei-made i,
        get_elem?-set_ne (v.dirs ++ (new ∷ [])) parent (λ q. absurd (omega (arith, q, below)))
            ∙ get_elem?-append v.dirs new,
        made_mode i room mode,
      )
