-- ===== src/Fs/Tests.antt =====
-- A small tree of files, one of them open, and the theorems at it.
use jnix.Prelude.{
  minus, ℕ, zero, suc, ◌^◌, ◌<◌, ◌≤◌, ◌≡◌, ◌≢◌, refl, ◌∙◌, ap, ◌⊎◌, Bool, true, false, Option, none,
  some, List, [], ◌∷◌, arith, length, get_elem?, set, replicate, ok,
}
use mathlib.Core.Option.{none-ne-some, some-injective}
use jnix.Clib.Strings.{strcmp}
use jnix.Fs.State.{
  FileOperation, rootfs_f_op, devfs_f_op, InodeOperation, rootfs_inode_op, devfs_inode_op, Inode,
  DirEntry, FileDescriptor, Vfs, file_mode_dir,
}
use jnix.Fs.Path.{
  same_name, find_child, follow_mounts, call_lookup, inode_lookup, assigned, untouched, lookup,
  walk, get_parent_dir_entry, namei, get_inode_by_filename,
}
use jnix.Fs.Tree.{mode_of, sys_mkdir}
use jnix.Fs.Tree.Made.{Plain, new_entry, sys_mkdir-namei}
use jnix.Fs.Files.{free_fd, free_desc, set_desc, sys_open, sys_close, sys_lseek}
use jnix.Fs.Files.Counts.{refs, Opened, IsValid}
use jnix.Fs.Files.OpenClose.{LowestFree, sys_close_lem, sys_open_lem}
use jnix.Fs.Files.Seek.{Wraps, sys_lseek_lem}

-- The inode of the root of a file system.
abbrev inode_of : ℕ → ℕ → FileOperation → InodeOperation → Inode
inode_of n count f_op inode_op = record {
  mode = file_mode_dir;
  size = 100;
  dev_num = 0;
  num = n;
  used_count = count;
  f_op = some f_op;
  sb = some 0;
  inode_op = some inode_op;
}

abbrev blank_inode : Inode
blank_inode = record {
  mode = 0;
  size = 0;
  dev_num = 0;
  num = 0;
  used_count = 0;
  f_op = none;
  sb = none;
  inode_op = none;
}

abbrev dir_of : List ℕ → ℕ → ℕ → List ℕ → Option ℕ → Bool → DirEntry
dir_of name inode parent children mounted_dir is_mounted = record {
  name = name;
  inode = some inode;
  sb = some 0;
  parent = some parent;
  children = children;
  dev_num = 0;
  is_mounted = is_mounted;
  mounted_dir = mounted_dir;
}

abbrev dev : List ℕ
dev = b'd' ∷ b'e' ∷ b'v' ∷ []

abbrev root_dir : DirEntry
root_dir = dir_of (b'/' ∷ []) 0 0 (1 ∷ []) none false

abbrev root_inode : Inode
root_inode = inode_of 0 1 rootfs_f_op rootfs_inode_op

-- The root is open once, and the directory /dev has the devices mounted on it.
abbrev open_root : FileDescriptor
open_root = record { pos = 7; used_count = 1; inode = some 0; op = some rootfs_f_op }

abbrev no_file : FileDescriptor
no_file = record { pos = 0; used_count = 0; inode = none; op = none }

abbrev rest_of_table : List (Option ℕ)
rest_of_table = replicate 1023 none

abbrev tree : Vfs
tree = record {
  file_system_table = [];
  f_desc_table = open_root ∷ no_file ∷ [];
  inode_table =
      root_inode ∷ blank_inode ∷ inode_of 2 0 devfs_f_op devfs_inode_op ∷ blank_inode ∷ [];
  inode_num = 3;
  super_blocks = [];
  dirs = root_dir ∷ dir_of dev 1 0 [] (some 2) true ∷ dir_of (b'/' ∷ []) 2 2 [] none false ∷ [];
  current_thread = record { file_table = some 0 ∷ rest_of_table; root = some 0; pwd = some 0 };
}

none-opens : (n fd i : ℕ) → get_elem? (replicate n none) fd ≢ some (some i)
none-opens zero fd i e = none-ne-some (some i) e
none-opens (suc n) zero i e = none-ne-some i (some-injective none (some i) e)
none-opens (suc n) (suc fd) i e = none-opens n fd i e

refs-replicate : (i n : ℕ) → refs i (replicate n none) ≡ 0
unfolding refs
refs-replicate i zero = refl
refs-replicate i (suc n) = omega (arith, refs-replicate i n)

length-replicate {ℓ} : {A : Type ℓ} → (n : ℕ) (x : A) → length (replicate n x) ≡ n
length-replicate zero x = refl
length-replicate (suc n) x = ap suc (length-replicate n x)

tree-opened : (fd i : ℕ) → get_elem? (some 0 ∷ rest_of_table) fd ≡ some (some i) → Opened tree i
tree-opened zero zero e = record {
  file = open_root;
  there = refl;
  inode = 0;
  has_inode = refl;
  in_table = omega arith;
}
tree-opened zero (suc i) e =
    let q = some-injective 0 (suc i) (some-injective (some 0) (some (suc i)) e) in
    absurd (omega arith)
tree-opened (suc fd) i e = absurd (none-opens 1023 fd i e)

tree-counted :
    (i : ℕ) (f : FileDescriptor) (n : ℕ)
    → get_elem? (open_root ∷ no_file ∷ []) i ≡ some f
    → f.inode ≡ some n
    → f.used_count ≡ refs i (some 0 ∷ rest_of_table)
unfolding refs
tree-counted zero f n e q =
    let r = refs-replicate 0 1023 in
    let c = ap (λ (g : FileDescriptor). g.used_count) (some-injective open_root f e) in omega arith
tree-counted (suc zero) f n e q =
    absurd (none-ne-some n (ap (λ (g : FileDescriptor). g.inode) (some-injective no_file f e) ∙ q))
tree-counted (suc (suc i)) f n e q = absurd (none-ne-some f e)

tree-IsValid : IsValid tree
tree-IsValid = record {
  sized = ap suc (length-replicate {A = Option ℕ} 1023 none);
  opened = tree-opened;
  counted = tree-counted;
}

sys_close_lem_example :
    (v' : Vfs) × (sys_close 0 tree ≡ ok (0, v'))
    × IsValid v'
    × (v'.current_thread.file_table ≡ set tree.current_thread.file_table 0 none)
    × ((j : ℕ) (f : FileDescriptor)
        → get_elem? tree.f_desc_table j ≡ some f
        → (g : FileDescriptor) × (get_elem? v'.f_desc_table j ≡ some g) × (g.inode ≡ f.inode))
    × (free_desc v'.f_desc_table ≡ free_desc tree.f_desc_table)
sys_close_lem_example = sys_close_lem tree 0 0 tree-IsValid refl

root-found : get_inode_by_filename tree (b'/' ∷ []) ≡ ok (some 0)
unfolding get_inode_by_filename namei get_parent_dir_entry walk lookup
root-found = refl

sys_open_lem_example :
    (((free_fd tree.current_thread.file_table ≡ none) ⊎ (free_desc tree.f_desc_table ≡ none))
      × (sys_open (b'/' ∷ []) tree ≡ ok (minus 1, tree)))
    ⊎ ((fd i : ℕ) × (v' : Vfs) × LowestFree tree.current_thread.file_table fd
        × (sys_open (b'/' ∷ []) tree ≡ ok (fd, v'))
        × IsValid v'
        × (v'.current_thread.file_table ≡ set tree.current_thread.file_table fd (some i))
        × (get_elem? v'.f_desc_table i
            ≡ some (record { pos = 0; used_count = 1; inode = some 0; op = some rootfs_f_op })))
sys_open_lem_example =
    sys_open_lem tree (b'/' ∷ []) 0 root_inode rootfs_f_op tree-IsValid root-found refl refl

nothing-found : namei tree (b'/' ∷ b'x' ∷ []) ≡ ok none
unfolding namei get_parent_dir_entry walk lookup find_child same_name strcmp inode_lookup
    call_lookup
nothing-found = refl

first_fd : free_fd (some 0 ∷ rest_of_table) ≡ some 1
unfolding free_fd
first_fd = refl

first_desc : free_desc tree.f_desc_table ≡ some 1
unfolding free_desc
first_desc = refl

-- 100 bytes back from the position 7.
sys_lseek_lem_example :
    ((pos : ℕ) × (1 < 3)
      × Wraps 7 (minus 100) pos
      × (◌≡◌ {A = ℕ} 1 2 → pos < 2 ^ 31)
      × (sys_lseek 0 (minus 100) 1 tree
          ≡ ok (pos, set_desc tree 0 (record open_root { pos = pos })))
      × IsValid (set_desc tree 0 (record open_root { pos = pos })))
    ⊎ ((sys_lseek 0 (minus 100) 1 tree ≡ ok (minus 1, tree))
        × ((3 ≤ 1)
            ⊎ ((◌≡◌ {A = ℕ} 1 2)
                × ((pos : ℕ) × Wraps root_inode.size (minus 100) pos × (2 ^ 31 ≤ pos)))))
sys_lseek_lem_example =
    sys_lseek_lem tree 0 0 open_root tree-IsValid refl refl (minus 100) 1 0 root_inode refl refl
      (omega arith) (omega arith) (omega arith)

dev-found : lookup tree 0 dev ≡ ok (assigned (some 2))
unfolding lookup find_child follow_mounts same_name strcmp
dev-found = refl

x-lost : lookup tree 2 (b'x' ∷ []) ≡ ok untouched
unfolding lookup find_child inode_lookup call_lookup
x-lost = refl

etc-Plain : Plain (b'e' ∷ b't' ∷ b'c' ∷ [])
etc-Plain = record {
  text = refl;
  slashless = refl;
  not_dot = refl;
  not_dot_dot = refl;
  not_empty = refl;
}

sys_mkdir-namei_example :
    (w : Vfs) × (sys_mkdir (b'/' ∷ b'e' ∷ b't' ∷ b'c' ∷ []) tree ≡ ok (0, w))
    × (namei w (b'/' ∷ b'e' ∷ b't' ∷ b'c' ∷ []) ≡ ok (some 3))
    × (get_elem? w.dirs 3 ≡ some (new_entry 0 root_dir 3 (b'e' ∷ b't' ∷ b'c' ∷ [])))
    × (mode_of w (new_entry 0 root_dir 3 (b'e' ∷ b't' ∷ b'c' ∷ [])) ≡ ok file_mode_dir)
sys_mkdir-namei_example =
    sys_mkdir-namei tree 0 0 root_dir root_inode (b'e' ∷ b't' ∷ b'c' ∷ []) refl refl refl refl
      etc-Plain refl (omega arith) (omega arith)
