-- ===== src/Fs/Path.antt =====
-- Paths in fs/file_op.c: `lookup`, `get_parent_dir_entry` and `namei`. A path is its bytes without the
-- 0 that ends it. Allocating memory is taken to succeed.
pub mod Walk
use jnix.Prelude.{
  ℕ, zero, suc, ◌&&◌, Bool, true, false, Option, none, some, List, [], ◌∷◌, ◌++◌, length, ◌==◌,
  if◌then◌else◌, Run, ok, fault, stuck, ◌>>=◌, deref,
}
use jnix.Clib.Strings.{strcmp}
use jnix.Fs.State.{DirEntry, InodeOperation, rootfs_inode_op, devfs_inode_op, Vfs, at}

-- `strcmp(a, b) == 0`
unfoldable pub same_name : List ℕ → List ℕ → Run Bool
same_name a b = do n ← strcmp (a ++ (0 ∷ [])) (b ++ (0 ∷ [])); ok (n == 0)

-- The first child of that name.
unfoldable pub find_child : List DirEntry → List ℕ → List ℕ → Run (Option ℕ)
find_child dirs name [] = ok none
find_child dirs name (i ∷ children) = do
  tmp ← at dirs i
  same ← same_name name tmp.name
  if same then ok (some i) else find_child dirs name children

-- `while (tmp->is_mounted) tmp = tmp->mounted_dir;`
unfoldable pub follow_mounts : ℕ → List DirEntry → ℕ → Run ℕ
follow_mounts zero dirs i = stuck
follow_mounts (suc fuel) dirs i = do
  tmp ← at dirs i
  elim (tmp.is_mounted) [
    | false ↦ ok i
    | true ↦ do m ← deref tmp.mounted_dir; follow_mounts fuel dirs m
  ]

-- `len == 1 && name[0] == '.'`, and the same for two
abbrev pub is_dot : List ℕ → Bool
is_dot (a ∷ []) = a == b'.'
is_dot _ = false

abbrev pub is_dot_dot : List ℕ → Bool
is_dot_dot (a ∷ b ∷ []) = (a == b'.') && (b == b'.')
is_dot_dot _ = false

-- What a call of `lookup` that returns 0 does to `*res_dir`.
pub data Looked : Type 0 where
  assigned : Option ℕ → Looked
  untouched : Looked

-- `rootfs_lookup` and `devfs_lookup` return 0 and do nothing.
unfoldable pub call_lookup : InodeOperation → Run Looked
call_lookup rootfs_inode_op = ok untouched
call_lookup devfs_inode_op = ok untouched

-- `dir->inode->inode_op->lookup(dir, name, len, res_dir)`
unfoldable pub inode_lookup : Vfs → DirEntry → Run Looked
inode_lookup v dir = do
  i ← deref dir.inode
  inode ← at v.inode_table i
  op ← deref inode.inode_op
  call_lookup op

-- No call of `lookup` returns an error: neither of the two file systems does.
unfoldable pub lookup : Vfs → ℕ → List ℕ → Run Looked
lookup v dir name = do
  d ← at v.dirs dir
  if is_dot name
      then ok (assigned (some dir))
      else if is_dot_dot name
      then ok (assigned d.parent)
      else if length name == 0
      then ok (assigned (some dir))
      else (do
        child ← find_child v.dirs name d.children
        elim child [
          | none ↦ inode_lookup v d
          | some i ↦ do tmp ← follow_mounts (suc (length v.dirs)) v.dirs i; ok (assigned (some tmp))
        ])

-- `mid_dir` after the call. It is not initialised: `none` also stands for what it holds at first.
abbrev pub mid_after : Looked → Option ℕ → Option ℕ
mid_after (assigned d) mid_dir = d
mid_after untouched mid_dir = mid_dir

-- The loop of `get_parent_dir_entry`, with the bytes of the current name so far. A pointer that is
-- null or was never set cannot be followed.
unfoldable pub walk : Vfs → Option ℕ → Option ℕ → List ℕ → List ℕ → Run (Option ℕ × List ℕ)
walk v dir mid_dir thisname [] = ok (dir, thisname)
walk v dir mid_dir thisname (c ∷ tmp_name) = elim (c == b'/') [
  | false ↦ walk v dir mid_dir (thisname ++ (c ∷ [])) tmp_name
  | true ↦ do
    d ← deref dir
    r ← lookup v d thisname
    walk v (mid_after r mid_dir) (mid_after r mid_dir) [] tmp_name
]

abbrev pub if_null : Option ℕ → Option ℕ → Option ℕ
if_null none b = b
if_null (some a) b = some a

-- Where a path starts: at the root if it begins with a slash, else at `base`, which is the working
-- directory if it is null.
abbrev pub start_of : Vfs → Option ℕ → List ℕ → Option ℕ × List ℕ
start_of v base [] = (if_null base v.current_thread.pwd, [])
start_of v base (c ∷ path) =
    if c == b'/'
    then (v.current_thread.root, path)
    else (if_null base v.current_thread.pwd, c ∷ path)

-- `nd->dir` and `nd->last_name`
unfoldable pub get_parent_dir_entry : Vfs → List ℕ → Option ℕ → Run (Option ℕ × List ℕ)
get_parent_dir_entry v pathname base =
    walk v (start_of v base pathname).0 none [] (start_of v base pathname).1

-- `*res_dir`, which `_namei` sets to null first; the value returned is always 0.
unfoldable pub namei : Vfs → List ℕ → Run (Option ℕ)
namei v pathname = do
  (dir, last_name) ← get_parent_dir_entry v pathname none
  d ← deref dir
  r ← lookup v d last_name
  ok (mid_after r none)

-- `*res_inode`
unfoldable pub get_inode_by_filename : Vfs → List ℕ → Run (Option ℕ)
get_inode_by_filename v filename = do
  dir ← namei v filename
  d ← deref dir
  file_dentry ← at v.dirs d
  ok file_dentry.inode
