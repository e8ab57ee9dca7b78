-- ===== src/Fs/Tree.antt =====
-- Directories and mounts: fs/file_op.c with fs/rootfs/super.c and fs/devfs/super.c. Allocating memory
-- is taken to succeed; the printed messages are left out.
pub mod Made
use jnix.Prelude.{
  minus, ℕ, zero, suc, ◌+◌, ◌-◌, ◌^◌, not, Bool, true, false, ◌||◌, Option, none, some, List, [],
  ◌∷◌, ◌++◌, length, set, ltb, ◌==◌, if◌then◌else◌, Run, ok, fault, ◌>>=◌, deref,
}
use jnix.Fs.State.{
  FileOperation, rootfs_f_op, devfs_f_op, InodeOperation, rootfs_inode_op, devfs_inode_op, Inode,
  DirEntry, SuperBlock, Mount, rootfs_mount, devfs_mount, FileSystemType, Thread, Vfs, at,
  inode_table_max_count, file_mode_blk, file_mode_dir,
}
use jnix.Fs.Path.{same_name, follow_mounts, get_parent_dir_entry, namei}

-- `get_inode`: a cleared entry of the table with its number. Past the end of the table the write
-- goes astray.
unfoldable pub get_inode : Vfs → Run (ℕ × Vfs)
get_inode v = do
  old ← at v.inode_table v.inode_num
  let a : Inode = record {
    mode = 0;
    size = 0;
    dev_num = 0;
    num = v.inode_num;
    used_count = 0;
    f_op = none;
    sb = none;
    inode_op = none;
  }
  ok (
    v.inode_num,
    record v { inode_table = set v.inode_table v.inode_num a; inode_num = v.inode_num + 1 },
  )

-- A new directory entry, behind those that there are.
abbrev pub get_dir : DirEntry → Vfs → ℕ × Vfs
get_dir dir v = (length v.dirs, record v { dirs = v.dirs ++ (dir ∷ []) })

-- `list_add(tmp, &dir->children)`: the new child comes first.
abbrev pub add_child : Vfs → ℕ → DirEntry → ℕ → Vfs
add_child v d dir new = record v {
  dirs = set v.dirs d (record dir { children = new ∷ dir.children });
}

-- What `sys_mkdir` makes below `dir`, at position `d`. A name of 256 bytes or more does not fit
-- with the 0 behind it.
unfoldable pub make_dir : ℕ → DirEntry → List ℕ → Vfs → Run Vfs
make_dir d dir name v₀ = do
  (n, v₁) ← get_inode v₀
  new_inode ← at v₁.inode_table n
  let v : Vfs = record v₁ {
    inode_table =
        set v₁.inode_table n
          (record new_inode { sb = dir.sb; dev_num = dir.dev_num; mode = file_mode_dir });
  }
  let dev_dir : DirEntry = record {
    name = name;
    inode = some n;
    sb = dir.sb;
    parent = some d;
    children = [];
    dev_num = dir.dev_num;
    is_mounted = false;
    mounted_dir = none;
  }
  let r = get_dir dev_dir v
  if ltb (length name) 256 then ok (add_child r.1 d dir r.0) else fault

-- The mode of a directory entry's inode.
unfoldable pub mode_of : Vfs → DirEntry → Run ℕ
mode_of v dir = do i ← deref dir.inode; inode ← at v.inode_table i; ok inode.mode

unfoldable pub sys_mkdir : List ℕ → Vfs → Run (ℕ × Vfs)
sys_mkdir dirname v = do
  (p, last_name) ← get_parent_dir_entry v dirname v.current_thread.root
  d ← deref p
  dir ← at v.dirs d
  mode ← mode_of v dir
  if mode == file_mode_dir
      then (do v' ← make_dir d dir last_name v; ok (0, v'))
      else ok (minus 1, v)

abbrev pub f_op_of : Mount → FileOperation
f_op_of rootfs_mount = rootfs_f_op
f_op_of devfs_mount = devfs_f_op

abbrev pub inode_op_of : Mount → InodeOperation
inode_op_of rootfs_mount = rootfs_inode_op
inode_op_of devfs_mount = devfs_inode_op

-- `rootfs_mount` numbers its super block 0, `devfs_mount` as it is told.
abbrev pub sb_number : Mount → ℕ → ℕ
sb_number rootfs_mount dev_num = 0
sb_number devfs_mount dev_num = dev_num

-- `fs_type->mount(fs_type, dev_num)` for the file system at position `t`: the new directory.
unfoldable pub call_mount : ℕ → FileSystemType → ℕ → Vfs → Run (ℕ × Vfs)
call_mount t fs_type dev_num v₀ = do
  let sb = length v₀.super_blocks
  let number = sb_number fs_type.mount dev_num
  (n, v₁) ← get_inode v₀
  new_inode ← at v₁.inode_table n
  let new_dir : DirEntry = record {
    name = b'/' ∷ [];
    inode = some n;
    sb = some sb;
    parent = some (length v₁.dirs);
    children = [];
    dev_num = number;
    is_mounted = false;
    mounted_dir = none;
  }
  let r = get_dir new_dir v₁
  ok (
    r.0,
    record r.1 {
      inode_table = set v₁.inode_table n (record new_inode {
        sb = some sb;
        dev_num = number;
        f_op = some (f_op_of fs_type.mount);
        inode_op = some (inode_op_of fs_type.mount);
        mode = file_mode_dir;
      });
      super_blocks =
          v₁.super_blocks
          ++ (record { dev_num = number; fs_type = t; root_dir = r.0; root_inode = n } ∷ []);
      file_system_table = set v₁.file_system_table t (record fs_type { sb_table = some sb });
    },
  )

unfoldable pub register_filesystem : FileSystemType → Vfs → Vfs
register_filesystem fs_type v = record v {
  file_system_table = v.file_system_table ++ (fs_type ∷ []);
}

-- `init_rootfs`
unfoldable pub init_rootfs : Vfs → Vfs
init_rootfs v =
    register_filesystem
      (record {
        name = b'r' ∷ b'o' ∷ b'o' ∷ b't' ∷ b'f' ∷ b's' ∷ [];
        mount = rootfs_mount;
        sb_table = none;
      })
      v

-- `init_devfs`
unfoldable pub init_devfs : Vfs → Run (ℕ × Vfs)
init_devfs v = sys_mkdir (b'/' ∷ b'd' ∷ b'e' ∷ b'v' ∷ []) (
    register_filesystem
      (record {
        name = b'd' ∷ b'e' ∷ b'v' ∷ b'f' ∷ b's' ∷ [];
        mount = devfs_mount;
        sb_table = none;
      })
      v)

-- The first file system of that name.
unfoldable pub lookup_fs : List ℕ → List FileSystemType → Run (Option ℕ)
lookup_fs name [] = ok none
lookup_fs name (tmp ∷ table) = do
  same ← same_name tmp.name name
  if same
      then ok (some 0)
      else (do r ← lookup_fs name table; ok (elim r [ none ↦ none | some i ↦ some (suc i) ]))

-- `namei` and the directory entry that it finds.
unfoldable pub entry_at : Vfs → List ℕ → Run (ℕ × DirEntry)
entry_at v pathname = do p ← namei v pathname; d ← deref p; dir ← at v.dirs d; ok (d, dir)

-- Mounting once the type and the two directories are found.
unfoldable pub mount_at : ℕ → FileSystemType → ℕ → ℕ → Vfs → Run Vfs
mount_at t fs_type dev_num d v₀ = do
  (new_dir, v) ← call_mount t fs_type dev_num v₀
  last ← follow_mounts (suc (length v.dirs)) v.dirs d
  dir_dir ← at v.dirs last
  ok (record v {
    dirs = set v.dirs last (record dir_dir { is_mounted = true; mounted_dir = some new_dir });
  })

unfoldable pub sys_mount : List ℕ → List ℕ → List ℕ → Vfs → Run (ℕ × Vfs)
sys_mount dev_name dir_name type v = do
  found ← lookup_fs type v.file_system_table
  elim found [
    | none ↦ ok (minus 1, v)
    | some t ↦ do
      fs_type ← at v.file_system_table t
      (dev, dev_dir) ← entry_at v dev_name
      dev_mode ← mode_of v dev_dir
      if not ((dev_mode == file_mode_dir) || (dev_mode == file_mode_blk))
          then ok (minus 1, v)
          else (do
            (d, dir_dir) ← entry_at v dir_name
            mode ← mode_of v dir_dir
            if not (mode == file_mode_dir)
                then ok (minus 1, v)
                else if dir_dir.is_mounted
                then ok (minus 1, v)
                else (do v' ← mount_at t fs_type dev_dir.dev_num d v; ok (0, v')))
  ]

-- `struct s_stat`
pub record Stat : Type 0 where
  pub dev_num : ℕ
  pub inode_num : ℕ
  pub size : ℕ
  pub mode : ℕ

-- What `sys_stat` writes to `statbuf`; it returns 0.
unfoldable pub sys_stat : List ℕ → Vfs → Run Stat
sys_stat filename v = do
  (d, dir) ← entry_at v filename
  i ← deref dir.inode
  inode ← at v.inode_table i
  ok (record { dev_num = dir.dev_num; inode_num = inode.num; size = inode.size; mode = inode.mode })

abbrev pub enotdir : ℕ
enotdir = 20

unfoldable pub sys_chroot : List ℕ → Vfs → Run (ℕ × Vfs)
sys_chroot dirname v = do
  (d, dir) ← entry_at v dirname
  mode ← mode_of v dir
  if mode == file_mode_dir
      then ok (0, record v { current_thread = record v.current_thread { root = some d } })
      else ok (minus enotdir, v)

unfoldable pub sys_chdir : List ℕ → Vfs → Run (ℕ × Vfs)
sys_chdir dirname v = do
  (d, dir) ← entry_at v dirname
  mode ← mode_of v dir
  if mode == file_mode_dir
      then ok (0, record v { current_thread = record v.current_thread { pwd = some d } })
      else ok (minus enotdir, v)
