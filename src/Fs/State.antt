-- ===== src/Fs/State.antt =====
-- include/fs/fs.h and the tables of fs/file_op.c. A pointer to a directory entry, an inode or a super
-- block is its position in the list of those that were made; `none` is the null pointer.
use jnix.Prelude.{ℕ, Bool, Option, List, get_elem?, Run, deref}

abbrev pub proc_files_max_count : ℕ
proc_files_max_count = 1024

abbrev pub file_desc_table_max_count : ℕ
file_desc_table_max_count = 2048

abbrev pub inode_table_max_count : ℕ
inode_table_max_count = 2048

abbrev pub file_mode_blk : ℕ
file_mode_blk = 1

abbrev pub file_mode_dir : ℕ
file_mode_dir = 3

-- The two tables of file operations. Both have `read` and `write` and nothing else.
pub data FileOperation : Type 0 where
  rootfs_f_op : FileOperation
  devfs_f_op : FileOperation

-- The two tables of inode operations. Both have `lookup` and nothing else.
pub data InodeOperation : Type 0 where
  rootfs_inode_op : InodeOperation
  devfs_inode_op : InodeOperation

-- `struct inode`, as far as the code uses it
pub record Inode : Type 0 where
  pub mode : ℕ
  pub size : ℕ
  pub dev_num : ℕ
  pub num : ℕ
  pub used_count : ℕ
  pub f_op : Option FileOperation
  pub sb : Option ℕ
  pub inode_op : Option InodeOperation

-- `struct dir_entry`; the name without the 0 behind it, the children from the head of their list on
pub record DirEntry : Type 0 where
  pub name : List ℕ
  pub inode : Option ℕ
  pub sb : Option ℕ
  pub parent : Option ℕ
  pub children : List ℕ
  pub dev_num : ℕ
  pub is_mounted : Bool
  pub mounted_dir : Option ℕ

-- `struct file_descriptor`
pub record FileDescriptor : Type 0 where
  pub pos : ℕ
  pub used_count : ℕ
  pub inode : Option ℕ
  pub op : Option FileOperation

-- `struct super_block`; `fs_type` is the position in `file_system_table`
pub record SuperBlock : Type 0 where
  pub dev_num : ℕ
  pub fs_type : ℕ
  pub root_dir : ℕ
  pub root_inode : ℕ

-- The function that `mount` points to.
pub data Mount : Type 0 where
  rootfs_mount : Mount
  devfs_mount : Mount

-- `struct file_system_type`
pub record FileSystemType : Type 0 where
  pub name : List ℕ
  pub mount : Mount
  pub sb_table : Option ℕ

-- What the file system uses of `struct thread`.
pub record Thread : Type 0 where
  pub file_table : List (Option ℕ)
  pub root : Option ℕ
  pub pwd : Option ℕ

pub record Vfs : Type 0 where
  pub file_system_table : List FileSystemType
  pub f_desc_table : List FileDescriptor
  pub inode_table : List Inode
  pub inode_num : ℕ
  pub super_blocks : List SuperBlock
  pub dirs : List DirEntry
  pub current_thread : Thread

-- The array element or the object at a position; there is nothing behind the last.
abbrev pub at {ℓ} : {A : Type ℓ} → List A → ℕ → Run A
at xs i = deref (get_elem? xs i)
