-- ===== src/Fs/Files.antt =====
-- File descriptors in fs/file_op.c. An int is its 32 bits, so that -1 is `minus 1`. The printed
-- messages are left out.
pub mod Counts
pub mod OpenClose
pub mod Seek
use jnix.Prelude.{
  is_negative, minus, ℕ, zero, suc, ◌+◌, ◌-◌, ◌^◌, ◌&&◌, not, Bool, true, false, Option, none, some,
  List, [], ◌∷◌, length, set, leb, ltb, ◌==◌, if◌then◌else◌, Run, ok, fault, ◌>>=◌, deref, add32,
  sub32,
}
use jnix.Fs.State.{
  FileOperation, rootfs_f_op, devfs_f_op, Inode, FileDescriptor, Thread, Vfs, at,
  proc_files_max_count, file_desc_table_max_count, file_mode_dir,
}
use jnix.Fs.Path.{get_inode_by_filename}

-- The first entry of a thread's table that is null.
unfoldable pub free_fd : List (Option ℕ) → Option ℕ
free_fd [] = none
free_fd (none ∷ table) = some 0
free_fd (some f ∷ table) = elim (free_fd table) [ none ↦ none | some i ↦ some (suc i) ]

-- The first descriptor without an inode.
unfoldable pub free_desc : List FileDescriptor → Option ℕ
free_desc [] = none
free_desc (f ∷ table) = elim (f.inode) [
  | none ↦ some 0
  | some n ↦ elim (free_desc table) [ none ↦ none | some i ↦ some (suc i) ]
]

abbrev pub set_fd : Vfs → ℕ → Option ℕ → Vfs
set_fd v fd f = record v {
  current_thread = record v.current_thread { file_table = set v.current_thread.file_table fd f };
}

abbrev pub set_desc : Vfs → ℕ → FileDescriptor → Vfs
set_desc v i f = record v { f_desc_table = set v.f_desc_table i f }

abbrev pub set_inode : Vfs → ℕ → Inode → Vfs
set_inode v n inode = record v { inode_table = set v.inode_table n inode }

-- Opening once the two slots and the file are found.
unfoldable pub open_at : ℕ → ℕ → ℕ → Vfs → Run Vfs
open_at fd i n v = do
  inode ← at v.inode_table n
  op ← deref inode.f_op
  let f : FileDescriptor = record { pos = 0; used_count = 1; inode = some n; op = some op }
  ok (
      set_inode (set_desc (set_fd v fd (some i)) i f) n
        (record inode { used_count = add32 inode.used_count 1 }))

unfoldable pub sys_open : List ℕ → Vfs → Run (ℕ × Vfs)
sys_open path v = elim (free_fd v.current_thread.file_table) [
  | none ↦ ok (minus 1, v)
  | some fd ↦ elim (free_desc v.f_desc_table) [
    | none ↦ ok (minus 1, v)
    | some i ↦ do p ← get_inode_by_filename v path; n ← deref p; v' ← open_at fd i n v; ok (fd, v')
  ]
]

-- `current_thread->file_table[fd]`, which has to be a descriptor
unfoldable pub file_of : ℕ → Vfs → Run (ℕ × FileDescriptor)
file_of fd v = do
  entry ← at v.current_thread.file_table fd
  i ← deref entry
  f ← at v.f_desc_table i
  ok (i, f)

-- `p->used_count--` and `p->used_count++`
abbrev pub release : FileDescriptor → FileDescriptor
release f = record f { used_count = sub32 f.used_count 1 }

abbrev pub retain : FileDescriptor → FileDescriptor
retain f = record f { used_count = add32 f.used_count 1 }

unfoldable pub sys_close : ℕ → Vfs → Run (ℕ × Vfs)
sys_close fd v = do
  (i, f) ← file_of fd v
  n ← deref f.inode
  inode ← at v.inode_table n
  ok (
    0,
    set_fd
        (set_inode (set_desc v i (release f)) n
          (record inode { used_count = sub32 inode.used_count 1 }))
        fd none,
  )

-- `fd >= PROC_FILES_MAX_COUNT || (file = current_thread->file_table[fd]) == 0 || file->inode == NULL`
-- for an int `fd`: none if so. A negative index is out of the table.
unfoldable pub opened : ℕ → Vfs → Run (Option (ℕ × FileDescriptor))
opened fd v = if not (is_negative fd) && leb proc_files_max_count fd then ok none else (do
  entry ← at v.current_thread.file_table fd
  elim entry [
    | none ↦ ok none
    | some i ↦ do
      f ← at v.f_desc_table i
      ok (elim (f.inode) [ none ↦ none | some n ↦ some (i, f) ])
  ])

-- `f_op_write` and `f_op_read` of both file systems return the number of bytes asked for.
unfoldable pub call_write : FileOperation → ℕ → ℕ
call_write rootfs_f_op nbyte = nbyte
call_write devfs_f_op nbyte = nbyte

unfoldable pub call_read : FileOperation → ℕ → ℕ
call_read rootfs_f_op nbyte = nbyte
call_read devfs_f_op nbyte = nbyte

unfoldable pub sys_write : ℕ → ℕ → Vfs → Run ℕ
sys_write fd nbyte v = do
  file ← opened fd v
  elim file [
    | none ↦ ok (minus 1)
    | some (i, f) ↦ if nbyte == 0 then ok 0 else (do op ← deref f.op; ok (call_write op nbyte))
  ]

unfoldable pub sys_read : ℕ → ℕ → Vfs → Run ℕ
sys_read fd nbyte v = do
  file ← opened fd v
  elim file [ none ↦ ok (minus 1) | some (i, f) ↦ do op ← deref f.op; ok (call_read op nbyte) ]

-- The new position, none where `sys_lseek` returns -1. An `off_t` is unsigned, so that the tests of
-- `offset` and `file->pos+offset` never hold; `tmp` is an int. No file operations have an `lseek`.
unfoldable pub seek_to : FileDescriptor → ℕ → ℕ → ℕ → Option ℕ
seek_to f size offset whence =
    let tmp = add32 size offset in
    if whence == 0
    then some offset
    else if whence == 1
    then some (add32 f.pos offset)
    else if whence == 2
    then (if is_negative tmp then none else some tmp)
    else none

unfoldable pub sys_lseek : ℕ → ℕ → ℕ → Vfs → Run (ℕ × Vfs)
sys_lseek fd offset whence v = do
  file ← opened fd v
  elim file [
    | none ↦ ok (minus 1, v)
    | some (i, f) ↦ do
      n ← deref f.inode
      inode ← at v.inode_table n
      ok (elim (seek_to f inode.size offset whence) [
        | none ↦ (minus 1, v)
        | some pos ↦ (pos, set_desc v i (record f { pos = pos }))
      ])
  ]

unfoldable pub sys_dup : ℕ → Vfs → Run (ℕ × Vfs)
sys_dup oldfd v = elim (free_fd v.current_thread.file_table) [
  | none ↦ ok (minus 1, v)
  | some fd ↦ do
    entry ← at v.current_thread.file_table oldfd
    let v₁ = set_fd v fd entry
    (i, f) ← file_of oldfd v₁
    n ← deref f.inode
    inode ← at v₁.inode_table n
    ok (
      fd,
      set_desc (set_inode v₁ n (record inode { used_count = add32 inode.used_count 1 })) i
          (retain f),
    )
]

-- `fd` is unsigned here. No file operations have a `readdir`.
unfoldable pub sys_getdents : ℕ → Vfs → Run ℕ
sys_getdents fd v = if leb proc_files_max_count fd then ok (minus 1) else (do
  entry ← at v.current_thread.file_table fd
  elim entry [
    | none ↦ ok (minus 1)
    | some i ↦ do
      f ← at v.f_desc_table i
      elim (f.inode) [
        | none ↦ ok (minus 1)
        | some n ↦ do
          inode ← at v.inode_table n
          if inode.mode == file_mode_dir then (do op ← deref f.op; ok 0) else ok (minus 1)
      ]
  ])
