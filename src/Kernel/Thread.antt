-- ===== src/Kernel/Thread.antt =====
-- kernel/thread.c and kernel/schedule.c: the ring of threads. A pointer to a thread is its address;
-- its registers and its table of files are left out.
pub mod Turns
mod Tests
use jnix.Prelude.{
  ℕ, ◌+◌, ◌-◌, Bool, true, false, Option, none, some, ◌==◌, if◌then◌else◌, add32, minus,
}

-- What the ring and its numbers use of `struct thread`, by address, with the variables of the files.
pub record Threads : Type 0 where
  pub next : ℕ → ℕ
  pub prev : ℕ → ℕ
  pub pid_of : ℕ → ℕ
  pub parent_pid : ℕ → ℕ
  pub thread_table : Option ℕ
  pub current_thread : Option ℕ
  pub pid : ℕ

abbrev pub update : (ℕ → ℕ) → ℕ → ℕ → ℕ → ℕ
update f a v b = if b == a then v else f b

-- The new thread `th` goes before the first, `first`.
unfoldable pub link : ℕ → ℕ → Threads → Threads
link first th t =
    let last = t.prev first in
    record t {
      next = update (update t.next th first) last th;
      prev = update (update t.prev th last) first th;
    }

-- The first thread is its own neighbour.
unfoldable pub link_first : ℕ → Threads → Threads
link_first th t = record t {
  thread_table = some th;
  next = update t.next th th;
  prev = update t.prev th th;
}

-- `if (thread_table == 0) …`
abbrev pub link_in : Option ℕ → ℕ → Threads → Threads
link_in none th t = link_first th t
link_in (some first) th t = link first th t

-- The new thread's numbers.
abbrev pub numbered : ℕ → Threads → Threads
numbered th t = record t {
  pid_of = update t.pid_of th t.pid;
  parent_pid = update t.parent_pid th (minus 1);
  pid = add32 t.pid 1;
}

-- `thread_create` with the object that `kzmalloc` gave it, but for the registers.
unfoldable pub thread_create : ℕ → Threads → Threads
thread_create th t = record (link_in t.thread_table th (numbered th t)) { current_thread = some th }

-- `schedule`, but for the switch of page directory and stack.
unfoldable pub schedule : Threads → Threads
schedule t = elim (t.current_thread) [
  | none ↦ t
  | some prev ↦ record t { current_thread = some (t.next prev) }
]

-- `thread_int`
unfoldable pub thread_int : Threads → Threads
thread_int t = record t { current_thread = t.thread_table }
