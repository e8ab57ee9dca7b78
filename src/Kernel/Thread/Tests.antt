-- ===== src/Kernel/Thread/Tests.antt =====
-- A ring of two threads, and the theorems at it.
use jnix.Prelude.{◌≡◌, refl, some, [], ◌∷◌, ◌++◌, arith, ◌==◌, if◌then◌else◌}
use jnix.Kernel.Thread.{Threads, thread_create}
use jnix.Kernel.Thread.Turns.{Chain, Ring, turns, thread_create_lem, turns_lem}

-- The threads at 100 and 200.
abbrev two : Threads
two = record {
  next = λ a. if a == 100 then 200 else 100;
  prev = λ a. if a == 100 then 200 else 100;
  pid_of = λ a. if a == 100 then 0 else 1;
  parent_pid = λ a. 0;
  thread_table = some 100;
  current_thread = some 100;
  pid = 2;
}

two-Ring : Ring two 100 (200 ∷ [])
unfolding Chain
two-Ring = record { table = refl; chain = (refl, refl, (refl, refl)); once = refl }

thread_create_lem_example :
    Ring (thread_create 300 two) 100 ((200 ∷ []) ++ (300 ∷ []))
    × ((thread_create 300 two).current_thread ≡ some 300)
    × ((thread_create 300 two).pid_of 300 ≡ 2)
thread_create_lem_example = thread_create_lem two 100 300 (200 ∷ []) two-Ring (omega arith) refl

turns_lem_example : (turns 1 two).current_thread ≡ some 200
turns_lem_example = turns_lem two 100 (200 ∷ []) 0 200 two-Ring refl refl
