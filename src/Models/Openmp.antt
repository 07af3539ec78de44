-- ===== src/Models/Openmp.antt =====
-- The events of src/emu/openmp/event.c, with the states of src/emu/openmp/openmp_priv.h.
pub mod Tasks
pub mod Labels
mod Tests
use ovni.Prelude.{ℕ, List, [], ◌∷◌}
use ovni.Models.{Row, row, do_push, do_pop, ignore}

pub data OpenmpState : Type 0 where
  barrier_fork barrier_join barrier_plain barrier_spin_wait barrier_task critical_acq : OpenmpState
  critical_rel critical_section wd_distribute wd_for_dynamic_chunk wd_for_dynamic_init : OpenmpState
  wd_for_static wd_section wd_single task_alloc task_check_deps task_dup_alloc : OpenmpState
  task_release_deps task_run task_run_if0 task_schedule task_taskgroup task_taskwait : OpenmpState
  task_taskwait_deps task_taskyield rt_attached rt_fork_call rt_init rt_microtask_internal :
      OpenmpState
  rt_microtask_user rt_worker_loop : OpenmpState

abbrev pub openmp_number : OpenmpState → ℕ
openmp_number barrier_fork = 1
openmp_number barrier_join = 2
openmp_number barrier_plain = 3
openmp_number barrier_spin_wait = 4
openmp_number barrier_task = 5
openmp_number critical_acq = 6
openmp_number critical_rel = 7
openmp_number critical_section = 8
openmp_number wd_distribute = 9
openmp_number wd_for_dynamic_chunk = 10
openmp_number wd_for_dynamic_init = 11
openmp_number wd_for_static = 12
openmp_number wd_section = 13
openmp_number wd_single = 14
openmp_number task_alloc = 15
openmp_number task_check_deps = 16
openmp_number task_dup_alloc = 17
openmp_number task_release_deps = 18
openmp_number task_run = 19
openmp_number task_run_if0 = 20
openmp_number task_schedule = 21
openmp_number task_taskgroup = 22
openmp_number task_taskwait = 23
openmp_number task_taskwait_deps = 24
openmp_number task_taskyield = 25
openmp_number rt_attached = 26
openmp_number rt_fork_call = 27
openmp_number rt_init = 28
openmp_number rt_microtask_internal = 29
openmp_number rt_microtask_user = 30
openmp_number rt_worker_loop = 31

abbrev pub openmp_table : List Row
openmp_table =
    row b'B' b'b' 0 do_push (openmp_number barrier_plain)
    ∷ row b'B' b'B' 0 do_pop (openmp_number barrier_plain)
    ∷ row b'B' b'j' 0 do_push (openmp_number barrier_join)
    ∷ row b'B' b'J' 0 do_pop (openmp_number barrier_join)
    ∷ row b'B' b'f' 0 do_push (openmp_number barrier_fork)
    ∷ row b'B' b'F' 0 do_pop (openmp_number barrier_fork)
    ∷ row b'B' b't' 0 do_push (openmp_number barrier_task)
    ∷ row b'B' b'T' 0 do_pop (openmp_number barrier_task)
    ∷ row b'B' b's' 0 ignore (openmp_number barrier_spin_wait)
    ∷ row b'B' b'S' 0 ignore (openmp_number barrier_spin_wait)
    ∷ row b'I' b'a' 0 do_push (openmp_number critical_acq)
    ∷ row b'I' b'A' 0 do_pop (openmp_number critical_acq)
    ∷ row b'I' b'r' 0 do_push (openmp_number critical_rel)
    ∷ row b'I' b'R' 0 do_pop (openmp_number critical_rel)
    ∷ row b'I' b'[' 0 do_push (openmp_number critical_section)
    ∷ row b'I' b']' 0 do_pop (openmp_number critical_section)
    ∷ row b'W' b'd' 0 do_push (openmp_number wd_distribute)
    ∷ row b'W' b'D' 0 do_pop (openmp_number wd_distribute)
    ∷ row b'W' b'c' 0 do_push (openmp_number wd_for_dynamic_chunk)
    ∷ row b'W' b'C' 0 do_pop (openmp_number wd_for_dynamic_chunk)
    ∷ row b'W' b'y' 0 do_push (openmp_number wd_for_dynamic_init)
    ∷ row b'W' b'Y' 0 do_pop (openmp_number wd_for_dynamic_init)
    ∷ row b'W' b's' 0 do_push (openmp_number wd_for_static)
    ∷ row b'W' b'S' 0 do_pop (openmp_number wd_for_static)
    ∷ row b'W' b'e' 0 do_push (openmp_number wd_section)
    ∷ row b'W' b'E' 0 do_pop (openmp_number wd_section)
    ∷ row b'W' b'i' 0 do_push (openmp_number wd_single)
    ∷ row b'W' b'I' 0 do_pop (openmp_number wd_single)
    ∷ row b'T' b'a' 0 do_push (openmp_number task_alloc)
    ∷ row b'T' b'A' 0 do_pop (openmp_number task_alloc)
    ∷ row b'T' b'c' 0 do_push (openmp_number task_check_deps)
    ∷ row b'T' b'C' 0 do_pop (openmp_number task_check_deps)
    ∷ row b'T' b'd' 0 do_push (openmp_number task_dup_alloc)
    ∷ row b'T' b'D' 0 do_pop (openmp_number task_dup_alloc)
    ∷ row b'T' b'r' 0 do_push (openmp_number task_release_deps)
    ∷ row b'T' b'R' 0 do_pop (openmp_number task_release_deps)
    ∷ row b'T' b'[' 0 do_push (openmp_number task_run)
    ∷ row b'T' b']' 0 do_pop (openmp_number task_run)
    ∷ row b'T' b'i' 0 do_push (openmp_number task_run_if0)
    ∷ row b'T' b'I' 0 do_pop (openmp_number task_run_if0)
    ∷ row b'T' b's' 0 do_push (openmp_number task_schedule)
    ∷ row b'T' b'S' 0 do_pop (openmp_number task_schedule)
    ∷ row b'T' b'g' 0 do_push (openmp_number task_taskgroup)
    ∷ row b'T' b'G' 0 do_pop (openmp_number task_taskgroup)
    ∷ row b'T' b't' 0 do_push (openmp_number task_taskwait)
    ∷ row b'T' b'T' 0 do_pop (openmp_number task_taskwait)
    ∷ row b'T' b'w' 0 do_push (openmp_number task_taskwait_deps)
    ∷ row b'T' b'W' 0 do_pop (openmp_number task_taskwait_deps)
    ∷ row b'T' b'y' 0 do_push (openmp_number task_taskyield)
    ∷ row b'T' b'Y' 0 do_pop (openmp_number task_taskyield)
    ∷ row b'A' b'[' 0 do_push (openmp_number rt_attached)
    ∷ row b'A' b']' 0 do_pop (openmp_number rt_attached)
    ∷ row b'M' b'i' 0 do_push (openmp_number rt_microtask_internal)
    ∷ row b'M' b'I' 0 do_pop (openmp_number rt_microtask_internal)
    ∷ row b'M' b'u' 0 do_push (openmp_number rt_microtask_user)
    ∷ row b'M' b'U' 0 do_pop (openmp_number rt_microtask_user)
    ∷ row b'H' b'[' 0 do_push (openmp_number rt_worker_loop)
    ∷ row b'H' b']' 0 do_pop (openmp_number rt_worker_loop)
    ∷ row b'C' b'i' 0 do_push (openmp_number rt_init)
    ∷ row b'C' b'I' 0 do_pop (openmp_number rt_init)
    ∷ row b'C' b'f' 0 do_push (openmp_number rt_fork_call)
    ∷ row b'C' b'F' 0 do_pop (openmp_number rt_fork_call)
    ∷ []
