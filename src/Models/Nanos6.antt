-- ===== src/Models/Nanos6.antt =====
-- The table of events of src/emu/nanos6/event.c, with the states of src/emu/nanos6/nanos6_priv.h. The state of an
-- event that is ignored is never read.
pub mod Tasks
pub mod Shown
mod Tests
use ovni.Prelude.{ℕ, List, [], ◌∷◌}
use ovni.Models.{Row, row, do_push, do_pop, do_set, ignore}

pub data Nanos6State : Type 0 where
  task_body : Nanos6State
  task_creating task_submit task_spawning task_for sched_adding sched_processing : Nanos6State
  sched_serving dep_reg dep_unreg blk_taskwait blk_waitfor blk_blocking : Nanos6State
  blk_unblocking allocating freeing handling_task worker_loop switch_to migrate : Nanos6State
  suspend resume sponge th_leader th_main th_worker th_external progressing : Nanos6State
  resting absorbing : Nanos6State

abbrev pub nanos6_number : Nanos6State → ℕ
nanos6_number task_body = 1
nanos6_number task_creating = 3
nanos6_number task_submit = 4
nanos6_number task_spawning = 5
nanos6_number task_for = 6
nanos6_number sched_adding = 7
nanos6_number sched_processing = 8
nanos6_number sched_serving = 9
nanos6_number dep_reg = 10
nanos6_number dep_unreg = 11
nanos6_number blk_taskwait = 12
nanos6_number blk_waitfor = 13
nanos6_number blk_blocking = 14
nanos6_number blk_unblocking = 15
nanos6_number allocating = 16
nanos6_number freeing = 17
nanos6_number handling_task = 18
nanos6_number worker_loop = 19
nanos6_number switch_to = 20
nanos6_number migrate = 21
nanos6_number suspend = 22
nanos6_number resume = 23
nanos6_number sponge = 24
nanos6_number th_leader = 1
nanos6_number th_main = 2
nanos6_number th_worker = 3
nanos6_number th_external = 4
nanos6_number progressing = 100
nanos6_number resting = 101
nanos6_number absorbing = 102

abbrev pub nanos6_table : List Row
nanos6_table =
    row b'W' b'[' 2 do_push (nanos6_number worker_loop)
    ∷ row b'W' b']' 2 do_pop (nanos6_number worker_loop)
    ∷ row b'W' b't' 2 do_push (nanos6_number handling_task)
    ∷ row b'W' b'T' 2 do_pop (nanos6_number handling_task)
    ∷ row b'W' b'w' 2 do_push (nanos6_number switch_to)
    ∷ row b'W' b'W' 2 do_pop (nanos6_number switch_to)
    ∷ row b'W' b'm' 2 do_push (nanos6_number migrate)
    ∷ row b'W' b'M' 2 do_pop (nanos6_number migrate)
    ∷ row b'W' b's' 2 do_push (nanos6_number suspend)
    ∷ row b'W' b'S' 2 do_pop (nanos6_number suspend)
    ∷ row b'W' b'r' 2 do_push (nanos6_number resume)
    ∷ row b'W' b'R' 2 do_pop (nanos6_number resume)
    ∷ row b'W' b'g' 2 do_push (nanos6_number sponge)
    ∷ row b'W' b'G' 2 do_pop (nanos6_number sponge)
    ∷ row b'W' b'*' 2 ignore 0
    ∷ row b'P' b'p' 5 do_set (nanos6_number progressing)
    ∷ row b'P' b'r' 5 do_set (nanos6_number resting)
    ∷ row b'P' b'a' 5 do_set (nanos6_number absorbing)
    ∷ row b'C' b'[' 2 do_push (nanos6_number task_creating)
    ∷ row b'C' b']' 2 do_pop (nanos6_number task_creating)
    ∷ row b'U' b'[' 2 do_push (nanos6_number task_submit)
    ∷ row b'U' b']' 2 do_pop (nanos6_number task_submit)
    ∷ row b'F' b'[' 2 do_push (nanos6_number task_spawning)
    ∷ row b'F' b']' 2 do_pop (nanos6_number task_spawning)
    ∷ row b'O' b'[' 2 do_push (nanos6_number task_for)
    ∷ row b'O' b']' 2 do_pop (nanos6_number task_for)
    ∷ row b't' b'[' 2 ignore 0
    ∷ row b't' b']' 2 ignore 0
    ∷ row b'M' b'a' 2 do_push (nanos6_number allocating)
    ∷ row b'M' b'A' 2 do_pop (nanos6_number allocating)
    ∷ row b'M' b'f' 2 do_push (nanos6_number freeing)
    ∷ row b'M' b'F' 2 do_pop (nanos6_number freeing)
    ∷ row b'D' b'r' 2 do_push (nanos6_number dep_reg)
    ∷ row b'D' b'R' 2 do_pop (nanos6_number dep_reg)
    ∷ row b'D' b'u' 2 do_push (nanos6_number dep_unreg)
    ∷ row b'D' b'U' 2 do_pop (nanos6_number dep_unreg)
    ∷ row b'S' b'[' 2 do_push (nanos6_number sched_serving)
    ∷ row b'S' b']' 2 do_pop (nanos6_number sched_serving)
    ∷ row b'S' b'a' 2 do_push (nanos6_number sched_adding)
    ∷ row b'S' b'A' 2 do_pop (nanos6_number sched_adding)
    ∷ row b'S' b'p' 2 do_push (nanos6_number sched_processing)
    ∷ row b'S' b'P' 2 do_pop (nanos6_number sched_processing)
    ∷ row b'S' b'@' 2 ignore 0
    ∷ row b'S' b'r' 2 ignore 0
    ∷ row b'S' b's' 2 ignore 0
    ∷ row b'B' b'b' 2 do_push (nanos6_number blk_blocking)
    ∷ row b'B' b'B' 2 do_pop (nanos6_number blk_blocking)
    ∷ row b'B' b'u' 2 do_push (nanos6_number blk_unblocking)
    ∷ row b'B' b'U' 2 do_pop (nanos6_number blk_unblocking)
    ∷ row b'B' b'w' 2 do_push (nanos6_number blk_taskwait)
    ∷ row b'B' b'W' 2 do_pop (nanos6_number blk_taskwait)
    ∷ row b'B' b'f' 2 do_push (nanos6_number blk_waitfor)
    ∷ row b'B' b'F' 2 do_pop (nanos6_number blk_waitfor)
    ∷ row b'H' b'e' 4 do_push (nanos6_number th_external)
    ∷ row b'H' b'E' 4 do_pop (nanos6_number th_external)
    ∷ row b'H' b'w' 4 do_push (nanos6_number th_worker)
    ∷ row b'H' b'W' 4 do_pop (nanos6_number th_worker)
    ∷ row b'H' b'l' 4 do_push (nanos6_number th_leader)
    ∷ row b'H' b'L' 4 do_pop (nanos6_number th_leader)
    ∷ row b'H' b'm' 4 do_push (nanos6_number th_main)
    ∷ row b'H' b'M' 4 do_pop (nanos6_number th_main)
    ∷ []
