-- ===== src/Models/Nosv.antt =====
-- The table of events of src/emu/nosv/event.c, with the states of src/emu/nosv/nosv_priv.h. The state of an
-- event that is ignored is never read.
pub mod Tasks
pub mod Writes
pub mod Shown
mod Tests
use ovni.Prelude.{ℕ, List, [], ◌∷◌}
use ovni.Models.{Row, row, do_push, do_pop, do_set, ignore}

pub data NosvState : Type 0 where
  sched_hungry sched_serving sched_submitting mem_allocating mem_freeing : NosvState
  task_body : NosvState
  api_create api_destroy api_submit api_pause api_yield api_waitfor : NosvState
  api_schedpoint api_attach api_detach api_mutex_lock api_mutex_trylock : NosvState
  api_mutex_unlock api_barrier_wait api_cond_wait api_cond_signal api_cond_bcast : NosvState
  worker delegate progressing resting absorbing : NosvState

abbrev pub nosv_number : NosvState → ℕ
nosv_number sched_hungry = 6
nosv_number sched_serving = 7
nosv_number sched_submitting = 8
nosv_number mem_allocating = 9
nosv_number mem_freeing = 10
nosv_number task_body = 11
nosv_number api_create = 12
nosv_number api_destroy = 13
nosv_number api_submit = 14
nosv_number api_pause = 15
nosv_number api_yield = 16
nosv_number api_waitfor = 17
nosv_number api_schedpoint = 18
nosv_number api_attach = 19
nosv_number api_detach = 20
nosv_number api_mutex_lock = 21
nosv_number api_mutex_trylock = 22
nosv_number api_mutex_unlock = 23
nosv_number api_barrier_wait = 24
nosv_number api_cond_wait = 25
nosv_number api_cond_signal = 26
nosv_number api_cond_bcast = 27
nosv_number worker = 28
nosv_number delegate = 29
nosv_number progressing = 100
nosv_number resting = 101
nosv_number absorbing = 102

abbrev pub nosv_table : List Row
nosv_table =
    row b'S' b'h' 4 do_push (nosv_number sched_hungry)
    ∷ row b'S' b'f' 4 do_pop (nosv_number sched_hungry)
    ∷ row b'S' b'[' 4 do_push (nosv_number sched_serving)
    ∷ row b'S' b']' 4 do_pop (nosv_number sched_serving)
    ∷ row b'S' b'N' 4 do_push (nosv_number sched_serving)
    ∷ row b'S' b'n' 4 do_pop (nosv_number sched_serving)
    ∷ row b'S' b'@' 4 ignore 0
    ∷ row b'S' b'r' 4 ignore 0
    ∷ row b'S' b's' 4 ignore 0
    ∷ row b'U' b'[' 4 do_push (nosv_number sched_submitting)
    ∷ row b'U' b']' 4 do_pop (nosv_number sched_submitting)
    ∷ row b'M' b'a' 4 do_push (nosv_number mem_allocating)
    ∷ row b'M' b'A' 4 do_pop (nosv_number mem_allocating)
    ∷ row b'M' b'f' 4 do_push (nosv_number mem_freeing)
    ∷ row b'M' b'F' 4 do_pop (nosv_number mem_freeing)
    ∷ row b'A' b'r' 4 do_push (nosv_number api_create)
    ∷ row b'A' b'R' 4 do_pop (nosv_number api_create)
    ∷ row b'A' b'd' 4 do_push (nosv_number api_destroy)
    ∷ row b'A' b'D' 4 do_pop (nosv_number api_destroy)
    ∷ row b'A' b's' 4 do_push (nosv_number api_submit)
    ∷ row b'A' b'S' 4 do_pop (nosv_number api_submit)
    ∷ row b'A' b'p' 4 do_push (nosv_number api_pause)
    ∷ row b'A' b'P' 4 do_pop (nosv_number api_pause)
    ∷ row b'A' b'y' 4 do_push (nosv_number api_yield)
    ∷ row b'A' b'Y' 4 do_pop (nosv_number api_yield)
    ∷ row b'A' b'w' 4 do_push (nosv_number api_waitfor)
    ∷ row b'A' b'W' 4 do_pop (nosv_number api_waitfor)
    ∷ row b'A' b'c' 4 do_push (nosv_number api_schedpoint)
    ∷ row b'A' b'C' 4 do_pop (nosv_number api_schedpoint)
    ∷ row b'A' b'a' 4 do_push (nosv_number api_attach)
    ∷ row b'A' b'A' 4 do_pop (nosv_number api_attach)
    ∷ row b'A' b'e' 4 do_push (nosv_number api_detach)
    ∷ row b'A' b'E' 4 do_pop (nosv_number api_detach)
    ∷ row b'A' b'l' 4 do_push (nosv_number api_mutex_lock)
    ∷ row b'A' b'L' 4 do_pop (nosv_number api_mutex_lock)
    ∷ row b'A' b't' 4 do_push (nosv_number api_mutex_trylock)
    ∷ row b'A' b'T' 4 do_pop (nosv_number api_mutex_trylock)
    ∷ row b'A' b'u' 4 do_push (nosv_number api_mutex_unlock)
    ∷ row b'A' b'U' 4 do_pop (nosv_number api_mutex_unlock)
    ∷ row b'A' b'b' 4 do_push (nosv_number api_barrier_wait)
    ∷ row b'A' b'B' 4 do_pop (nosv_number api_barrier_wait)
    ∷ row b'A' b'o' 4 do_push (nosv_number api_cond_wait)
    ∷ row b'A' b'O' 4 do_pop (nosv_number api_cond_wait)
    ∷ row b'A' b'g' 4 do_push (nosv_number api_cond_signal)
    ∷ row b'A' b'G' 4 do_pop (nosv_number api_cond_signal)
    ∷ row b'A' b'k' 4 do_push (nosv_number api_cond_bcast)
    ∷ row b'A' b'K' 4 do_pop (nosv_number api_cond_bcast)
    ∷ row b'H' b'a' 4 ignore 0
    ∷ row b'H' b'A' 4 ignore 0
    ∷ row b'H' b'w' 4 do_push (nosv_number worker)
    ∷ row b'H' b'W' 4 do_pop (nosv_number worker)
    ∷ row b'H' b'd' 4 do_push (nosv_number delegate)
    ∷ row b'H' b'D' 4 do_pop (nosv_number delegate)
    ∷ row b'P' b'p' 6 do_set (nosv_number progressing)
    ∷ row b'P' b'r' 6 do_set (nosv_number resting)
    ∷ row b'P' b'a' 6 do_set (nosv_number absorbing)
    ∷ []
