-- ===== src/Cpu.antt =====
-- src/emu/cpu.c: the threads of a CPU, and the channels that show which of them run.
pub mod Shown
pub mod Threads
pub mod Alike
pub mod Numbers
pub mod Migration
mod Tests
use ovni.Prelude.{
  ℕ, ◌+◌, ◌-◌, ◌%◌, ◌^◌, ◌≡◌, Bool, true, false, not, ◌&&◌, Option, none, some, List, [], ◌∷◌,
  if◌then◌else◌, ltb, ◌==◌, Result, ok, err, ◌>>=◌, ◌>>◌, fail_if, or_err, is_none,
}
use ovni.Prelude.Int.{ℤ, pos, ltb_ℤ}
use ovni.Value.{Value, value_int64, value_null}
use ovni.Chan.{Chan, single, ignore_dup, chan_init, chan_prop_set, chan_set}
use ovni.Vendor.{LinkedList, update}
use ovni.Thread.{Thread, ThreadState, running, cooling, warming}

-- `struct cpu`, without its names and the data of the models. `th_running` and `th_active` are
-- pointers to threads, `threads` is the list of the threads that are assigned to the CPU.
pub record Cpu (L : Type 0) : Type 0 where
  pub gindex : ℤ
  pub has_loom : Bool
  pub is_init : Bool
  pub is_virtual : Bool
  pub threads : L
  pub nthreads : ℕ
  pub nth_running : ℕ
  pub nth_active : ℕ
  pub th_running : Option ℕ
  pub th_active : Option ℕ
  pub chan_nrun : Chan
  pub chan_tid : Chan
  pub chan_pid : Chan
  pub chan_thrun : Chan
  pub chan_thact : Chan

pub data CpuError : Type 0 where
  no_gindex no_loom oversubscribed chan_set_failed update_failed already_assigned missing_thread :
      CpuError
  remove_failed add_failed : CpuError

abbrev plain : Chan
plain = chan_prop_set (chan_init single) ignore_dup true

unfoldable pub cpu_init_end {ℓ} : {L : Type 0} → Cpu L → Result CpuError (Cpu L)
cpu_init_end cpu = do
  fail_if (ltb_ℤ cpu.gindex (pos 0)) no_gindex
  fail_if (not cpu.has_loom) no_loom
  ok (record cpu {
    chan_nrun = plain;
    chan_tid = plain;
    chan_pid = plain;
    chan_thrun = plain;
    chan_thact = plain;
    is_init = true;
  })

-- The variables of the loop of `cpu_update`.
pub record Scan : Type 0 where
  pub running : ℕ
  pub active : ℕ
  pub th_running : Option ℕ
  pub th_active : Option ℕ

abbrev pub count : ThreadState → ℕ → Scan → Scan
count running p c = record {
  running = c.running + 1;
  active = c.active + 1;
  th_running = some p;
  th_active = some p;
}
count cooling p c = record c { th_active = some p; active = c.active + 1 }
count warming p c = record c { th_active = some p; active = c.active + 1 }
count _ p c = c

-- One round of the loop for each thread of the list.
unfoldable pub scan : (ℕ → Thread) → List ℕ → Scan → Scan
scan at [] c = c
scan at (p ∷ ps) c = scan at ps (count (at p).state p c)

abbrev pub no_threads : Scan
no_threads = record { running = 0; active = 0; th_running = none; th_active = none }

-- The thread, where there is one only.
abbrev pub if_one : ℕ → Option ℕ → Option ℕ
if_one n th = if n == 1 then th else none

abbrev pub thread_value : (ℕ → ℤ) → Option ℕ → Value
thread_value f none = value_null
thread_value f (some p) = value_int64 (f p)

-- Whether `find_thread` finds the thread.
unfoldable pub find_thread : List ℕ → ℕ → Bool
find_thread [] thread = false
find_thread (p ∷ ps) thread = if p == thread then true else find_thread ps thread

-- The list of the threads; the threads and the numbers of their processes by their address.
module _ {L : Type 0} (dl : LinkedList L) (at : ℕ → Thread) (pid_of : ℕ → ℤ) {S : Type 0}
    (cb : ℕ → S → Option S) where
  abbrev set_chan : Chan → Value → S → Result CpuError (Chan × S)
  set_chan chan v s = or_err chan_set_failed (chan_set cb chan v s)

  unfoldable pub cpu_update : Cpu L → S → Result CpuError (Cpu L × S)
  cpu_update cpu s = do
    let c = scan at (dl.elems cpu.threads) no_threads
    fail_if (ltb 1 c.running && not cpu.is_virtual) oversubscribed
    let runs = if_one c.running c.th_running
    let acts = if_one c.active c.th_active
    (tid, s1) ← set_chan cpu.chan_tid (thread_value (λ p. (at p).tid) runs) s
    (pid, s2) ← set_chan cpu.chan_pid (thread_value pid_of runs) s1
    (thrun, s3) ← set_chan cpu.chan_thrun (thread_value (λ p. (at p).gindex) runs) s2
    (nrun, s4) ← set_chan cpu.chan_nrun (value_int64 (pos c.running)) s3
    (thact, s5) ← set_chan cpu.chan_thact (thread_value (λ p. (at p).gindex) acts) s4
    ok (
      record cpu {
        nth_running = c.running;
        nth_active = c.active;
        th_running = runs;
        th_active = acts;
        chan_tid = tid;
        chan_pid = pid;
        chan_thrun = thrun;
        chan_nrun = nrun;
        chan_thact = thact;
      },
      s5,
    )

  unfoldable pub cpu_add_thread : Cpu L → ℕ → S → Result CpuError (Cpu L × S)
  cpu_add_thread cpu thread s = do
    fail_if (find_thread (dl.elems cpu.threads) thread) already_assigned
    or_err update_failed (
        cpu_update
          (record cpu { threads = dl.append thread cpu.threads; nthreads = cpu.nthreads + 1 }) s)

  unfoldable pub cpu_remove_thread : Cpu L → ℕ → S → Result CpuError (Cpu L × S)
  cpu_remove_thread cpu thread s = do
    fail_if (not (find_thread (dl.elems cpu.threads) thread)) missing_thread
    or_err update_failed (
        cpu_update
          (record cpu {
            threads = dl.delete thread cpu.threads;
            nthreads = (cpu.nthreads + (2 ^ 64 - 1)) % 2 ^ 64;
          })
          s)

  -- On the CPUs by their address, since the two may be the same.
  unfoldable pub cpu_migrate_thread :
      (ℕ → Cpu L) → ℕ → ℕ → ℕ → S → Result CpuError ((ℕ → Cpu L) × S)
  cpu_migrate_thread cpus cpu thread new s = do
    (old, s1) ← or_err remove_failed (cpu_remove_thread (cpus cpu) thread s)
    let left = update cpus cpu old
    (c, s2) ← or_err add_failed (cpu_add_thread (left new) thread s1)
    ok (update left new c, s2)
