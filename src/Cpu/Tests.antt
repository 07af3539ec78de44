-- ===== src/Cpu/Tests.antt =====
-- The theorems on src/emu/thread.c and src/emu/cpu.c at concrete threads and CPUs.
use ovni.Prelude.{
  ◌≢◌, if◌then◌else◌, ◌==◌, arith, ℕ, ◌≡◌, refl, true, false, Option, none, some, List, [], ◌∷◌, ok,
}
use ovni.Prelude.Int.{ℤ, pos}
use ovni.Value.{Value, value_null, value_int64}
use ovni.Chan.{Chan, single, chan_read, chan_set, set_dirty, call_dirty}
use ovni.Vendor.{Member, update, remove}
use ovni.Vendor.Samples.{list, list-IsLinkedList}
use ovni.Thread.{
  Thread, unknown, running, thread_set_state, thread_set_cpu, thread_select_active,
  thread_select_running, move_to,
}
use ovni.Thread.Shown.{
  IsPlain, HasPlainChannels, ShowsState, set_state-ShowsState, place_lem, place, sets,
}
use ovni.Thread.Select.{select_lem}
use ovni.Cpu.Migration.{migrate_lem}
use ovni.Cpu.Threads.{IsListed, add_lem, remove_lem}
use ovni.Cpu.{
  Cpu, cpu_add_thread, cpu_remove_thread, cpu_migrate_thread, find_thread, cpu_update, scan,
}
use ovni.Cpu.Shown.{ShowsThreads, HasPlainChans, update-ShowsThreads}

abbrev log : ℕ → List ℕ → Option (List ℕ)
log arg l = some (arg ∷ l)

abbrev plain : Chan
plain = record {
  is_dirty = false;
  can_dirty_write = false;
  can_dup = false;
  skips_dup = true;
  dirty_cb = some 4;
  last_value = value_null;
  type = single;
  value = value_null;
  values = [];
}

plain-IsPlain : IsPlain plain
unfolding chan_read
plain-IsPlain = record { settled = λ h. refl; one_write = refl }

-- A thread on the CPU 2.
abbrev thread : Thread
thread = record {
  gindex = pos 0;
  is_init = true;
  tid = pos 77;
  has_metadata = true;
  state = unknown;
  is_running = false;
  is_active = false;
  is_out_of_cpu = false;
  cpu = some 2;
  chan_cpu = plain;
  chan_tid = plain;
  chan_state = plain;
}

thread-HasPlainChannels : HasPlainChannels thread
thread-HasPlainChannels = record {
  cpu_plain = plain-IsPlain;
  tid_plain = plain-IsPlain;
  state_plain = plain-IsPlain;
}

abbrev holds : Value → Chan
holds v = record plain { is_dirty = true; value = v }

abbrev busy : Thread
busy = record thread {
  state = running;
  is_running = true;
  is_active = true;
  chan_tid = holds (value_int64 (pos 77));
  chan_state = holds (value_int64 (pos 1));
}

runs : thread_set_state log thread running [] ≡ ok (busy, 4 ∷ 4 ∷ [])
unfolding thread_set_state chan_set set_dirty call_dirty
runs = refl

set_state-ShowsState_example :
    ShowsState busy × HasPlainChannels busy × (busy.state ≡ running) × (busy.cpu ≡ some 2)
set_state-ShowsState_example =
    set_state-ShowsState log thread busy running [] (4 ∷ 4 ∷ []) thread-HasPlainChannels runs

abbrev away : Thread
away = record thread { cpu = none }

abbrev gindex : ℕ → ℤ
gindex p = pos 5

abbrev put : Thread
put = record thread { cpu = some 2; chan_cpu = holds (value_int64 (pos 5)) }

placed : place log gindex (sets 2) away [] ≡ ok (put, 4 ∷ [])
unfolding place thread_set_cpu move_to chan_set set_dirty call_dirty
placed = refl

place_lem_example :
    (true ≡ true)
    × (put.cpu ≡ some 2)
    × (chan_read put.chan_cpu ≡ value_int64 (pos 5))
    × HasPlainChannels put
    × (put.state ≡ unknown)
place_lem_example =
    place_lem log gindex (sets 2) away put [] (4 ∷ [])
      (record { cpu_plain = plain-IsPlain; tid_plain = plain-IsPlain; state_plain = plain-IsPlain })
      placed

-- A physical CPU with the thread at 0, which runs.
abbrev cpu : Cpu (List ℕ)
cpu = record {
  gindex = pos 5;
  has_loom = true;
  is_init = true;
  is_virtual = false;
  threads = 0 ∷ [];
  nthreads = 1;
  nth_running = 0;
  nth_active = 0;
  th_running = none;
  th_active = none;
  chan_nrun = plain;
  chan_tid = plain;
  chan_pid = plain;
  chan_thrun = plain;
  chan_thact = plain;
}

abbrev shown : Cpu (List ℕ)
shown = record cpu {
  nth_running = 1;
  nth_active = 1;
  th_running = some 0;
  th_active = some 0;
  chan_nrun = holds (value_int64 (pos 1));
  chan_tid = holds (value_int64 (pos 77));
  chan_pid = holds (value_int64 (pos 9));
  chan_thrun = holds (value_int64 (pos 0));
  chan_thact = holds (value_int64 (pos 0));
}

updated : cpu_update list (λ p. busy) (λ p. pos 9) log cpu [] ≡ ok (shown, 4 ∷ 4 ∷ 4 ∷ 4 ∷ 4 ∷ [])
unfolding cpu_update scan chan_set set_dirty call_dirty
updated = refl

update-ShowsThreads_example :
    ShowsThreads list (λ p. busy) (λ p. pos 9) shown
    × HasPlainChans shown
    × (shown.threads ≡ 0 ∷ [])
    × (shown.nthreads ≡ 1)
update-ShowsThreads_example =
    update-ShowsThreads list (λ p. busy) (λ p. pos 9) log cpu shown [] (4 ∷ 4 ∷ 4 ∷ 4 ∷ 4 ∷ [])
      (record {
        tid_plain = plain-IsPlain;
        pid_plain = plain-IsPlain;
        thrun_plain = plain-IsPlain;
        nrun_plain = plain-IsPlain;
        thact_plain = plain-IsPlain;
      })
      updated

busy_state : chan_read busy.chan_state ≡ value_int64 (pos 1)
unfolding chan_read
busy_state = refl

busy_tid : chan_read busy.chan_tid ≡ value_int64 (pos 77)
unfolding chan_read
busy_tid = refl

select_lem_example :
    (thread_select_active (chan_read busy.chan_state) 1 ≡ ok (some 0))
    × (thread_select_running (chan_read busy.chan_state) 1 ≡ ok (some 0))
select_lem_example = select_lem busy (record {
  running_flag = refl;
  active_flag = refl;
  state_shown = busy_state;
  tid_shown = busy_tid;
})

abbrev empty : Cpu (List ℕ)
empty = record cpu { threads = []; nthreads = 0 }

cpu-HasPlainChans : HasPlainChans cpu
cpu-HasPlainChans = record {
  tid_plain = plain-IsPlain;
  pid_plain = plain-IsPlain;
  thrun_plain = plain-IsPlain;
  nrun_plain = plain-IsPlain;
  thact_plain = plain-IsPlain;
}

empty-HasPlainChans : HasPlainChans empty
empty-HasPlainChans = record {
  tid_plain = plain-IsPlain;
  pid_plain = plain-IsPlain;
  thrun_plain = plain-IsPlain;
  nrun_plain = plain-IsPlain;
  thact_plain = plain-IsPlain;
}

added :
    cpu_add_thread list (λ p. busy) (λ p. pos 9) log empty 0 [] ≡ ok (shown, 4 ∷ 4 ∷ 4 ∷ 4 ∷ 4 ∷ [])
unfolding cpu_add_thread find_thread cpu_update scan chan_set set_dirty call_dirty
added = refl

add_lem_example :
    ¬ (Member 0 [])
    × (shown.threads ≡ 0 ∷ [])
    × IsListed list shown
    × ShowsThreads list (λ p. busy) (λ p. pos 9) shown
    × HasPlainChans shown
add_lem_example =
    add_lem list list-IsLinkedList (λ p. busy) (λ p. pos 9) log empty shown 0 []
      (4 ∷ 4 ∷ 4 ∷ 4 ∷ 4 ∷ []) (record { once = tt; number = refl }) empty-HasPlainChans added

abbrev emptied : Cpu (List ℕ)
emptied = record empty { chan_nrun = holds (value_int64 (pos 0)) }

removed : cpu_remove_thread list (λ p. busy) (λ p. pos 9) log cpu 0 [] ≡ ok (emptied, 4 ∷ [])
unfolding cpu_remove_thread find_thread cpu_update scan chan_set set_dirty call_dirty
removed = refl

remove_lem_example :
    Member 0 (0 ∷ [])
    × (emptied.threads ≡ remove 0 (0 ∷ []))
    × IsListed list emptied
    × ShowsThreads list (λ p. busy) (λ p. pos 9) emptied
    × HasPlainChans emptied
remove_lem_example =
    remove_lem list list-IsLinkedList (λ p. busy) (λ p. pos 9) log cpu emptied 0 [] (4 ∷ [])
      (record { once = (λ q k. elim k [ ], tt); number = refl }) (omega arith) cpu-HasPlainChans
      removed

-- The CPU 0 with the thread, and the others without.
abbrev cpus : ℕ → Cpu (List ℕ)
cpus k = if k == 0 then cpu else empty

moved : ℕ → Cpu (List ℕ)
moved = update (update cpus 0 emptied) 1 shown

migrated :
    cpu_migrate_thread list (λ p. busy) (λ p. pos 9) log cpus 0 0 1 []
    ≡ ok (moved, 4 ∷ 4 ∷ 4 ∷ 4 ∷ 4 ∷ 4 ∷ [])
unfolding moved cpu_migrate_thread cpu_add_thread cpu_remove_thread find_thread cpu_update scan
    chan_set set_dirty call_dirty update
migrated = refl

migrate_lem_example :
    Member 0 (0 ∷ [])
    × ¬ (Member 0 [])
    × ((moved 0).threads ≡ [])
    × ((moved 1).threads ≡ 0 ∷ [])
    × ShowsThreads list (λ p. busy) (λ p. pos 9) (moved 0)
    × ShowsThreads list (λ p. busy) (λ p. pos 9) (moved 1)
    × ((k : ℕ) → k ≢ 0 → k ≢ 1 → moved k ≡ cpus k)
migrate_lem_example =
    migrate_lem list list-IsLinkedList (λ p. busy) (λ p. pos 9) log cpus moved 0 0 1 []
      (4 ∷ 4 ∷ 4 ∷ 4 ∷ 4 ∷ 4 ∷ []) (omega arith)
      (record {
        listed = record { once = (λ q k. elim k [ ], tt); number = refl };
        plain = cpu-HasPlainChans;
        small = omega arith;
      })
      (record {
        listed = record { once = tt; number = refl };
        plain = empty-HasPlainChans;
        small = omega arith;
      })
      migrated
