-- ===== src/Ovni/Tests.antt =====
-- The theorems on src/emu/ovni and src/emu/emu_ev.c at a loom with two CPUs and two threads.
use ovni.Prelude.{
  ℕ, ◌+◌, ◌%◌, ◌<◌, ◌≡◌, refl, true, Option, none, some, List, [], ◌∷◌, ok, err, Result, arith,
  if◌then◌else◌, ◌==◌, All, ltb,
}
use ovni.Prelude.Int.{ℤ, pos}
use ovni.Value.{value_null, value_int64}
use ovni.Chan.{
  Chan, chan_init, chan_prop_set, chan_read, chan_flush, chan_set, set_dirty, call_dirty,
}
use ovni.Vendor.{update}
use ovni.Vendor.Samples.{table, list, list-IsLinkedList}
use ovni.Thread.{Thread, running, thread_set_cpu, thread_set_state, move_to, thread_migrate_cpu}
use ovni.Cpu.{cpu_update, scan, find_thread, cpu_add_thread, cpu_remove_thread, cpu_migrate_thread}
use ovni.Rt.Bytes.{le_value, to_size_t}
use ovni.Rt.Event.{Ev, zero_ev, ovni_payload_size}
use ovni.Emu.Event.{EmuEv, payload_i32, fill_all, jumbo_sticks}
use ovni.Emu.{Emu, EmuError, loom_get_cpu, on_thread, on_cpu, proc_find_thread}
use ovni.Ovni.Samples.{
  strict, plain, strict-IsPlain, plain-IsPlain, idle, numbers, loom, event, emu,
}
use ovni.Ovni.Handlers.{
  get_cpu, update_cpu_of, pre_thread, pre_thread_execute, pre_thread_pause, change_state,
  pre_affinity, pre_affinity_set, migrate, find_remote, pre_affinity_remote, gindex_of,
}
use ovni.Ovni.Data.{current}
use ovni.Ovni.Event.{model_ovni_event}
use ovni.Ovni.Moves.{IsOrdered}
use ovni.Ovni.Shown.{IsInOrder}
use ovni.Ovni.Emulation.{
  Input, set_current, propagate, flush_dirty, flush_thread, flush_cpu, flush_ovni_thread, ovni_step,
  ovni_run,
}
use ovni.Ovni.Run.{IsFresh, run-IsOrdered}
use ovni.Ovni.Bursts.{bursts, bursts_lem}
use ovni.Ovni.Remote.{IsStrict, remote_same_cpu}

emu-IsFresh : IsFresh list (λ p. pos 9) numbers emu
emu-IsFresh = record {
  channels = λ p. record {
    cpu_plain = strict-IsPlain;
    tid_plain = plain-IsPlain;
    state_plain = strict-IsPlain;
  };
  not_started = λ p. refl;
  nowhere = λ p. refl;
  chans = λ c. record {
    tid_plain = plain-IsPlain;
    pid_plain = plain-IsPlain;
    thrun_plain = plain-IsPlain;
    nrun_plain = plain-IsPlain;
    thact_plain = plain-IsPlain;
  };
  unused = λ c. refl;
  none_counted = λ c. refl;
  numbers = λ c. refl;
}

abbrev input : ℕ → EmuEv → Input (ℕ → Option ℕ)
input p ev = record { ev = ev; thread = p; proc = λ k. none; loom = loom }

-- The thread 0 executes on the CPU 0, goes to the CPU 1 and pauses there.
abbrev inputs : List (Input (ℕ → Option ℕ))
inputs =
    input 0 (event b'H' b'x' (0 ∷ 0 ∷ 0 ∷ 0 ∷ []))
    ∷ input 0 (event b'A' b's' (1 ∷ 0 ∷ 0 ∷ 0 ∷ []))
    ∷ input 0 (event b'H' b'p' [])
    ∷ []

abbrev log : ℕ → List ℕ → Option (List ℕ)
log arg l = some (arg ∷ l)

abbrev value_or :
    Emu (List ℕ) (ℕ → Option ℕ) (List ℕ)
    → Result EmuError (Emu (List ℕ) (ℕ → Option ℕ) (List ℕ))
    → Emu (List ℕ) (ℕ → Option ℕ) (List ℕ)
value_or e (ok a) = a
value_or e (err x) = e

final : Emu (List ℕ) (ℕ → Option ℕ) (List ℕ)
final = value_or emu (ovni_run (λ s. []) list table (λ p. pos 9) log inputs emu)

ran : ovni_run (λ s. []) list table (λ p. pos 9) log inputs emu ≡ ok final
unfolding final ovni_run ovni_step set_current model_ovni_event pre_thread pre_thread_execute
    get_cpu loom_get_cpu payload_i32 le_value on_thread thread_set_cpu move_to chan_set set_dirty
    call_dirty thread_set_state on_cpu cpu_add_thread find_thread cpu_update scan update propagate
    flush_thread flush_cpu flush_ovni_thread flush_dirty chan_flush chan_read chan_init
    chan_prop_set pre_affinity pre_affinity_set migrate cpu_migrate_thread cpu_remove_thread
    thread_migrate_cpu pre_thread_pause change_state update_cpu_of
ran = refl

run-IsOrdered_example : IsOrdered list (λ p. pos 9) numbers 3 final.threads final.cpus
run-IsOrdered_example =
    run-IsOrdered list (λ p. pos 9) numbers list-IsLinkedList table log (λ s. []) inputs emu final
      (omega arith) emu-IsFresh ran

bursts_lem_example :
    (out : Emu (List ℕ) (ℕ → Option ℕ) (List ℕ)) × (bursts 5 emu ≡ ok out)
    × (out.thread ≡ 0)
    × ((current out).nbursts ≡ (98 + 5) % 100)
    × ((current out).nbursts < 100)
    × ((q : ℕ) → ¬ (q ≡ 0) → out.ovni_threads q ≡ emu.ovni_threads q)
bursts_lem_example = bursts_lem 5 emu (omega arith)

-- An event with two bytes of payload, after a jumbo event.
abbrev short : Ev
short = record zero_ev { flags = 1 }

abbrev shorts : List (Ev × ℤ × ℤ)
shorts = (short, pos 7, pos 7) ∷ (short, pos 9, pos 2) ∷ []

short_payload : All (λ e. ltb 0 (to_size_t (ovni_payload_size e.0)) ≡ true) shorts
unfolding ovni_payload_size
short_payload = (refl, (refl, tt))

jumbo_sticks_example : (fill_all shorts (record (event b'U' b'U' []) { jumbo = true })).jumbo ≡ true
jumbo_sticks_example =
    jumbo_sticks shorts (record (event b'U' b'U' []) { jumbo = true }) refl short_payload

abbrev holds : ovni.Value.Value → Chan
holds v = record strict { value = v; last_value = v }

-- The thread 0 runs on the CPU 0.
abbrev busy : Thread
busy = record idle {
  state = running;
  is_running = true;
  is_active = true;
  cpu = some 0;
  chan_cpu = holds (value_int64 (pos 0));
  chan_tid = record plain { value = value_int64 (pos 77); last_value = value_int64 (pos 77) };
  chan_state = holds (value_int64 (pos 1));
}

abbrev there : Emu (List ℕ) (ℕ → Option ℕ) (List ℕ)
there = record emu {
  threads = λ p. busy;
  proc = λ k. if k == 77 then some 0 else none;
  ev = event b'A' b'r' (0 ∷ 0 ∷ 0 ∷ 0 ∷ 77 ∷ 0 ∷ 0 ∷ 0 ∷ []);
}

busy-IsInOrder : IsInOrder (gindex_of list (λ p. pos 9) log there) busy
unfolding chan_init chan_prop_set chan_read
busy-IsInOrder = record {
  channels = record {
    cpu_plain = record { settled = λ h. refl; one_write = refl };
    tid_plain = record { settled = λ h. refl; one_write = refl };
    state_plain = record { settled = λ h. refl; one_write = refl };
  };
  home = refl;
  state_shown =
      λ k. record { running_flag = refl; active_flag = refl; state_shown = refl; tid_shown = refl };
  cpu_shown = λ k. refl;
}

busy-IsStrict : IsStrict busy.chan_cpu
unfolding chan_init chan_read
busy-IsStrict = record {
  plain = record { settled = λ h. refl; one_write = refl };
  no_dup = refl;
  no_skip = refl;
}

found_cpu : get_cpu list (λ p. pos 9) log there (payload_i32 there.ev 0) ≡ ok 0
unfolding get_cpu loom_get_cpu payload_i32 le_value
found_cpu = refl

found_thread : find_remote list (λ p. pos 9) log table there (payload_i32 there.ev 1) ≡ ok 0
unfolding find_remote proc_find_thread payload_i32 le_value
found_thread = refl

remote_same_cpu_example :
    (e : EmuError) × (pre_affinity_remote list (λ p. pos 9) log table there ≡ err e)
remote_same_cpu_example =
    remote_same_cpu list table (λ p. pos 9) log there 0 0 busy-IsInOrder busy-IsStrict refl
      found_cpu found_thread
