-- ===== src/Ovni/Handlers.antt =====
-- src/emu/ovni/event.c: the handlers of the events that move threads between states and CPUs.
use ovni.Prelude.{
  ℕ, Bool, true, false, not, ◌||◌, Option, none, some, if◌then◌else◌, ltb, ◌==◌, Result, ok, err,
  ◌>>=◌, ◌>>◌, fail_if, or_err,
}
use ovni.Prelude.Int.{ℤ}
use ovni.Vendor.{LinkedList, HashTable}
use ovni.Thread.{
  ThreadState, unknown, running, paused, dead, cooling, warming, thread_set_state, thread_set_cpu,
  thread_unset_cpu, thread_migrate_cpu, is_running_state,
}
use ovni.Cpu.{cpu_update, cpu_add_thread, cpu_remove_thread, cpu_migrate_thread}
use ovni.Emu.Event.{payload_i32}
use ovni.Emu.{
  Emu, EmuError, from_option, loom_get_cpu, proc_find_thread, loom_find_thread, on_thread, on_cpu,
  cpu_failed, wrong_state, missing_payload, wrong_payload_size, unknown_value, not_on_cpu,
  not_active, is_dead, is_unknown, crash, no_such_cpu, no_such_thread,
}

abbrev pub is_paused_state : ThreadState → Bool
is_paused_state paused = true
is_paused_state _ = false

abbrev pub is_cooling_state : ThreadState → Bool
is_cooling_state cooling = true
is_cooling_state _ = false

abbrev pub is_warming_state : ThreadState → Bool
is_warming_state warming = true
is_warming_state _ = false

abbrev pub is_dead_state : ThreadState → Bool
is_dead_state dead = true
is_dead_state _ = false

abbrev pub is_unknown_state : ThreadState → Bool
is_unknown_state unknown = true
is_unknown_state _ = false

module _ {L T S : Type 0} (dl : LinkedList L) (pid_of : ℕ → ℤ) (cb : ℕ → S → Option S) where
  -- The numbers of the CPUs.
  abbrev pub gindex_of : Emu L T S → ℕ → ℤ
  gindex_of emu c = (emu.cpus c).gindex

  -- `loom_get_cpu`, where the caller gives up on a null pointer.
  unfoldable pub get_cpu : Emu L T S → ℤ → Result EmuError ℕ
  unfolding loom_get_cpu
  get_cpu emu index = do found ← loom_get_cpu emu.loom index; from_option no_such_cpu found

  -- `cpu_update(th->cpu)`
  unfoldable pub update_cpu_of : ℕ → Emu L T S → Result EmuError (Emu L T S)
  unfolding on_cpu
  update_cpu_of p emu = do
    c ← from_option crash (emu.threads p).cpu
    on_cpu c (cpu_update dl emu.threads pid_of cb) emu

  unfoldable pub pre_thread_execute : Emu L T S → ℕ → Result EmuError (Emu L T S)
  unfolding on_thread on_cpu get_cpu
  pre_thread_execute emu p = do
    fail_if (is_running_state (emu.threads p).state) wrong_state
    fail_if (ltb emu.ev.payload_size 4) missing_payload
    c ← get_cpu emu (payload_i32 emu.ev 0)
    emu1 ← on_thread p (λ th s. thread_set_cpu cb (gindex_of emu) th (some c) s) emu
    emu2 ← on_thread p (λ th s. thread_set_state cb th running s) emu1
    on_cpu c (λ cpu s. cpu_add_thread dl emu2.threads pid_of cb cpu p s) emu2

  unfoldable pub pre_thread_end : Emu L T S → ℕ → Result EmuError (Emu L T S)
  unfolding on_thread on_cpu
  pre_thread_end emu p = do
    let st = (emu.threads p).state
    fail_if (not (is_running_state st || is_cooling_state st)) wrong_state
    emu1 ← on_thread p (λ th s. thread_set_state cb th dead s) emu
    c ← from_option crash (emu1.threads p).cpu
    emu2 ← on_cpu c (λ cpu s. cpu_remove_thread dl emu1.threads pid_of cb cpu p s) emu1
    on_thread p (thread_unset_cpu cb) emu2

  -- What the next four handlers share: a test on the state, the new state, and the update of the CPU.
  unfoldable pub change_state :
      (ThreadState → Bool) → ThreadState → Emu L T S → ℕ → Result EmuError (Emu L T S)
  unfolding on_thread update_cpu_of
  change_state allowed state emu p = do
    fail_if (not (allowed (emu.threads p).state)) wrong_state
    emu1 ← on_thread p (λ th s. thread_set_state cb th state s) emu
    update_cpu_of p emu1

  unfoldable pub pre_thread_pause : Emu L T S → ℕ → Result EmuError (Emu L T S)
  unfolding change_state
  pre_thread_pause = change_state (λ st. is_running_state st || is_cooling_state st) paused

  unfoldable pub pre_thread_resume : Emu L T S → ℕ → Result EmuError (Emu L T S)
  unfolding change_state
  pre_thread_resume = change_state (λ st. is_paused_state st || is_warming_state st) running

  unfoldable pub pre_thread_cool : Emu L T S → ℕ → Result EmuError (Emu L T S)
  unfolding change_state
  pre_thread_cool = change_state is_running_state cooling

  unfoldable pub pre_thread_warm : Emu L T S → ℕ → Result EmuError (Emu L T S)
  unfolding change_state
  pre_thread_warm = change_state is_paused_state warming

  unfoldable pub pre_thread : Emu L T S → Result EmuError (Emu L T S)
  unfolding pre_thread_execute pre_thread_end pre_thread_pause pre_thread_resume pre_thread_cool
      pre_thread_warm
  pre_thread emu =
      if emu.ev.v == b'C'
      then ok emu
      else if emu.ev.v == b'x'
      then pre_thread_execute emu emu.thread
      else if emu.ev.v == b'e'
      then pre_thread_end emu emu.thread
      else if emu.ev.v == b'p'
      then pre_thread_pause emu emu.thread
      else if emu.ev.v == b'r'
      then pre_thread_resume emu emu.thread
      else if emu.ev.v == b'c'
      then pre_thread_cool emu emu.thread
      else if emu.ev.v == b'w'
      then pre_thread_warm emu emu.thread
      else err unknown_value

  -- `cpu_migrate_thread` and `thread_migrate_cpu`
  unfoldable pub migrate : Emu L T S → ℕ → ℕ → ℕ → Result EmuError (Emu L T S)
  unfolding on_thread
  migrate emu c p new = do
    (cpus, s) ←
        or_err cpu_failed (cpu_migrate_thread dl emu.threads pid_of cb emu.cpus c p new emu.bay)
    on_thread p (λ th s. thread_migrate_cpu cb (gindex_of emu) th new s)
        (record emu { cpus = cpus; bay = s })

  unfoldable pub pre_affinity_set : Emu L T S → Result EmuError (Emu L T S)
  unfolding migrate get_cpu
  pre_affinity_set emu = do
    let th = emu.threads emu.thread
    c ← from_option not_on_cpu th.cpu
    fail_if (not th.is_active) not_active
    fail_if (not (emu.ev.payload_size == 4)) wrong_payload_size
    new ← get_cpu emu (payload_i32 emu.ev 0)
    if c == new then ok emu else migrate emu c emu.thread new

  module _ (h : HashTable T) where
    -- The thread of the process, or of another process of the loom.
    unfoldable pub find_remote : Emu L T S → ℤ → Result EmuError ℕ
    unfolding proc_find_thread loom_find_thread
    find_remote emu tid = elim (proc_find_thread h emu.proc tid) [
      | none ↦ from_option no_such_thread (loom_find_thread h emu.loom tid)
      | some thread ↦ ok thread
    ]

    unfoldable pub pre_affinity_remote : Emu L T S → Result EmuError (Emu L T S)
    unfolding migrate get_cpu find_remote
    pre_affinity_remote emu = do
      fail_if (not (emu.ev.payload_size == 8)) wrong_payload_size
      remote ← find_remote emu (payload_i32 emu.ev 1)
      let th = emu.threads remote
      fail_if (is_dead_state th.state) is_dead
      fail_if (is_unknown_state th.state) is_unknown
      c ← from_option not_on_cpu th.cpu
      new ← get_cpu emu (payload_i32 emu.ev 0)
      migrate emu c remote new

    unfoldable pub pre_affinity : Emu L T S → Result EmuError (Emu L T S)
    unfolding pre_affinity_set pre_affinity_remote
    pre_affinity emu =
        if emu.ev.v == b's'
        then pre_affinity_set emu
        else if emu.ev.v == b'r'
        then pre_affinity_remote emu
        else err unknown_value
