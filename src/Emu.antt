-- ===== src/Emu.antt =====
-- The state that the handlers of the emulator share (src/emu/emu.h), the event that they read
-- (src/emu/emu_ev.c), and how they find CPUs and threads (src/emu/loom.c and proc.c).
pub mod Event
use ovni.Prelude.{
  ℕ, ◌%◌, ◌^◌, ◌≡◌, Bool, true, false, ◌||◌, Option, none, some, List, [], ◌∷◌, if◌then◌else◌,
  get_elem?, ◌==◌, leb, Result, ok, err, ◌>>=◌, ◌>>◌, fail_if, or_err,
}
use ovni.Prelude.Int.{ℤ, pos, negsuc, eq_ℤ, ltb_ℤ, pos_part}
use ovni.Chan.{Chan}
use ovni.Vendor.{LinkedList, HashTable, update}
use ovni.Rt.Bytes.{to_size_t}
use ovni.Thread.{Thread, ThreadError}
use ovni.Cpu.{Cpu, CpuError}
use ovni.Emu.Event.{EmuEv}

-- `struct loom`, without its names: the CPUs in the order of their index, once they are populated, the
-- virtual CPU, and the tables of the threads of its processes, in the order of the processes.
pub record Loom (T : Type 0) : Type 0 where
  pub cpus_array : Option (List ℕ)
  pub ncpus : ℕ
  pub vcpu : ℕ
  pub procs : List T

-- `struct ovni_thread`: the data of the ovni model for a thread, with its channel of flushes and the
-- channels of its marks.
pub record OvniThread : Type 0 where
  pub nbursts : ℕ
  pub burst_time : ℕ → ℤ
  pub flush_start : ℤ
  pub flush : Chan
  pub channels : ℕ → Chan

-- `struct mark_type`, without its title and labels.
pub record MarkType : Type 0 where
  pub type : ℤ
  pub index : ℕ

-- `struct emu`: the objects by their address; the current thread with the threads of its process and its
-- loom; the event; the types of marks; and the state `S` of the dirty callbacks.
pub record Emu (L T S : Type 0) : Type 0 where
  pub threads : ℕ → Thread
  pub ovni_threads : ℕ → OvniThread
  pub cpus : ℕ → Cpu L
  pub thread : ℕ
  pub proc : T
  pub loom : Loom T
  pub ev : EmuEv
  pub types : T
  pub mark_types : ℕ → MarkType
  pub bay : S

pub data EmuError : Type 0 where
  died no_such_cpu no_such_thread crash : EmuError
  thread_failed cpu_failed chan_failed : EmuError
  wrong_state missing_payload wrong_payload_size unknown_value : EmuError
  not_on_cpu not_active is_dead is_unknown : EmuError
  too_many_bursts no_such_mark zero_mark : EmuError
  wrong_model out_of_cpu unknown_category : EmuError

abbrev pub from_option {ℓ} : {A : Type ℓ} → EmuError → Option A → Result EmuError A
from_option e none = err e
from_option e (some a) = ok a

-- `die` where the CPUs are not populated yet; `none` is a null pointer.
unfoldable pub loom_get_cpu : {T : Type 0} → Loom T → ℤ → Result EmuError (Option ℕ)
loom_get_cpu loom index = elim loom.cpus_array [
  | none ↦ err died
  | some cpus ↦ ok (
      if eq_ℤ index (negsuc 0)
      then some loom.vcpu
      else if ltb_ℤ index (pos 0) || leb loom.ncpus (pos_part index)
      then none
      else get_elem? cpus (pos_part index))
]

module _ {T : Type 0} (h : HashTable T) where
  -- The key is the bytes of the number.
  unfoldable pub proc_find_thread : T → ℤ → Option ℕ
  proc_find_thread threads tid = h.find_int threads (to_size_t tid % 2 ^ 32)

  unfoldable pub find_in : List T → ℤ → Option ℕ
  unfolding proc_find_thread
  find_in [] tid = none
  find_in (p ∷ ps) tid = elim (proc_find_thread p tid) [
    | none ↦ find_in ps tid
    | some thread ↦ some thread
  ]

  unfoldable pub loom_find_thread : Loom T → ℤ → Option ℕ
  unfolding find_in
  loom_find_thread loom tid = find_in loom.procs tid

  -- `HASH_FIND_LONG`
  unfoldable pub find_mark_type : T → ℤ → Option ℕ
  find_mark_type types type = h.find_int types (to_size_t type)

module _ {L T S : Type 0} where
  -- A call that works on the thread, or the CPU, at an address.
  unfoldable pub on_thread :
      ℕ → (Thread → S → Result ThreadError (Thread × S)) → Emu L T S → Result EmuError (Emu L T S)
  on_thread p call emu = do
    (th, s) ← or_err thread_failed (call (emu.threads p) emu.bay)
    ok (record emu { threads = update emu.threads p th; bay = s })

  unfoldable pub on_cpu :
      ℕ → (Cpu L → S → Result CpuError (Cpu L × S)) → Emu L T S → Result EmuError (Emu L T S)
  on_cpu c call emu = do
    (cpu, s) ← or_err cpu_failed (call (emu.cpus c) emu.bay)
    ok (record emu { cpus = update emu.cpus c cpu; bay = s })
