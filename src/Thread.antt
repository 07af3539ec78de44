-- ===== src/Thread.antt =====
-- src/emu/thread.c: the state of a thread and the channels that follow it.
pub mod Shown
pub mod Select
use ovni.Prelude.{
  ℕ, ◌-◌, ◌%◌, ◌^◌, ◌||◌, ◌≡◌, Bool, true, false, not, Option, none, some, if◌then◌else◌, ◌==◌,
  Result, ok, err, ◌>>=◌, ◌>>◌, fail_if, or_err, is_none,
}
use ovni.Prelude.Int.{ℤ, pos, negsuc, eq_ℤ, ltb_ℤ}
use ovni.Value.{Value, ValueType, null, int64, double, value_int64, value_null}
use ovni.Chan.{Chan, single, ignore_dup, chan_init, chan_prop_set, chan_set}

pub data ThreadState : Type 0 where
  unknown running paused dead cooling warming : ThreadState

-- The number of a state in its enumeration.
abbrev pub state_number : ThreadState → ℕ
state_number unknown = 0
state_number running = 1
state_number paused = 2
state_number dead = 3
state_number cooling = 4
state_number warming = 5

abbrev pub is_running_state : ThreadState → Bool
is_running_state running = true
is_running_state _ = false

abbrev pub is_active_state : ThreadState → Bool
is_active_state running = true
is_active_state cooling = true
is_active_state warming = true
is_active_state _ = false

-- `struct thread`, without its lists, its metadata and the data of the models; `cpu` is a pointer.
pub record Thread : Type 0 where
  pub gindex : ℤ
  pub is_init : Bool
  pub tid : ℤ
  pub has_metadata : Bool
  pub state : ThreadState
  pub is_running : Bool
  pub is_active : Bool
  pub is_out_of_cpu : Bool
  pub cpu : Option ℕ
  pub chan_cpu : Chan
  pub chan_tid : Chan
  pub chan_state : Chan

pub data ThreadError : Type 0 where
  no_gindex no_metadata no_cpu null_cpu has_cpu chan_set_failed : ThreadError
  wrong_value wrong_inputs : ThreadError

unfoldable pub thread_set_gindex : Thread → ℤ → Thread
thread_set_gindex th gindex = record th { gindex = gindex }

unfoldable pub thread_init_end : Thread → Result ThreadError Thread
thread_init_end th = do
  fail_if (ltb_ℤ th.gindex (pos 0)) no_gindex
  fail_if (not th.has_metadata) no_metadata
  ok (record th {
    chan_cpu = chan_init single;
    chan_tid = chan_prop_set (chan_init single) ignore_dup true;
    chan_state = chan_init single;
    is_init = true;
  })

-- The cast of a value to the enumeration of the states.
abbrev pub to_state : ℤ → ℕ
to_state (pos n) = n % 2 ^ 32
to_state (negsuc n) = 2 ^ 32 - 1 - n % 2 ^ 32

-- What the two functions below share: the input 0 of the multiplexer, or none.
unfoldable pub select_state : (ℕ → Bool) → Value → ℕ → Result ThreadError (Option ℕ)
select_state wanted v ninputs = elim v.type [
  | null ↦ ok none
  | int64 ↦
      if not (ninputs == 1)
      then err wrong_inputs
      else ok (if wanted (to_state v.i) then some 0 else none)
  | double ↦ err wrong_value
]

unfoldable pub thread_select_active : Value → ℕ → Result ThreadError (Option ℕ)
unfolding select_state
thread_select_active v ninputs = select_state (λ n. n == 1 || n == 4 || n == 5) v ninputs

unfoldable pub thread_select_running : Value → ℕ → Result ThreadError (Option ℕ)
unfolding select_state
thread_select_running v ninputs = select_state (λ n. n == 1) v ninputs

module _ {S : Type 0} (cb : ℕ → S → Option S) where
  -- The state, the two flags that follow from it, and the channels of the state and of the active tid.
  unfoldable pub thread_set_state : Thread → ThreadState → S → Result ThreadError (Thread × S)
  thread_set_state th state s = do
    fail_if (is_none th.cpu) no_cpu
    (st, s1) ←
        or_err chan_set_failed
          (chan_set cb th.chan_state (value_int64 (pos (state_number state))) s)
    let active = is_active_state state
    (tid, s2) ←
        or_err chan_set_failed
          (chan_set cb th.chan_tid (if active then value_int64 th.tid else value_null) s1)
    ok (
      record th {
        state = state;
        is_running = is_running_state state;
        is_active = active;
        chan_state = st;
        chan_tid = tid;
      },
      s2,
    )

  module _ (cpu_gindex : ℕ → ℤ) where
    -- The pointer, and the channel of the CPU.
    unfoldable pub move_to : ℕ → Thread → S → Result ThreadError (Thread × S)
    move_to cpu th s = do
      (c, s') ← or_err chan_set_failed (chan_set cb th.chan_cpu (value_int64 (cpu_gindex cpu)) s)
      ok (record th { cpu = some cpu; chan_cpu = c }, s')

    unfoldable pub thread_set_cpu : Thread → Option ℕ → S → Result ThreadError (Thread × S)
    unfolding move_to
    thread_set_cpu th none s = err null_cpu
    thread_set_cpu th (some cpu) s = do fail_if (not (is_none th.cpu)) has_cpu; move_to cpu th s

    unfoldable pub thread_migrate_cpu : Thread → ℕ → S → Result ThreadError (Thread × S)
    unfolding move_to
    thread_migrate_cpu th cpu s = do fail_if (is_none th.cpu) no_cpu; move_to cpu th s

  unfoldable pub thread_unset_cpu : Thread → S → Result ThreadError (Thread × S)
  thread_unset_cpu th s = do
    fail_if (is_none th.cpu) no_cpu
    (c, s') ← or_err chan_set_failed (chan_set cb th.chan_cpu value_null s)
    ok (record th { cpu = none; chan_cpu = c }, s')
