-- ===== src/Thread/Select.antt =====
-- The selectors of src/emu/thread.c, which multiplexers use on the channel of the state.
use ovni.Prelude.{◌≡◌, refl, Bool, none, some, if◌then◌else◌, ok}
use ovni.Prelude.Int.{pos}
use ovni.Value.{Value, value_int64}
use ovni.Chan.{chan_read}
use ovni.Thread.{
  unknown, running, paused, dead, cooling, warming, thread_select_active, thread_select_running,
  select_state, Thread, ThreadState, state_number, is_running_state, is_active_state,
}
use ovni.Thread.Shown.{ShowsState}

at_state :
    (st : ThreadState)
    → (thread_select_active (value_int64 (pos (state_number st))) 1
        ≡ ok (if is_active_state st then some 0 else none))
      × (thread_select_running (value_int64 (pos (state_number st))) 1
          ≡ ok (if is_running_state st then some 0 else none))
unfolding thread_select_active thread_select_running select_state
at_state unknown = (refl, refl)
at_state running = (refl, refl)
at_state paused = (refl, refl)
at_state dead = (refl, refl)
at_state cooling = (refl, refl)
at_state warming = (refl, refl)

by_state :
    (st : ThreadState) (v : Value) (active running : Bool)
    → v ≡ value_int64 (pos (state_number st))
    → active ≡ is_active_state st
    → running ≡ is_running_state st
    → (thread_select_active v 1 ≡ ok (if active then some 0 else none))
      × (thread_select_running v 1 ≡ ok (if running then some 0 else none))
unfolding thread_select_active thread_select_running select_state
by_state st v active runs e a r = rw (e, a, r) (at_state st)

-- A multiplexer with one input, selected by the channel of the state, follows its input exactly while
-- the thread is active, or runs.
pub select_lem :
    (th : Thread)
    → ShowsState th
    → (thread_select_active (chan_read th.chan_state) 1
        ≡ ok (if th.is_active then some 0 else none))
      × (thread_select_running (chan_read th.chan_state) 1
          ≡ ok (if th.is_running then some 0 else none))
select_lem th w =
    by_state th.state (chan_read th.chan_state) th.is_active th.is_running w.state_shown
      w.active_flag w.running_flag
