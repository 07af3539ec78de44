-- ===== src/Models.antt =====
-- The models of src/emu whose events push and pop states: what their event.c files share, and the events of
-- the xtasks and kernel models.
pub mod Strings
pub mod Samples
pub mod Tampi
pub mod Mpi
pub mod Nodes
pub mod Openmp
pub mod Nosv
pub mod Nanos6
pub mod Pairs
pub mod Stacks
pub mod Begin
pub mod Kernel
mod Tests
use ovni.Prelude.{
  ℕ, ◌≡◌, Bool, true, false, not, ◌&&◌, ◌||◌, Option, none, some, List, [], ◌∷◌, if◌then◌else◌,
  ◌==◌, Result, ok, err, ◌>>=◌, ◌>>◌, fail_if, or_err, drop, ◌*◌,
}
use ovni.Prelude.Int.{ℤ, pos}
use ovni.Rt.Bytes.{le_value, to_int64}
use ovni.Value.{value_int64}
use ovni.Chan.{Chan, chan_set, chan_push, chan_pop}
use ovni.Vendor.{update}
use ovni.Thread.{Thread}
use ovni.Emu.Event.{EmuEv}

-- `PUSH`, `POP`, `SET` and `IGN`; only the tables of nosv and nanos6 have SET.
pub data Action : Type 0 where
  do_push do_pop do_set ignore : Action

-- An entry of a table by the category and the value of its event: a channel, an action and a state.
pub record Row : Type 0 where
  pub c : ℕ
  pub v : ℕ
  pub chan : ℕ
  pub action : Action
  pub state : ℕ

abbrev pub row : ℕ → ℕ → ℕ → Action → ℕ → Row
row c v chan action state = record { c = c; v = v; chan = chan; action = action; state = state }

pub data ModelError : Type 0 where
  wrong_model not_running chan_failed unknown_event unknown_category : ModelError
  wrong_payload_size unknown_value : ModelError

-- The entry of an event. All other entries of the array are 0, which is no action.
unfoldable pub find_row : List Row → ℕ → ℕ → Option Row
find_row [] c v = none
find_row (r ∷ rs) c v = if (r.c == c) && (r.v == v) then some r else find_row rs c v

abbrev pub nodes_category : ℕ → Bool
nodes_category c =
    c == b'R'
    || c == b'U'
    || c == b'W'
    || c == b'I'
    || c == b'T'
    || c == b'C'
    || c == b'S'
    || c == b'P'

abbrev pub ev_apicall : ℕ
ev_apicall = 85

abbrev pub cs_out : ℤ
cs_out = pos 3

module _ {S : Type 0} (cb : ℕ → S → Option S) where
  abbrev pub act : Action → Chan → ℕ → S → Result ModelError (Chan × S)
  act do_push chan st s = or_err chan_failed (chan_push cb chan (value_int64 (pos st)) s)
  act do_pop chan st s = or_err chan_failed (chan_pop cb chan (value_int64 (pos st)) s)
  act do_set chan st s = or_err chan_failed (chan_set cb chan (value_int64 (pos st)) s)
  act ignore chan st s = ok (chan, s)

  abbrev pub act_on : Option Row → (ℕ → Chan) → S → Result ModelError ((ℕ → Chan) × S)
  act_on none ch s = err unknown_event
  act_on (some r) ch s =
      act r.action (ch r.chan) r.state s >>= λ (c, s'). ok (update ch r.chan c, s')

  -- What process_ev and simple do with a table, on the channels of the model for the thread.
  unfoldable pub simple : List Row → ℕ → ℕ → (ℕ → Chan) → S → Result ModelError ((ℕ → Chan) × S)
  unfolding find_row
  simple table c v ch s = act_on (find_row table c v) ch s

  -- The event of a model with one table: tampi and mpi.
  unfoldable pub model_event :
      ℕ → List Row → Thread → EmuEv → (ℕ → Chan) → S → Result ModelError ((ℕ → Chan) × S)
  unfolding simple
  model_event m table th ev ch s = do
    fail_if (not (ev.m == m)) wrong_model
    fail_if (not th.is_running) not_running
    simple table ev.c ev.v ch s

  unfoldable pub model_nodes_event :
      List Row → Thread → EmuEv → (ℕ → Chan) → S → Result ModelError ((ℕ → Chan) × S)
  unfolding simple
  model_nodes_event table th ev ch s = do
    fail_if (not (ev.m == b'D')) wrong_model
    fail_if (not th.is_running) not_running
    fail_if (not (nodes_category ev.c)) unknown_category
    simple table ev.c ev.v ch s

  -- The channel of the subsystem.
  unfoldable pub event_s : EmuEv → Chan → S → Result ModelError (Chan × S)
  event_s ev ch s = do
    fail_if (not (ev.payload_size == 16)) wrong_payload_size
    fail_if (not (ev.v == b'e')) unknown_value
    let value = le_value 8 ev.payload
    let id = le_value 4 (drop 8 ev.payload)
    let type = le_value 4 (drop 12 ev.payload)
    let id_or_val = if id == ev_apicall then to_int64 value else pos id
    if type == 0
        then or_err chan_failed (chan_push cb ch (value_int64 id_or_val) s)
        else if type == 1
        then or_err chan_failed (chan_pop cb ch (value_int64 id_or_val) s)
        else err unknown_value

  -- Without the first call, which connects the model.
  unfoldable pub model_xtasks_event : EmuEv → Chan → S → Result ModelError (Chan × S)
  unfolding event_s
  model_xtasks_event ev ch s = do
    fail_if (not (ev.m == b'X')) wrong_model
    fail_if (not (ev.c == b's')) unknown_category
    event_s ev ch s

  -- The thread is marked before the channel is written.
  unfoldable pub context_switch : EmuEv → Thread → Chan → S → Result ModelError (Thread × Chan × S)
  context_switch ev th ch s =
      if ev.v == b'O'
      then (or_err chan_failed (chan_push cb ch (value_int64 cs_out) s) >>= λ (c, s').
          ok (record th { is_out_of_cpu = true }, c, s'))
      else if ev.v == b'I'
      then (or_err chan_failed (chan_pop cb ch (value_int64 cs_out) s) >>= λ (c, s').
          ok (record th { is_out_of_cpu = false }, c, s'))
      else err unknown_value

  unfoldable pub model_kernel_event :
      EmuEv → Thread → Chan → S → Result ModelError (Thread × Chan × S)
  unfolding context_switch
  model_kernel_event ev th ch s = do
    fail_if (not (ev.m == b'K')) wrong_model
    fail_if (not (ev.c == b'C')) unknown_category
    context_switch ev th ch s
