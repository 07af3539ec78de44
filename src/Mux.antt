-- ===== src/Mux.antt =====
-- src/emu/mux.c: multiplexers, whose output channel follows the input that the select channel names.
pub mod Choice
pub mod Switch
pub mod Follow
mod Tests
use ovni.Prelude.{
  ℕ, ◌≡◌, Bool, true, false, not, ◌||◌, Option, none, some, if◌then◌else◌, ◌==◌, leb, Result, ok,
  err, ◌>>=◌, ◌>>◌, fail_if, or_err, is_none,
}
use ovni.Prelude.Int.{ℤ, pos, negsuc, ltb_ℤ, pos_part}
use ovni.Value.{Value, ValueType, null, int64, double, value_null}
use ovni.Chan.{Chan, chan_read, chan_prop_set, is_single, dirty_write, allow_dup}
use ovni.Chan.Protocol.{set}
use ovni.Vendor.{LinkedList, HashTable, update}
use ovni.Bay.{Bay, dirty_type, write_chan, bay_find, bay_add_cb, bay_enable_cb, bay_disable_cb}

-- `struct mux_input`, without its output and its index; the pointers may be null.
pub record MuxInput : Type 0 where
  pub chan : Option ℕ
  pub selected : Bool
  pub cb : Option ℕ

-- `struct mux`, without its bay; `select_func` may be null. It gives the input, or null, or fails.
pub record Mux : Type 0 where
  pub ninputs : ℕ
  pub selected : ℤ
  pub inputs : ℕ → MuxInput
  pub select_func : Option (Value → Option (Option ℕ))
  pub select : ℕ
  pub output : ℕ
  pub def : Value

pub data MuxError : Type 0 where
  wrong_value wrong_index select_failed chan_set_failed bay_failed crash : MuxError
  not_single same_channel not_registered input_taken : MuxError

unfoldable pub default_select : Mux → Value → Result MuxError (Option ℕ)
default_select mux key = elim key.type [
  | null ↦ ok none
  | int64 ↦
      if ltb_ℤ key.i (pos 0) || leb mux.ninputs (pos_part key.i)
      then err wrong_index
      else ok (some (pos_part key.i))
  | double ↦ err wrong_value
]

unfoldable pub select_input : Mux → Value → Result MuxError (Option ℕ)
unfolding default_select
select_input mux key = elim mux.select_func [
  | none ↦ or_err select_failed (default_select mux key)
  | some f ↦ elim (f key) [ none ↦ err select_failed | some input ↦ ok input ]
]

-- The index that the mux keeps of its selection, and the mark of an input.
abbrev pub index_of : Option ℕ → ℤ
index_of none = negsuc 0
index_of (some i) = pos i

abbrev pub mark : Mux → ℕ → Bool → Mux
mark mux i on = record mux {
  inputs = update mux.inputs i (record (mux.inputs i) { selected = on });
}

-- A null pointer is not read.
abbrev pub pointer : Option ℕ → Result MuxError ℕ
pointer none = err crash
pointer (some p) = ok p

abbrev pub chan_value : Option ℕ → (ℕ → Chan) → Result MuxError Value
chan_value none chans = err crash
chan_value (some c) chans = ok (chan_read (chans c))

module _ {L T X : Type 0} (dl : LinkedList L) where
  -- The previous input.
  unfoldable pub clear_selected : Mux → Bay L T X → Result MuxError (Mux × Bay L T X)
  unfolding bay_disable_cb
  clear_selected mux bay = if ltb_ℤ mux.selected (pos 0) then ok (mux, bay) else (do
    cb ← pointer (mux.inputs (pos_part mux.selected)).cb
    bay' ← or_err bay_failed (bay_disable_cb dl bay cb)
    ok (record (mark mux (pos_part mux.selected) false) { selected = negsuc 0 }, bay'))

  -- The new input, if there is one.
  unfoldable pub set_selected : Mux → Option ℕ → Bay L T X → Result MuxError (Mux × Bay L T X)
  unfolding bay_enable_cb
  set_selected mux none bay = ok (mux, bay)
  set_selected mux (some i) bay = do
    cb ← pointer (mux.inputs i).cb
    bay' ← or_err bay_failed (bay_enable_cb dl bay cb)
    ok (record (mark mux i true) { selected = pos i }, bay')

  unfoldable pub input_value : Mux → Option ℕ → Bay L T X → Result MuxError Value
  input_value mux none bay = ok mux.def
  input_value mux (some i) bay = chan_value (mux.inputs i).chan bay.chans

  unfoldable pub cb_select : Mux → Bay L T X → Result MuxError (Mux × Bay L T X)
  unfolding clear_selected select_input set_selected input_value write_chan
  cb_select mux bay = do
    let key = chan_read (bay.chans mux.select)
    (mux1, bay1) ← clear_selected mux bay
    input ← select_input mux1 key
    (mux2, bay2) ← set_selected mux1 input bay1
    value ← input_value mux2 input bay2
    bay3 ← or_err chan_set_failed (write_chan dl mux2.output (set value) bay2)
    ok (mux2, bay3)

  unfoldable pub cb_input : Mux → ℕ → Bay L T X → Result MuxError (Bay L T X)
  unfolding write_chan
  cb_input mux in_chan bay =
      or_err chan_set_failed (write_chan dl mux.output (set (chan_read (bay.chans in_chan))) bay)

  abbrev accepts_writes : Bay L T X → ℕ → Bay L T X
  accepts_writes bay output = record bay {
    chans =
        update bay.chans output
          (chan_prop_set (chan_prop_set (bay.chans output) dirty_write true) allow_dup true);
  }

  -- The channels by their address and by the number of their name.
  unfoldable pub mux_init :
      HashTable T
      → Bay L T X
      → ℕ
      → ℕ
      → ℕ
      → ℕ
      → Option (Value → Option (Option ℕ))
      → ℕ
      → Result MuxError (Mux × Bay L T X)
  unfolding bay_find bay_add_cb
  mux_init h bay select select_name output output_name select_func ninputs = do
    fail_if (not (is_single (bay.chans output).type)) not_single
    fail_if (select == output) same_channel
    fail_if (is_none (bay_find dl h bay select_name)) not_registered
    fail_if (is_none (bay_find dl h bay output_name)) not_registered
    (cb, bay') ←
        or_err bay_failed (bay_add_cb dl h (accepts_writes bay output) dirty_type select_name true)
    ok (
      record {
        ninputs = ninputs;
        selected = pos 0;
        inputs = λ i. record { chan = none; selected = false; cb = none };
        select_func = select_func;
        select = select;
        output = output;
        def = value_null;
      },
      bay',
    )

  unfoldable pub mux_set_input :
      HashTable T → Mux → Bay L T X → ℕ → ℕ → ℕ → Result MuxError (Mux × Bay L T X)
  unfolding bay_add_cb
  mux_set_input h mux bay index chan name = do
    fail_if (chan == mux.output) same_channel
    fail_if (not (is_none (mux.inputs index).chan)) input_taken
    (cb, bay') ← or_err bay_failed (bay_add_cb dl h bay dirty_type name false)
    ok (
      record mux {
        inputs =
            update mux.inputs index (record (mux.inputs index) { chan = some chan; cb = some cb });
      },
      bay',
    )

unfoldable pub mux_set_default : Mux → Value → Mux
mux_set_default mux def = record mux { def = def }

unfoldable pub mux_get_input : Mux → ℕ → MuxInput
mux_get_input mux index = mux.inputs index
