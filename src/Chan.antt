-- ===== src/Chan.antt =====
-- src/emu/chan.c and chan.h: channels, which hold one value or a stack of values, and are marked dirty
-- by the first write of each propagation phase.
pub mod Protocol
pub mod Contents
mod Tests
use ovni.Prelude.{
  ℕ, ◌≤◌, Bool, true, false, not, ◌&&◌, Option, none, some, List, [], ◌∷◌, if◌then◌else◌, leb,
  length, Result, ok, err, or_err,
}
use ovni.Value.{Value, value_is_equal, value_null}

-- `enum chan_type`
pub data ChanType : Type 0 where
  single stack : ChanType

abbrev pub is_single : ChanType → Bool
is_single single = true
is_single stack = false

-- `enum chan_prop`
pub data ChanProp : Type 0 where
  dirty_write allow_dup ignore_dup : ChanProp

-- `struct chan`. The array `prop` is three fields, `dirty_cb` with `dirty_arg` is the argument, if
-- the callback is set. The union is two fields, since the type never changes; the stack has its top
-- first.
pub record Chan : Type 0 where
  pub is_dirty : Bool
  pub can_dirty_write : Bool
  pub can_dup : Bool
  pub skips_dup : Bool
  pub dirty_cb : Option ℕ
  pub last_value : Value
  pub type : ChanType
  pub value : Value
  pub values : List Value

abbrev pub max_chan_stack : ℕ
max_chan_stack = 512

pub data ChanError : Type 0 where
  wrong_type dirty_channel same_value stack_full stack_empty unexpected_top : ChanError
  already_dirty dirty_cb_failed set_dirty_failed not_dirty : ChanError

unfoldable pub chan_init : ChanType → Chan
chan_init t = record {
  is_dirty = false;
  can_dirty_write = false;
  can_dup = false;
  skips_dup = false;
  dirty_cb = none;
  last_value = value_null;
  type = t;
  value = value_null;
  values = [];
}

unfoldable pub chan_set_dirty_cb : Chan → ℕ → Chan
chan_set_dirty_cb chan arg = record chan { dirty_cb = some arg }

unfoldable pub chan_prop_set : Chan → ChanProp → Bool → Chan
chan_prop_set chan dirty_write v = record chan { can_dirty_write = v }
chan_prop_set chan allow_dup v = record chan { can_dup = v }
chan_prop_set chan ignore_dup v = record chan { skips_dup = v }

unfoldable pub chan_prop_get : Chan → ChanProp → Bool
chan_prop_get chan dirty_write = chan.can_dirty_write
chan_prop_get chan allow_dup = chan.can_dup
chan_prop_get chan ignore_dup = chan.skips_dup

abbrev pub top_or_null : List Value → Value
top_or_null [] = value_null
top_or_null (v ∷ vs) = v

-- `chan_read`, and `get_value`, which has the same body.
unfoldable pub chan_read : Chan → Value
chan_read chan = if is_single chan.type then chan.value else top_or_null chan.values

unfoldable pub chan_flush : Chan → Result ChanError Chan
unfolding chan_read
chan_flush chan =
    if not chan.is_dirty
    then err not_dirty
    else ok (record chan { last_value = chan_read chan; is_dirty = false })

-- The dirty callback works on a state `S` of its owner; `none` is a return value other than 0.
module _ {S : Type 0} (cb : ℕ → S → Option S) where
  unfoldable pub call_dirty : Option ℕ → Chan → S → Result ChanError (Chan × S)
  call_dirty none chan s = ok (chan, s)
  call_dirty (some arg) chan s = elim (cb arg s) [
    | none ↦ err dirty_cb_failed
    | some s' ↦ ok (chan, s')
  ]

  unfoldable pub set_dirty : Chan → S → Result ChanError (Chan × S)
  unfolding call_dirty
  set_dirty chan s =
      if chan.is_dirty
      then (if chan.can_dirty_write then ok (chan, s) else err already_dirty)
      else call_dirty chan.dirty_cb (record chan { is_dirty = true }) s

  unfoldable pub chan_set : Chan → Value → S → Result ChanError (Chan × S)
  unfolding set_dirty
  chan_set chan v s =
      if not (is_single chan.type)
      then err wrong_type
      else if chan.is_dirty && not chan.can_dirty_write
      then err dirty_channel
      else if not chan.can_dup && value_is_equal chan.last_value v
      then (if chan.skips_dup then ok (chan, s) else err same_value)
      else or_err set_dirty_failed (set_dirty (record chan { value = v }) s)

  unfoldable pub chan_push : Chan → Value → S → Result ChanError (Chan × S)
  unfolding set_dirty
  chan_push chan v s =
      if is_single chan.type
      then err wrong_type
      else if chan.is_dirty && not chan.can_dirty_write
      then err dirty_channel
      else if not chan.can_dup && value_is_equal chan.last_value v
      then (if chan.skips_dup then ok (chan, s) else err same_value)
      else if leb max_chan_stack (length chan.values)
      then err stack_full
      else or_err set_dirty_failed (set_dirty (record chan { values = v ∷ chan.values }) s)

  -- The tests on the stack of `chan_pop`, and its last steps.
  unfoldable pub pop_expected : List Value → Chan → Value → S → Result ChanError (Chan × S)
  unfolding set_dirty
  pop_expected [] chan v s = err stack_empty
  pop_expected (top ∷ rest) chan v s =
      if not (value_is_equal top v)
      then err unexpected_top
      else or_err set_dirty_failed (set_dirty (record chan { values = rest }) s)

  unfoldable pub chan_pop : Chan → Value → S → Result ChanError (Chan × S)
  unfolding pop_expected
  chan_pop chan v s =
      if is_single chan.type
      then err wrong_type
      else if chan.is_dirty && not chan.can_dirty_write
      then err dirty_channel
      else pop_expected chan.values chan v s

  unfoldable pub chan_dirty : Chan → S → Result ChanError (Chan × S)
  unfolding set_dirty
  chan_dirty chan s =
      if chan.is_dirty then ok (chan, s) else or_err set_dirty_failed (set_dirty chan s)
