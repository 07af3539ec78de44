-- ===== src/Bay.antt =====
-- src/emu/bay.c: the channels of the emulator, the list of the dirty ones, and their callbacks.
pub mod Calls
pub mod Dirty
pub mod Rounds
pub mod Propagation
pub mod Walk
mod Tests
use ovni.Prelude.{
  ℕ, zero, suc, ◌+◌, ◌≡◌, Bool, true, false, not, ◌&&◌, Option, none, some, List, [], ◌∷◌,
  if◌then◌else◌, get_elem?, Result, ok, err, ◌>>=◌, ◌>>◌, fail_if, or_err, is_none,
}
use ovni.Value.{Value}
use ovni.Chan.{Chan, ChanError, chan_set_dirty_cb, chan_flush}
use ovni.Chan.Protocol.{Write, write}
use ovni.Vendor.{HashTable, LinkedList, update}

pub data BayState : Type 0 where
  ready propagating emitting flushing : BayState

abbrev pub may_dirty : BayState → Bool
may_dirty ready = true
may_dirty propagating = true
may_dirty _ = false

-- `enum bay_cb_type`
pub data CbType : Type 0 where
  dirty_type emit_type : CbType

-- `struct bay_cb`, without its function and argument; `bchan` is the channel.
pub record BayCb : Type 0 where
  pub bchan : ℕ
  pub enabled : Bool
  pub type : CbType

-- `struct bay_chan`; the two elements of each array are two fields.
pub record BayChan (L : Type 0) : Type 0 where
  pub is_dirty : Bool
  pub ndirty_callbacks : ℕ
  pub nemit_callbacks : ℕ
  pub dirty_callbacks : L
  pub emit_callbacks : L

-- `struct bay`, with the channels, what the bay knows of each, and the callbacks by their address; a
-- channel has the address of its `bay_chan`. The table finds it by the number of its name. `objects` is
-- what the callbacks work on beside the channels.
pub record Bay (L T X : Type 0) : Type 0 where
  pub state : BayState
  pub channels : T
  pub dirty : L
  pub chans : ℕ → Chan
  pub bchans : ℕ → BayChan L
  pub callbacks : ℕ → BayCb
  pub next_callback : ℕ
  pub objects : X

pub data BayError : Type 0 where
  died no_such_channel already_registered : BayError
  write_failed callback_failed flush_failed out_of_fuel : BayError

module _ {L : Type 0} (dl : LinkedList L) where
  abbrev pub fresh_bchan : BayChan L
  fresh_bchan = record {
    is_dirty = false;
    ndirty_callbacks = 0;
    nemit_callbacks = 0;
    dirty_callbacks = dl.empty_list;
    emit_callbacks = dl.empty_list;
  }

  abbrev pub with_callback : CbType → ℕ → BayChan L → BayChan L
  with_callback dirty_type cb b = record b {
    dirty_callbacks = dl.append cb b.dirty_callbacks;
    ndirty_callbacks = b.ndirty_callbacks + 1;
  }
  with_callback emit_type cb b = record b {
    emit_callbacks = dl.append cb b.emit_callbacks;
    nemit_callbacks = b.nemit_callbacks + 1;
  }

  -- The count goes up, as in the source.
  abbrev pub without_callback : CbType → ℕ → BayChan L → BayChan L
  without_callback dirty_type cb b = record b {
    dirty_callbacks = dl.delete cb b.dirty_callbacks;
    ndirty_callbacks = b.ndirty_callbacks + 1;
  }
  without_callback emit_type cb b = record b {
    emit_callbacks = dl.delete cb b.emit_callbacks;
    nemit_callbacks = b.nemit_callbacks + 1;
  }

abbrev pub callbacks_of : {L : Type 0} → CbType → BayChan L → L
callbacks_of dirty_type b = b.dirty_callbacks
callbacks_of emit_type b = b.emit_callbacks

module _ {L T X : Type 0} (dl : LinkedList L) where
  -- The callback of a registered channel.
  unfoldable pub cb_chan_is_dirty : ℕ → Bay L T X → Option (Bay L T X)
  cb_chan_is_dirty bchan bay =
      if not (may_dirty bay.state)
      then none
      else if (bay.bchans bchan).is_dirty
      then none
      else some (record bay { dirty = dl.append bchan bay.dirty })

  -- A write of a handler or a callback to a channel of the bay.
  unfoldable pub write_chan : ℕ → Write → Bay L T X → Result BayError (Bay L T X)
  unfolding cb_chan_is_dirty
  write_chan c w bay = do
    (chan, bay') ← or_err write_failed (write cb_chan_is_dirty w (bay.chans c) bay)
    ok (record bay' { chans = update bay'.chans c chan })

  unfoldable pub bay_find : HashTable T → Bay L T X → ℕ → Option ℕ
  bay_find h bay name = h.find_int bay.channels name

  -- The channel at an address, under its name.
  unfoldable pub bay_register : HashTable T → Bay L T X → ℕ → ℕ → Result BayError (Bay L T X)
  unfolding bay_find
  bay_register h bay name c = do
    fail_if (not (is_none (bay_find h bay name))) already_registered
    ok (record bay {
      bchans = update bay.bchans c (fresh_bchan dl);
      chans = update bay.chans c (chan_set_dirty_cb (bay.chans c) c);
      channels = h.add_int name c bay.channels;
    })

  abbrev pub set_enabled : Bay L T X → ℕ → Bool → (BayChan L → BayChan L) → Bay L T X
  set_enabled bay cb on f = record bay {
    callbacks = update bay.callbacks cb (record (bay.callbacks cb) { enabled = on });
    bchans = update bay.bchans (bay.callbacks cb).bchan (f (bay.bchans (bay.callbacks cb).bchan));
  }

  unfoldable pub bay_enable_cb : Bay L T X → ℕ → Result BayError (Bay L T X)
  bay_enable_cb bay cb =
      let c = bay.callbacks cb in
      if c.enabled
      then ok bay
      else if (bay.bchans c.bchan).is_dirty
      then err died
      else ok (set_enabled bay cb true (with_callback dl c.type cb))

  unfoldable pub bay_disable_cb : Bay L T X → ℕ → Result BayError (Bay L T X)
  bay_disable_cb bay cb =
      let c = bay.callbacks cb in
      if not c.enabled
      then ok bay
      else if (bay.bchans c.bchan).is_dirty
      then err died
      else ok (set_enabled bay cb false (without_callback dl c.type cb))

  -- The new callback, and the bay with it.
  unfoldable pub bay_add_cb :
      HashTable T → Bay L T X → CbType → ℕ → Bool → Result BayError (ℕ × Bay L T X)
  unfolding bay_find bay_enable_cb
  bay_add_cb h bay type name enabled = elim (bay_find h bay name) [
    | none ↦ err no_such_channel
    | some c ↦
        let cb = bay.next_callback in
        let added = record bay {
          callbacks = update bay.callbacks cb (record { bchan = c; enabled = false; type = type });
          next_callback = cb + 1;
        } in
        (if enabled then bay_enable_cb added cb else ok added) >>= λ bay'. ok (cb, bay')
  ]

  unfoldable pub bay_init : T → X → (ℕ → Chan) → Bay L T X
  bay_init channels objects chans = record {
    state = ready;
    channels = channels;
    dirty = dl.empty_list;
    chans = chans;
    bchans = λ c. fresh_bchan dl;
    callbacks = λ cb. record { bchan = 0; enabled = false; type = dirty_type };
    next_callback = 0;
    objects = objects;
  }

  -- The functions of the callbacks, by the address of the callback, and the pointer with which DL_FOREACH goes
  -- on. A loop over the callbacks of a channel makes at most `steps` calls.
  module _ (next : ℕ → L → Option ℕ) (call : ℕ → Bay L T X → Option (Bay L T X)) (steps : ℕ) where
    -- From the callback `cur` on. Its pointer is read after the call, which may have changed the list.
    unfoldable pub walk : CbType → ℕ → ℕ → Option ℕ → Bay L T X → Result BayError (Bay L T X)
    walk type c fuel none bay = ok bay
    walk type c zero (some cur) bay = err out_of_fuel
    walk type c (suc fuel) (some cur) bay = elim (call cur bay) [
      | none ↦ err callback_failed
      | some bay' ↦ walk type c fuel (next cur (callbacks_of type (bay'.bchans c))) bay'
    ]

    unfoldable pub propagate_chan : CbType → ℕ → Bay L T X → Result BayError (Bay L T X)
    unfolding walk
    propagate_chan type c bay = walk type c steps (dl.head (callbacks_of type (bay.bchans c))) bay

    -- The loop over the dirty list, which may grow, from the element at `i`.
    unfoldable pub dirty_loop : CbType → ℕ → ℕ → Bay L T X → Result BayError (Bay L T X)
    unfolding propagate_chan
    dirty_loop type zero i bay = err out_of_fuel
    dirty_loop type (suc fuel) i bay = elim (get_elem? (dl.elems bay.dirty) i) [
      | none ↦ ok bay
      | some c ↦ propagate_chan type c bay >>= λ bay'. dirty_loop type fuel (i + 1) bay'
    ]

  unfoldable pub flush_all : List ℕ → Bay L T X → Result BayError (Bay L T X)
  flush_all [] bay = ok bay
  flush_all (c ∷ cs) bay = do
    chan ← or_err flush_failed (chan_flush (bay.chans c))
    flush_all cs (record bay {
      chans = update bay.chans c chan;
      bchans = update bay.bchans c (record (bay.bchans c) { is_dirty = false });
    })

  unfoldable pub bay_propagate :
      (ℕ → L → Option ℕ)
      → (ℕ → Bay L T X → Option (Bay L T X))
      → ℕ
      → ℕ
      → Bay L T X
      → Result BayError (Bay L T X)
  unfolding dirty_loop flush_all
  bay_propagate next call steps fuel bay = do
    bay1 ← dirty_loop next call steps dirty_type fuel 0 (record bay { state = propagating })
    bay2 ← dirty_loop next call steps emit_type fuel 0 (record bay1 { state = emitting })
    bay3 ← flush_all (dl.elems bay2.dirty) (record bay2 { state = flushing })
    ok (record bay3 { dirty = dl.empty_list; state = ready })
