-- ===== src/Mux/Tests.antt =====
-- The theorem on src/emu/mux.c with four channels.
use ovni.Prelude.{
  ℕ, ◌+◌, ◌≡◌, refl, false, Option, none, some, List, [], ◌∷◌, Result, ok, err, if◌then◌else◌, ◌==◌,
}
use ovni.Prelude.Int.{pos}
use ovni.Value.{value_int64, value_null}
use ovni.Chan.{Chan, single, chan_read, chan_set, set_dirty, call_dirty}
use ovni.Chan.Protocol.{write}
use ovni.Vendor.{update}
use ovni.Vendor.Samples.{list}
use ovni.Bay.{Bay, ready, dirty_type, write_chan, cb_chan_is_dirty, bay_enable_cb, bay_disable_cb}
use ovni.Mux.Switch.{IsMux, Selects}
use ovni.Mux.Follow.{cb_select_lem}
use ovni.Mux.{
  Mux, MuxError, cb_select, clear_selected, select_input, default_select, set_selected, input_value,
  index_of,
}

-- The channel 3 takes duplicates and dirty writes; the channel 0 has changed to 1.
abbrev channel : ℕ → Chan
channel c = record {
  is_dirty = c == 0;
  can_dirty_write = c == 3;
  can_dup = c == 3;
  skips_dup = false;
  dirty_cb = some c;
  last_value = if c == 2 then value_int64 (pos 55) else value_null;
  type = single;
  value =
      if c == 0 then value_int64 (pos 1) else if c == 2 then value_int64 (pos 55) else value_null;
  values = [];
}

-- The callback 0 belongs to the channel 0.
abbrev bay : Bay (List ℕ) (ℕ → Option ℕ) Unit
bay = record {
  state = ready;
  channels = λ k. none;
  dirty = 0 ∷ [];
  chans = channel;
  bchans = λ c. record {
    is_dirty = false;
    ndirty_callbacks = if c == 0 then 1 else 0;
    nemit_callbacks = 0;
    dirty_callbacks = if c == 0 then 0 ∷ [] else [];
    emit_callbacks = [];
  };
  callbacks = λ k. record { bchan = k + 1; enabled = false; type = dirty_type };
  next_callback = 2;
  objects = tt;
}

abbrev mux : Mux
mux = record {
  ninputs = 2;
  selected = pos 0;
  inputs = λ j. record { chan = some (j + 1); selected = false; cb = some j };
  select_func = none;
  select = 0;
  output = 3;
  def = value_null;
}

mux-IsMux : IsMux list mux bay
unfolding chan_read
mux-IsMux = record {
  apart = λ i j cb a b e f. cc;
  marked = λ j b h. cc;
  enabled = λ j cb b e. refl;
  none_is = λ h. cc;
  in_range = refl;
  chooses = λ f e key i h. cc;
  output_well = record { settled = λ h. refl; takes_dup = refl };
  output_called = refl;
}

abbrev value_or :
    Mux × Bay (List ℕ) (ℕ → Option ℕ) Unit
    → Result MuxError (Mux × Bay (List ℕ) (ℕ → Option ℕ) Unit)
    → Mux × Bay (List ℕ) (ℕ → Option ℕ) Unit
value_or p (ok q) = q
value_or p (err e) = p

chosen : Mux × Bay (List ℕ) (ℕ → Option ℕ) Unit
chosen = value_or (mux, bay) (cb_select list mux bay)

selected : cb_select list mux bay ≡ ok (chosen.0, chosen.1)
unfolding chosen cb_select clear_selected select_input default_select set_selected input_value
    write_chan write cb_chan_is_dirty chan_set set_dirty call_dirty chan_read bay_enable_cb
    bay_disable_cb update
selected = refl

cb_select_lem_example :
    (input : Option ℕ) × (select_input mux (chan_read (bay.chans 0)) ≡ ok input)
    × Selects list (index_of input) chosen.0 chosen.1
    × (input_value list mux input bay ≡ ok (chan_read (chosen.1.chans 3)))
cb_select_lem_example = cb_select_lem list mux chosen.0 bay chosen.1 mux-IsMux selected
