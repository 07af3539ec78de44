-- ===== src/Ovni/Data.antt =====
-- src/emu/ovni/event.c and mark_event of src/emu/ovni/mark.c: the handlers of the events that only
-- concern the data and the channels of the current thread.
use ovni.Prelude.{
  ℕ, ◌+◌, not, Option, if◌then◌else◌, leb, ◌==◌, Result, ok, err, ◌>>=◌, ◌>>◌, fail_if, or_err,
}
use ovni.Prelude.Int.{pos, eq_ℤ}
use ovni.Value.{Value, value_int64, value_null}
use ovni.Chan.{Chan, chan_set, chan_push, chan_pop}
use ovni.Vendor.{HashTable, update}
use ovni.Emu.Event.{payload_i32, payload_i64}
use ovni.Emu.{
  Emu, EmuError, OvniThread, from_option, find_mark_type, chan_failed, wrong_payload_size,
  unknown_value, too_many_bursts, no_such_mark, zero_mark,
}

abbrev pub max_bursts : ℕ
max_bursts = 100

-- The current thread has passed the last burst: the statistics are printed and the count starts again.
abbrev pub next_burst : ℕ → ℕ
next_burst n = if not (n == max_bursts) then n else 0

-- The operation of the value of the event.
module _ {S : Type 0} (cb : ℕ → S → Option S) where
  unfoldable pub mark_chan : ℕ → Chan → Value → S → Result EmuError (Chan × S)
  mark_chan v chan value s =
      if v == b'['
      then or_err chan_failed (chan_push cb chan value s)
      else if v == b']'
      then or_err chan_failed (chan_pop cb chan value s)
      else if v == b'='
      then or_err chan_failed (chan_set cb chan value s)
      else err unknown_value

module _ {L T S : Type 0} where
  abbrev pub current : Emu L T S → OvniThread
  current emu = emu.ovni_threads emu.thread

  abbrev pub set_current : Emu L T S → OvniThread → Emu L T S
  set_current emu th = record emu { ovni_threads = update emu.ovni_threads emu.thread th }

  unfoldable pub pre_burst : Emu L T S → Result EmuError (Emu L T S)
  pre_burst emu = do
    let th = current emu
    fail_if (leb max_bursts th.nbursts) too_many_bursts
    ok (
        set_current emu (record th {
          burst_time = update th.burst_time th.nbursts emu.ev.dclock;
          nbursts = next_burst (th.nbursts + 1);
        }))

  module _ (cb : ℕ → S → Option S) where
    unfoldable pub set_flush : Value → Emu L T S → Result EmuError (Emu L T S)
    set_flush v emu = do
      (c, s) ← or_err chan_failed (chan_set cb (current emu).flush v emu.bay)
      ok (record (set_current emu (record (current emu) { flush = c })) { bay = s })

    unfoldable pub start_flush : Emu L T S → Emu L T S
    start_flush emu = set_current emu (record (current emu) { flush_start = emu.ev.dclock })

    -- The duration of a flush is only printed, at its end.
    unfoldable pub pre_flush : Emu L T S → Result EmuError (Emu L T S)
    unfolding set_flush start_flush
    pre_flush emu =
        if emu.ev.v == b'['
        then (set_flush (value_int64 (pos 1)) emu >>= λ emu'. ok (start_flush emu'))
        else if emu.ev.v == b']'
        then set_flush value_null emu
        else err unknown_value

    module _ (h : HashTable T) where
      unfoldable pub mark_event : Emu L T S → Result EmuError (Emu L T S)
      unfolding mark_chan find_mark_type
      mark_event emu = do
        fail_if (not (emu.ev.payload_size == 12)) wrong_payload_size
        let value = payload_i64 emu.ev 0
        mc ← from_option no_such_mark (find_mark_type h emu.types (payload_i32 emu.ev 2))
        fail_if (eq_ℤ value (pos 0)) zero_mark
        let th = current emu
        let index = (emu.mark_types mc).index
        (c, s) ← mark_chan cb emu.ev.v (th.channels index) (value_int64 value) emu.bay
        ok (record (set_current emu (record th { channels = update th.channels index c })) {
          bay = s;
        })
