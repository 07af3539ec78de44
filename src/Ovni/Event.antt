-- ===== src/Ovni/Event.antt =====
-- model_ovni_event of src/emu/ovni/event.c.
use ovni.Prelude.{ℕ, not, Option, if◌then◌else◌, ◌==◌, Result, ok, err, ◌>>◌, fail_if}
use ovni.Prelude.Int.{ℤ}
use ovni.Vendor.{LinkedList, HashTable}
use ovni.Emu.{Emu, EmuError, wrong_model, out_of_cpu, unknown_category, unknown_value}
use ovni.Ovni.Handlers.{pre_thread, pre_affinity}
use ovni.Ovni.Data.{pre_burst, pre_flush, mark_event}

module _ {L T S : Type 0} where
  unfoldable pub pre_cpu : Emu L T S → Result EmuError (Emu L T S)
  pre_cpu emu = if emu.ev.v == b'n' then ok emu else err unknown_value

  module _ (dl : LinkedList L) (h : HashTable T) (pid_of : ℕ → ℤ) (cb : ℕ → S → Option S) where
    unfoldable pub model_ovni_event : Emu L T S → Result EmuError (Emu L T S)
    unfolding pre_thread pre_affinity pre_burst pre_cpu pre_flush mark_event
    model_ovni_event emu = do
      fail_if (not (emu.ev.m == b'O')) wrong_model
      fail_if (emu.threads emu.thread).is_out_of_cpu out_of_cpu
      let c = emu.ev.c
      if c == b'H'
          then pre_thread dl pid_of cb emu
          else if c == b'A'
          then pre_affinity dl pid_of cb h emu
          else if c == b'B'
          then pre_burst emu
          else if c == b'C'
          then pre_cpu emu
          else if c == b'F'
          then pre_flush cb emu
          else if c == b'U'
          then ok emu
          else if c == b'M'
          then mark_event cb h emu
          else err unknown_category
