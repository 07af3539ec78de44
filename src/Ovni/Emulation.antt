-- ===== src/Ovni/Emulation.antt =====
-- The loop of the emulator over the events of the ovni model: emu_step of src/emu/emu.c, with what
-- bay_propagate of src/emu/bay.c does to the channels of threads and CPUs after each event.
use ovni.Prelude.{ℕ, Option, List, [], ◌∷◌, Result, ok, err, ◌>>=◌}
use ovni.Prelude.Int.{ℤ}
use ovni.Chan.{Chan, chan_flush}
use ovni.Vendor.{LinkedList, HashTable}
use ovni.Thread.{Thread}
use ovni.Cpu.{Cpu}
use ovni.Emu.Event.{EmuEv}
use ovni.Emu.{Emu, EmuError, Loom, OvniThread}
use ovni.Ovni.Event.{model_ovni_event}

-- What the player hands to the emulator: an event, and the thread, the process and the loom of its stream.
pub record Input (T : Type 0) : Type 0 where
  pub ev : EmuEv
  pub thread : ℕ
  pub proc : T
  pub loom : Loom T

unfoldable pub set_current : {L T S : Type 0} → Input T → Emu L T S → Emu L T S
set_current input emu = record emu {
  ev = input.ev;
  thread = input.thread;
  proc = input.proc;
  loom = input.loom;
}

-- A dirty channel is flushed, a clean one is not in the list.
unfoldable pub flush_dirty : Chan → Chan
unfolding chan_flush
flush_dirty chan = elim (chan_flush chan) [ ok c ↦ c | err e ↦ chan ]

unfoldable pub flush_thread : Thread → Thread
unfolding flush_dirty
flush_thread th = record th {
  chan_cpu = flush_dirty th.chan_cpu;
  chan_tid = flush_dirty th.chan_tid;
  chan_state = flush_dirty th.chan_state;
}

unfoldable pub flush_cpu : {L : Type 0} → Cpu L → Cpu L
unfolding flush_dirty
flush_cpu cpu = record cpu {
  chan_nrun = flush_dirty cpu.chan_nrun;
  chan_tid = flush_dirty cpu.chan_tid;
  chan_pid = flush_dirty cpu.chan_pid;
  chan_thrun = flush_dirty cpu.chan_thrun;
  chan_thact = flush_dirty cpu.chan_thact;
}

unfoldable pub flush_ovni_thread : OvniThread → OvniThread
unfolding flush_dirty
flush_ovni_thread th = record th {
  flush = flush_dirty th.flush;
  channels = λ k. flush_dirty (th.channels k);
}

module _ {L T S : Type 0} (empty_bay : S → S) where
  -- The flushes of all dirty channels; what the callbacks write goes to the state of the bay.
  unfoldable pub propagate : Emu L T S → Emu L T S
  unfolding flush_thread flush_cpu flush_ovni_thread
  propagate emu = record emu {
    threads = λ p. flush_thread (emu.threads p);
    cpus = λ c. flush_cpu (emu.cpus c);
    ovni_threads = λ p. flush_ovni_thread (emu.ovni_threads p);
    bay = empty_bay emu.bay;
  }

  module _ (dl : LinkedList L) (h : HashTable T) (pid_of : ℕ → ℤ) (cb : ℕ → S → Option S) where
    unfoldable pub ovni_step : Input T → Emu L T S → Result EmuError (Emu L T S)
    unfolding set_current model_ovni_event propagate
    ovni_step input emu = do
      emu' ← model_ovni_event dl h pid_of cb (set_current input emu)
      ok (propagate emu')

    unfoldable pub ovni_run : List (Input T) → Emu L T S → Result EmuError (Emu L T S)
    unfolding ovni_step
    ovni_run [] emu = ok emu
    ovni_run (input ∷ inputs) emu = do emu' ← ovni_step input emu; ovni_run inputs emu'
