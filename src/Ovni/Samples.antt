-- ===== src/Ovni/Samples.antt =====
-- A loom with two CPUs and idle threads, for the tests of src/emu/ovni.
use ovni.Prelude.{ℕ, refl, true, false, Option, none, some, List, [], ◌∷◌, length}
use ovni.Prelude.Int.{ℤ, pos}
use ovni.Chan.{Chan, single, chan_init, chan_prop_set, ignore_dup, chan_read}
use ovni.Thread.{Thread, unknown}
use ovni.Thread.Shown.{IsPlain}
use ovni.Cpu.{Cpu}
use ovni.Emu.Event.{EmuEv}
use ovni.Emu.{Emu, Loom}

abbrev pub strict : Chan
strict = chan_init single

abbrev pub plain : Chan
plain = chan_prop_set (chan_init single) ignore_dup true

pub strict-IsPlain : IsPlain strict
unfolding chan_init chan_read
strict-IsPlain = record { settled = λ h. refl; one_write = refl }

pub plain-IsPlain : IsPlain plain
unfolding chan_init chan_prop_set chan_read
plain-IsPlain = record { settled = λ h. refl; one_write = refl }

abbrev pub idle : Thread
idle = record {
  gindex = pos 0;
  is_init = true;
  tid = pos 77;
  has_metadata = true;
  state = unknown;
  is_running = false;
  is_active = false;
  is_out_of_cpu = false;
  cpu = none;
  chan_cpu = strict;
  chan_tid = plain;
  chan_state = strict;
}

abbrev pub numbers : ℕ → ℤ
numbers c = pos c

abbrev pub cpus : ℕ → Cpu (List ℕ)
cpus c = record {
  gindex = pos c;
  has_loom = true;
  is_init = true;
  is_virtual = false;
  threads = [];
  nthreads = 0;
  nth_running = 0;
  nth_active = 0;
  th_running = none;
  th_active = none;
  chan_nrun = plain;
  chan_tid = plain;
  chan_pid = plain;
  chan_thrun = plain;
  chan_thact = plain;
}

abbrev pub loom : Loom (ℕ → Option ℕ)
loom = record { cpus_array = some (0 ∷ 1 ∷ []); ncpus = 2; vcpu = 9; procs = [] }

abbrev pub event : ℕ → ℕ → List ℕ → EmuEv
event c v payload = record {
  m = b'O';
  c = c;
  v = v;
  rclock = pos 0;
  sclock = pos 0;
  dclock = pos 5;
  has_payload = true;
  payload_size = length payload;
  jumbo = false;
  payload = payload;
}

abbrev pub emu : Emu (List ℕ) (ℕ → Option ℕ) (List ℕ)
emu = record {
  threads = λ p. idle;
  ovni_threads = λ p. record {
    nbursts = 98;
    burst_time = λ k. pos 0;
    flush_start = pos 0;
    flush = strict;
    channels = λ k. strict;
  };
  cpus = cpus;
  thread = 0;
  proc = λ k. none;
  loom = loom;
  ev = event b'U' b'U' [];
  types = λ k. none;
  mark_types = λ k. record { type = pos 0; index = 0 };
  bay = [];
}
