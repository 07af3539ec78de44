-- ===== src/Stream/Tests.antt =====
-- The theorems on src/emu/stream.c at concrete files and threads.
use ovni.Prelude.{
  ℕ, ◌^◌, ◌+◌, ◌≡◌, refl, true, false, none, some, List, [], ◌∷◌, ◌++◌, map, length, arith, ok,
}
use ovni.Prelude.Int.{pos, ◌+ℤ◌, ◌-ℤ◌}
use ovni.Rt.Bytes.{wrap_int64, le_value, length-le_bytes}
use ovni.Rt.Event.{Ev, zero_ev, IsEv}
use ovni.Rt.Buffer.{Rthread, Os, IsOs, stream_header}
use ovni.Rt.Buffer.Jumbo.{IsEmpty}
use ovni.Stream.{Stream, load_obs, decode, ev_at, stream_evclock}
use ovni.Stream.Items.{Item, normal, jumbo, items_bytes, IsItem}
use ovni.Stream.Reading.{read_all, item_seen}
use ovni.Stream.Roundtrip.{opened, read-written}
use ovni.Stream.Loops.{overflow_never_ends}
use ovni.Stream.Emitted.{
  emit_all, AllFit, IsClock, IsClockBelow, WithFlushes, Emitted, emit_all-Emitted,
}
use ovni.Stream.ThreadFile.{thread_life, thread_file}

abbrev host : Os
host = record { clock_now = λ n. 100; write = λ n buf. some (length buf) }

host-IsOs : IsOs host
host-IsOs = record {
  writes_some = λ n b bs. (length (b ∷ bs), refl, omega arith, omega arith);
  writes_none = λ n. refl;
}

host-IsClock : IsClock host
host-IsClock n = omega arith

host-IsClockBelow : IsClockBelow (2 ^ 62) host
host-IsClockBelow n = omega arith

-- "OB." at the clock 7, and a jumbo event with 2 bytes at the clock 9.
abbrev burst : Ev
burst = record zero_ev { model = b'O'; category = b'B'; value = b'.'; clock = 7 }

abbrev label : Ev
label = record zero_ev { model = b'V'; category = b'Y'; value = b'c'; clock = 9 }

burst-IsEv : IsEv burst
burst-IsEv = record {
  flags_byte = omega arith;
  clock_word = omega arith;
  payload_room = length-le_bytes 16 0;
}

label-IsEmpty : IsEmpty label
label-IsEmpty = record { no_flags = refl; room = length-le_bytes 16 0 }

abbrev first : Item
first = normal burst

abbrev second : Item
second = jumbo label (1 ∷ 0 ∷ [])

first-IsItem : IsItem first
first-IsItem = (burst-IsEv, refl)

second-IsItem : IsItem second
second-IsItem = (label-IsEmpty, omega arith, omega arith)

abbrev written : List ℕ
written = stream_header ++ items_bytes (first ∷ second ∷ [])

read-written_example :
    (load_obs written ≡ ok (opened false (pos 0) written))
    × (read_all 3 (opened false (pos 5) written)
        ≡ some (ok (map (item_seen (pos 5)) (first ∷ second ∷ []))))
unfolding ◌+ℤ◌ ◌-ℤ◌
read-written_example =
    read-written first (second ∷ []) false (pos 5) (first-IsItem, (second-IsItem, tt))
      (refl, (refl, tt)) (omega arith, omega arith, (omega arith, omega arith, tt))

-- 12 bytes of a jumbo header, and the size 2 ^ 32 - 16.
abbrev huge : List ℕ
huge = 0x13 ∷ b'V' ∷ b'Y' ∷ b'c' ∷ 0 ∷ 0 ∷ 0 ∷ 0 ∷ 0 ∷ 0 ∷ 0 ∷ 0 ∷ 0xf0 ∷ 0xff ∷ 0xff ∷ 0xff ∷ []

abbrev stuck : Stream
stuck = record (opened false (pos 0) (stream_header ++ huge)) { cur_ev = some (pos 8) }

overflow_never_ends_example : read_all 1000 stuck ≡ none
unfolding decode le_value ev_at stream_evclock wrap_int64 ◌+ℤ◌
overflow_never_ends_example = overflow_never_ends (decode huge) 8 24 stuck 1000 refl refl (record {
  is_active = refl;
  is_current = refl;
  reads = refl;
  at_offset = refl;
  whole_size = refl;
  before_end = omega arith;
  same_clock = refl;
})

abbrev fresh : Rthread
fresh = record {
  ready = false;
  finished = false;
  proc_ready = true;
  evbuf = [];
  file = [];
  readings = 0;
  writes = 0;
}

abbrev idle : Rthread
idle = record fresh { ready = true; file = stream_header }

both : AllFit (first ∷ second ∷ [])
both = (first-IsItem, tt, (second-IsItem, omega arith, tt))

emit_all-Emitted_example :
    (st' : Rthread) × (out : List Item) × (emit_all host (first ∷ second ∷ []) idle ≡ ok st')
    × Emitted host host-IsOs (first ∷ second ∷ []) out idle st'
emit_all-Emitted_example =
    emit_all-Emitted host host-IsOs (first ∷ second ∷ []) idle host-IsClock both
      (record { is_ready = refl; has_room = omega arith })

thread_file_example :
    (st' : Rthread) × (out : List Item) × (thread_life host (first ∷ second ∷ []) fresh ≡ ok st')
    × WithFlushes (first ∷ second ∷ []) out
    × (load_obs st'.file ≡ ok (opened false (pos 0) st'.file))
    × (read_all (length out + 1) (opened true (pos 0) st'.file)
        ≡ some (ok (map (item_seen (pos 0)) out)))
thread_file_example =
    thread_file host host-IsOs first (second ∷ []) fresh (pos 0) host-IsClockBelow
      (record { not_ready = refl; not_finished = refl; proc_is_ready = refl }) both
      (omega arith, (omega arith, tt)) (omega arith)
