-- ===== src/Rt/Tests.antt =====
-- The theorems on src/rt/ovni.c at concrete threads and events, with a `write` that takes the whole buffer.
use ovni.Prelude.{
  ℕ, zero, suc, ◌+◌, ◌*◌, ap, ◌/◌, ◌≡◌, refl, true, false, some, List, [], ◌∷◌, ◌++◌, length, arith,
  ok,
}
use ovni.Prelude.Int.{pos}
use ovni.Rt.Bytes.{le_bytes, length-le_bytes, to_size_t}
use ovni.Rt.Event.{Ev, zero_ev, IsEv, ovni_payload_size, ovni_payload_add, ovni_ev_size}
use ovni.Rt.Event.Payload.{packed, payload_add_appends}
use ovni.Rt.Buffer.{
  Rthread, Os, IsOs, ev_bytes, flush_ev, ovni_ev_emit, ovni_ev_jumbo_emit, stream_header,
}
use ovni.Rt.Buffer.Emit.{IsOpen, Added, marks, marks_for, emit_appends, stream}
use ovni.Rt.Buffer.Jumbo.{IsEmpty, jumbo_bytes, jumbo_appends}
use ovni.Rt.Buffer.Nested.{nested_flush_order}

abbrev host : Os
host = record { clock_now = λ n. 100 * n; write = λ n buf. some (length buf) }

host-IsOs : IsOs host
host-IsOs = record {
  writes_some = λ n b bs. (length (b ∷ bs), refl, omega arith, omega arith);
  writes_none = λ n. refl;
}

-- The event "OB." at the clock 7.
abbrev burst : Ev
burst = record zero_ev { model = b'O'; category = b'B'; value = b'.'; clock = 7 }

burst-IsEv : IsEv burst
burst-IsEv = record {
  flags_byte = omega arith;
  clock_word = omega arith;
  payload_room = length-le_bytes 16 0;
}

burst-IsEmpty : IsEmpty burst
burst-IsEmpty = record { no_flags = refl; room = length-le_bytes 16 0 }

payload_add_appends_example :
    (c : Ev) × (ovni_payload_add burst (1 ∷ 2 ∷ 3 ∷ []) ≡ ok c)
    × IsEv c
    × (packed c ≡ packed burst ++ (1 ∷ 2 ∷ 3 ∷ []))
    × (ovni_payload_size c ≡ pos (to_size_t (ovni_payload_size burst) + 3))
    × (c.flags / 16 ≡ 0)
    × (c.model ≡ b'O')
    × (c.category ≡ b'B')
    × (c.value ≡ b'.')
    × (c.clock ≡ 7)
unfolding ovni_payload_size
payload_add_appends_example =
    payload_add_appends burst (1 ∷ 2 ∷ 3 ∷ []) burst-IsEv refl (omega arith) (omega arith)

abbrev idle : Rthread
idle = record {
  ready = true;
  finished = false;
  proc_ready = true;
  evbuf = [];
  file = stream_header;
  readings = 0;
  writes = 1;
}

idle-IsOpen : IsOpen idle
idle-IsOpen = record { is_ready = refl; has_room = omega arith }

emit_appends_example :
    (st' : Rthread) × (ovni_ev_emit host burst idle ≡ ok st')
    × Added host (ev_bytes burst) (marks_for host (to_size_t (ovni_ev_size burst)) idle) idle st'
emit_appends_example = emit_appends host host-IsOs burst idle idle-IsOpen burst-IsEv refl

jumbo_appends_example :
    (st' : Rthread) × (ovni_ev_jumbo_emit host burst (1 ∷ 2 ∷ []) idle ≡ ok st')
    × Added host (jumbo_bytes burst (1 ∷ 2 ∷ [])) (marks_for host 18 idle) idle st'
jumbo_appends_example =
    jumbo_appends host host-IsOs burst (1 ∷ 2 ∷ []) idle idle-IsOpen burst-IsEmpty (omega arith)

zeros : ℕ → List ℕ
zeros zero = []
zeros (suc n) = 0 ∷ zeros n

length-zeros : (n : ℕ) → length (zeros n) ≡ n
unfolding zeros
length-zeros zero = refl
length-zeros (suc n) = ap suc (length-zeros n)

-- A buffer of 20 bytes less than 2 MiB, and a thread with 20 bytes in its buffer.
large : List ℕ
large = zeros 2097132

length-large : length large ≡ 2097132
unfolding large
length-large = length-zeros 2097132

abbrev busy : Rthread
busy = record idle { evbuf = le_bytes 20 0 }

nested_flush_order_example :
    (st' : Rthread) × (ovni_ev_jumbo_emit host burst large busy ≡ ok st')
    × (stream st'
        ≡ stream busy
          ++ (jumbo_bytes burst large
              ++ (ev_bytes (flush_ev b'[' 0) ++ (marks host 2 ++ ev_bytes (flush_ev b']' 100)))))
nested_flush_order_example =
    nested_flush_order host host-IsOs burst large busy
      (record { is_ready = refl; has_room = omega (arith, length-le_bytes 20 0) }) burst-IsEmpty
      (omega (arith, length-large)) (omega (arith, length-large))
      (omega (arith, length-large, length-le_bytes 20 0))
