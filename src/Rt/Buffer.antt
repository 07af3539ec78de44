-- ===== src/Rt/Buffer.antt =====
-- The event buffer of a thread in src/rt/ovni.c: `ovni_ev_add`, `ovni_ev_add_jumbo` and the flush.
pub mod Flush
pub mod Emit
pub mod Jumbo
pub mod Nested
use ovni.Prelude.{
  ℕ, zero, suc, ◌+◌, ◌-◌, ◌*◌, ◌%◌, ◌^◌, ◌≤◌, ◌<◌, ◌≡◌, Bool, true, false, not, Option, none, some,
  List, [], ◌∷◌, ◌++◌, length, take, drop, if◌then◌else◌, leb, ◌==◌, Result, ok, err, ◌>>=◌, ◌>>◌,
  or_err, fail_if,
}
use ovni.Prelude.Int.{eq_ℤ, pos}
use ovni.Rt.Bytes.{le_bytes, to_size_t}
use ovni.Rt.Event.{
  Ev, zero_ev, is_jumbo, ovni_payload_size, ovni_payload_add, ovni_ev_size, ev_memory,
  ovni_ev_set_clock, ovni_ev_set_mcv,
}

-- OVNI_MAX_EV_BUF, 2 MiB.
abbrev pub max_ev_buf : ℕ
max_ev_buf = 2097152

-- The part of `struct ovni_rthread` and of the process state that the buffer uses. `evbuf` holds the
-- bytes in use, so that `evlen` is its length; `file` is what `streamfd` has received. `readings` and
-- `writes` count the calls of the clock and of `write`.
pub record Rthread : Type 0 where
  pub ready : Bool
  pub finished : Bool
  pub proc_ready : Bool
  pub evbuf : List ℕ
  pub file : List ℕ
  pub readings : ℕ
  pub writes : ℕ

pub data RtError : Type 0 where
  thread_not_ready proc_not_ready write_failed payload_not_empty payload_failed : RtError
  thread_finished bad_tid event_too_large out_of_fuel : RtError

-- The system calls: the n-th reading of the clock, and how many bytes of the buffer the n-th `write`
-- takes (`none` for an error).
pub record Os : Type 0 where
  pub clock_now : ℕ → ℕ
  pub write : ℕ → List ℕ → Option ℕ

-- What POSIX says of `write` to a regular file that has room: it takes at least one byte of a buffer
-- that has one, and no more than it is given.
pub record IsOs (os : Os) : Type 0 where
  pub writes_some :
      (n : ℕ) (b : ℕ) (bs : List ℕ)
      → (k : ℕ) × (os.write n (b ∷ bs) ≡ some k) × (0 < k) × (k ≤ length (b ∷ bs))
  pub writes_none : (n : ℕ) → os.write n [] ≡ some 0

-- "ovni", and OVNI_STREAM_VERSION.
abbrev pub stream_header : List ℕ
stream_header = b'o' ∷ b'v' ∷ b'n' ∷ b'i' ∷ 1 ∷ 0 ∷ 0 ∷ 0 ∷ []

-- "OF[" and "OF]"
abbrev pub flush_ev : ℕ → ℕ → Ev
flush_ev v clock = record zero_ev { model = b'O'; category = b'F'; value = v; clock = clock }

abbrev pub copy_in : List ℕ → Rthread → Rthread
copy_in bs st = record st { evbuf = st.evbuf ++ bs }

-- The `size` bytes that `memcpy` takes from the event.
abbrev pub ev_bytes : Ev → List ℕ
ev_bytes ev = take (to_size_t (ovni_ev_size ev)) (ev_memory ev)

-- `ev->header.flags |= OVNI_EV_JUMBO`
unfoldable pub mark_jumbo : Ev → Ev
mark_jumbo ev = record ev { flags = if is_jumbo ev.flags then ev.flags else ev.flags + 16 }

-- How deep `ovni_ev_add` and `add_flush_events` call one another.
abbrev pub add_depth : ℕ
add_depth = 2

module _ (os : Os) where
  abbrev pub now : Rthread → ℕ
  now st = os.clock_now st.readings

  abbrev pub read_clock : Rthread → Rthread
  read_clock st = record st { readings = st.readings + 1 }

  -- The `do` loop, with fuel.
  unfoldable pub write_evbuf : ℕ → List ℕ → Rthread → Result RtError Rthread
  write_evbuf zero buf st = err out_of_fuel
  write_evbuf (suc f) buf st = elim (os.write st.writes buf) [
    | none ↦ err write_failed
    | some written ↦
        let st' = record st { file = st.file ++ take written buf; writes = st.writes + 1 } in
        elim (length buf - written == 0) [
          | true ↦ ok st'
          | false ↦ write_evbuf f (drop written buf) st'
        ]
  ]

  unfoldable pub flush_evbuf : Rthread → Result RtError Rthread
  flush_evbuf st = do
    st' ← write_evbuf (length st.evbuf + 1) st.evbuf st
    ok (record st' { evbuf = [] })

  unfoldable pub write_stream_header : Rthread → Result RtError Rthread
  unfolding flush_evbuf
  write_stream_header st = flush_evbuf (record st { evbuf = stream_header })

  -- The flush that makes room, between two readings of the clock, which it returns.
  unfoldable pub timed_flush : Rthread → Result RtError (ℕ × ℕ × Rthread)
  timed_flush st = do
    let t0 = now st
    st' ← flush_evbuf (read_clock st)
    ok (t0, now st', read_clock st')

  unfoldable pub add_flush_events :
      (Ev → Rthread → Result RtError Rthread) → ℕ → ℕ → Rthread → Result RtError Rthread
  add_flush_events add t0 t1 st = add (flush_ev b'[' t0) st >>= add (flush_ev b']' t1)

  -- The `size` bytes `bs` of an event go into the buffer, after a flush where they do not fit; the
  -- flush events come after them.
  unfoldable pub add_bytes :
      (Ev → Rthread → Result RtError Rthread) → ℕ → List ℕ → Rthread → Result RtError Rthread
  unfolding add_flush_events timed_flush
  add_bytes add size bs st =
      if leb max_ev_buf (length st.evbuf + size)
      then (timed_flush st >>= λ (t0, t1, st'). add_flush_events add t0 t1 (copy_in bs st'))
      else ok (copy_in bs st)

  unfoldable pub ovni_ev_add : ℕ → Ev → Rthread → Result RtError Rthread
  ovni_ev_add zero ev st = err out_of_fuel
  ovni_ev_add (suc f) ev st =
      let added = add_bytes (ovni_ev_add f) (to_size_t (ovni_ev_size ev)) (ev_bytes ev) st in
      if not st.ready then err thread_not_ready else added

  -- The size of the buffer goes into the payload before the jumbo flag is set.
  unfoldable pub ovni_ev_add_jumbo : Ev → List ℕ → Rthread → Result RtError Rthread
  unfolding mark_jumbo
  ovni_ev_add_jumbo ev buf st = do
    fail_if (not st.ready) thread_not_ready
    fail_if (not (eq_ℤ (ovni_payload_size ev) (pos 0))) payload_not_empty
    sized ← or_err payload_failed (ovni_payload_add ev (le_bytes 4 (length buf)))
    let evsize = to_size_t (ovni_ev_size sized)
    fail_if (leb max_ev_buf (evsize + length buf)) event_too_large
    add_bytes (ovni_ev_add add_depth) (evsize + length buf)
        (take evsize (ev_memory (mark_jumbo sized)) ++ buf) st

  unfoldable pub ovni_ev_emit : Ev → Rthread → Result RtError Rthread
  ovni_ev_emit ev st = ovni_ev_add add_depth ev st

  unfoldable pub ovni_ev_jumbo_emit : Ev → List ℕ → Rthread → Result RtError Rthread
  ovni_ev_jumbo_emit ev buf st = ovni_ev_add_jumbo ev buf st

  unfoldable pub ovni_flush : Rthread → Result RtError Rthread
  ovni_flush st = do
    fail_if (not st.ready) thread_not_ready
    fail_if (not st.proc_ready) proc_not_ready
    (t0, t1, st') ← timed_flush st
    add_flush_events (ovni_ev_add add_depth) t0 t1 st'

  -- `ovni_thread_init`, without the directory, the new and empty file, and the metadata; `true` stands
  -- for a `tid` of 0.
  unfoldable pub ovni_thread_init : Bool → Rthread → Result RtError Rthread
  unfolding write_stream_header
  ovni_thread_init zero_tid st = if st.ready then ok st else do
    fail_if st.finished thread_finished
    fail_if zero_tid bad_tid
    fail_if (not st.proc_ready) proc_not_ready
    st' ← write_stream_header (record st { evbuf = []; file = [] })
    ok (record st' { ready = true })

  -- `ovni_thread_free`, without the metadata. It does not write what waits in the buffer.
  unfoldable pub ovni_thread_free : Rthread → Result RtError Rthread
  ovni_thread_free st = do
    fail_if st.finished thread_finished
    fail_if (not st.ready) thread_not_ready
    ok (record st { evbuf = []; finished = true; ready = false })
