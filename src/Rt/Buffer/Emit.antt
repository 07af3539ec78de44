-- ===== src/Rt/Buffer/Emit.antt =====
-- What `ovni_ev_emit` and `ovni_ev_jumbo_emit` of src/rt/ovni.c add to the stream of a thread.
use ovni.Prelude.{
  ℕ, suc, ◌+◌, ◌≤◌, ◌<◌, ◌≡◌, refl, sym, ◌∙◌, ◌⊎◌, true, false, List, [], ◌++◌, length,
  if◌then◌else◌, leb, ok, arith, Bool-cases, inl, inr, length-append, length-take,
}
use mathlib.Core.List.{append_assoc, append-nil}
use ovni.Rt.Bytes.{le_bytes, length-le_bytes, to_size_t}
use ovni.Rt.Event.{Ev, IsEv, is_jumbo, ovni_payload_size, ovni_ev_size, ev_memory}
use ovni.Rt.Buffer.{
  Rthread, Os, IsOs, max_ev_buf, flush_ev, copy_in, ev_bytes, add_bytes, add_flush_events,
  ovni_ev_add, ovni_ev_emit,
}
use ovni.Rt.Buffer.Flush.{timed_flush_all, Flushed}

-- The stream so far: what is in the file, and what waits in the buffer.
abbrev pub stream : Rthread → List ℕ
stream st = st.file ++ st.evbuf

-- Ready, and with room in the buffer.
pub record IsOpen (st : Rthread) : Type 0 where
  pub is_ready : st.ready ≡ true
  pub has_room : length st.evbuf < max_ev_buf

ev_size_bounds :
    (ev : Ev)
    → is_jumbo ev.flags ≡ false
    → (12 ≤ to_size_t (ovni_ev_size ev)) × (to_size_t (ovni_ev_size ev) ≤ 28)
unfolding ovni_ev_size ovni_payload_size
ev_size_bounds ev j = ground arith

pub length-ev_bytes :
    (ev : Ev)
    → IsEv ev
    → is_jumbo ev.flags ≡ false
    → length (ev_bytes ev) ≡ to_size_t (ovni_ev_size ev)
unfolding ev_memory
length-ev_bytes ev w j = length-take (to_size_t (ovni_ev_size ev)) _ (
    omega (
      arith,
      ev_size_bounds ev j,
      length-append (le_bytes 8 ev.clock) ev.payload,
      length-le_bytes 8 ev.clock,
      w.payload_room,
    ))

pub flush_ev_size : (v t : ℕ) → to_size_t (ovni_ev_size (flush_ev v t)) ≡ 12
unfolding ovni_ev_size
flush_ev_size v t = refl

pub length-flush_ev : (v t : ℕ) → length (ev_bytes (flush_ev v t)) ≡ 12
unfolding ovni_ev_size ev_memory le_bytes
length-flush_ev v t = refl

module _ (os : Os) where
  -- The two flush events of a flush that begins at the n-th reading of the clock.
  abbrev pub marks : ℕ → List ℕ
  marks n =
      ev_bytes (flush_ev b'[' (os.clock_now n)) ++ ev_bytes (flush_ev b']' (os.clock_now (n + 1)))

  -- Those that an event of `size` bytes brings with it.
  abbrev pub marks_for : ℕ → Rthread → List ℕ
  marks_for size st = if leb max_ev_buf (length st.evbuf + size) then marks st.readings else []

  pub add_fits :
      (f : ℕ) (ev : Ev) (st : Rthread)
      → st.ready ≡ true
      → length st.evbuf + to_size_t (ovni_ev_size ev) < max_ev_buf
      → ovni_ev_add os (suc f) ev st ≡ ok (copy_in (ev_bytes ev) st)
  unfolding ovni_ev_add add_bytes
  add_fits f ev st r h = ground arith

  pub add_step :
      (f : ℕ) (ev : Ev) (st : Rthread)
      → st.ready ≡ true
      → ovni_ev_add os (suc f) ev st
        ≡ add_bytes os (ovni_ev_add os f) (to_size_t (ovni_ev_size ev)) (ev_bytes ev) st
  unfolding ovni_ev_add
  add_step f ev st r = ground arith

  pub pair_fits :
      (f t0 t1 : ℕ) (st : Rthread)
      → st.ready ≡ true
      → length st.evbuf + 24 < max_ev_buf
      → add_flush_events os (ovni_ev_add os (suc f)) t0 t1 st
        ≡ ok (copy_in (ev_bytes (flush_ev b']' t1)) (copy_in (ev_bytes (flush_ev b'[' t0)) st))
  unfolding add_flush_events ovni_ev_size
  pair_fits f t0 t1 st r h =
      rw (add_fits f (flush_ev b'[' t0) st r (rw (flush_ev_size b'[' t0) (omega arith))) (
        add_fits f (flush_ev b']' t1) (copy_in (ev_bytes (flush_ev b'[' t0)) st) r (
          rw (flush_ev_size b']' t1) (
            omega (
              arith,
              length-append st.evbuf (ev_bytes (flush_ev b'[' t0)),
              length-flush_ev b'[' t0,
            ))))

  -- What adding `bs` leaves: `bs` and then `extra` at the end of the stream.
  pub record Added (bs extra : List ℕ) (st st' : Rthread) : Type 0 where
    pub appended : stream st' ≡ stream st ++ (bs ++ extra)
    pub still_open : IsOpen st'
    pub same_proc : st'.proc_ready ≡ st.proc_ready
    pub same_finished : st'.finished ≡ st.finished
    pub level : (extra ≡ []) ⊎ (length st'.evbuf ≡ length bs + length extra)

  copy_in-Added :
      (bs : List ℕ) (st : Rthread)
      → st.ready ≡ true
      → length st.evbuf + length bs < max_ev_buf
      → Added bs [] st (copy_in bs st)
  copy_in-Added bs st r h = record {
    appended = rw (append-nil bs) (sym (append_assoc st.file st.evbuf bs));
    still_open = record { is_ready = r; has_room = omega (arith, length-append st.evbuf bs) };
    same_proc = refl;
    same_finished = refl;
    level = inl refl;
  }

  level_lem :
      (bs : List ℕ) (t0 t1 u0 u1 : ℕ)
      → length ((bs ++ ev_bytes (flush_ev b'[' t0)) ++ ev_bytes (flush_ev b']' t1))
        ≡ length bs + length (ev_bytes (flush_ev b'[' u0) ++ ev_bytes (flush_ev b']' u1))
  level_lem bs t0 t1 u0 u1 = omega (
    arith,
    length-append (bs ++ ev_bytes (flush_ev b'[' t0)) (ev_bytes (flush_ev b']' t1)),
    length-append bs (ev_bytes (flush_ev b'[' t0)),
    length-append (ev_bytes (flush_ev b'[' u0)) (ev_bytes (flush_ev b']' u1)),
    length-flush_ev b'[' t0,
    length-flush_ev b']' t1,
    length-flush_ev b'[' u0,
    length-flush_ev b']' u1,
  )

  pub flush_then-Added :
      (bs : List ℕ) (t0 t1 : ℕ) (st mid : Rthread)
      → IsOpen st
      → Flushed os st t0 t1 mid
      → length bs + 24 < max_ev_buf
      → Added bs (marks st.readings) st (
          copy_in
            (ev_bytes (flush_ev b']' t1))
            (copy_in (ev_bytes (flush_ev b'[' t0)) (copy_in bs mid)))
  flush_then-Added bs t0 t1 st mid o f h = record {
    appended = rw (f.moved, f.empty, f.first, f.second) (simp append_assoc);
    still_open = record {
      is_ready = f.still_ready ∙ o.is_ready;
      has_room = rw f.empty (
          omega (
            arith,
            length-append (bs ++ ev_bytes (flush_ev b'[' t0)) (ev_bytes (flush_ev b']' t1)),
            length-append bs (ev_bytes (flush_ev b'[' t0)),
            length-flush_ev b'[' t0,
            length-flush_ev b']' t1,
          ));
    };
    same_proc = f.still_proc;
    same_finished = f.still_finished;
    level = inr (
        rw f.empty
          (level_lem bs t0 t1 (os.clock_now st.readings) (os.clock_now (st.readings + 1))));
  }

module _ (os : Os) (v : IsOs os) where
  pub add_bytes_lem :
      (f size : ℕ) (bs : List ℕ) (st : Rthread)
      → IsOpen st
      → length bs ≡ size
      → length bs + 24 < max_ev_buf
      → (st' : Rthread) × (add_bytes os (ovni_ev_add os (suc f)) size bs st ≡ ok st')
        × Added os bs (marks_for os size st) st st'
  unfolding add_bytes
  add_bytes_lem f size bs st o e h = elim (Bool-cases (leb max_ev_buf (length st.evbuf + size))) [
    | inl full ↦
        let (t0, t1, mid, r, fl) = timed_flush_all os v st in
        let room = flush_then-Added os bs t0 t1 st mid o fl h in
        (
          copy_in (ev_bytes (flush_ev b']' t1))
              (copy_in (ev_bytes (flush_ev b'[' t0)) (copy_in bs mid)),
          rw full (
              rw r (
                pair_fits os f t0 t1 (copy_in bs mid) (fl.still_ready ∙ o.is_ready)
                  (rw fl.empty (omega arith)))),
          rw full room,
        )
    | inr fits ↦
        (copy_in bs st, rw fits, rw fits (copy_in-Added os bs st o.is_ready (ground arith)))
  ]

  -- Emitting a normal event on a ready thread always succeeds, whatever the state of the buffer, and
  -- leaves it open again. The stream of the thread grows by the bytes of the event and, where the
  -- event needed a flush, by the two flush events after it; nothing that was written before changes.
  pub emit_appends :
      (ev : Ev) (st : Rthread)
      → IsOpen st
      → IsEv ev
      → is_jumbo ev.flags ≡ false
      → (st' : Rthread) × (ovni_ev_emit os ev st ≡ ok st')
        × Added os (ev_bytes ev) (marks_for os (to_size_t (ovni_ev_size ev)) st) st st'
  unfolding ovni_ev_emit
  emit_appends ev st o w j =
      let size = to_size_t (ovni_ev_size ev) in
      let (st', r, added) =
        add_bytes_lem 0 size (ev_bytes ev) st o (length-ev_bytes ev w j)
          (omega (arith, length-ev_bytes ev w j, ev_size_bounds ev j)) in
      (st', add_step os 1 ev st o.is_ready ∙ r, added)
