-- ===== src/Rt/Buffer/Nested.antt =====
-- The case of `add_flush_events` of src/rt/ovni.c in which the flush events need a flush themselves.
use ovni.Prelude.{
  ℕ, ◌+◌, ◌≤◌, ◌<◌, ◌≡◌, sym, ◌∙◌, ap, true, List, [], ◌++◌, length, leb, ok, arith, inl, inr,
  length-append,
}
use mathlib.Core.List.{append_assoc, append-nil}
use ovni.Rt.Event.{Ev, ovni_ev_size}
use ovni.Rt.Buffer.{
  Rthread, Os, IsOs, max_ev_buf, flush_ev, copy_in, ev_bytes, add_bytes, add_flush_events,
  ovni_ev_add, ovni_ev_jumbo_emit, add_depth,
}
use ovni.Rt.Buffer.Flush.{timed_flush_all}
use ovni.Rt.Buffer.Emit.{
  IsOpen, Added, marks, marks_for, add_bytes_lem, stream, add_step, length-flush_ev,
}
use ovni.Rt.Buffer.Jumbo.{IsEmpty, jumbo_bytes, length-jumbo_bytes, jumbo_step}

module _ (os : Os) (v : IsOs os) where
  -- One flush event, whatever room there is.
  add_mark :
      (c t : ℕ) (st : Rthread)
      → IsOpen st
      → (st' : Rthread) × (ovni_ev_add os add_depth (flush_ev c t) st ≡ ok st')
        × Added os (ev_bytes (flush_ev c t)) (marks_for os 12 st) st st'
  unfolding ovni_ev_size
  add_mark c t st o =
      let (st', r, a) =
        add_bytes_lem os v 0 12 (ev_bytes (flush_ev c t)) st o (length-flush_ev c t)
          (omega (arith, length-flush_ev c t)) in
      (st', add_step os 1 (flush_ev c t) st o.is_ready ∙ r, a)

  length-marks : (n : ℕ) → length (marks os n) ≡ 24
  length-marks n = omega (
    arith,
    length-append (ev_bytes (flush_ev b'[' (os.clock_now n)))
        (ev_bytes (flush_ev b']' (os.clock_now (n + 1)))),
    length-flush_ev b'[' (os.clock_now n),
    length-flush_ev b']' (os.clock_now (n + 1)),
  )

  mid_level :
      (bs : List ℕ) (st mid : Rthread)
      → length bs ≡ 12
      → max_ev_buf ≤ length st.evbuf + 12
      → Added os bs (marks_for os 12 st) st mid
      → length mid.evbuf ≡ 36
  mid_level bs st mid n full a =
      let first : marks_for os 12 st ≡ marks os st.readings = ground arith in
      elim a.level [
        | inl e ↦ absurd (omega (arith, length-marks st.readings, ap length (sym first ∙ e)))
        | inr e ↦ omega (arith, n, length-marks st.readings, ap length first, e)
      ]

  -- The two marks of a flush at the readings n and n + 1, added where the first one does not fit.
  nested_pair :
      (t0 t1 : ℕ) (st : Rthread)
      → IsOpen st
      → max_ev_buf ≤ length st.evbuf + 12
      → (st' : Rthread) × (add_flush_events os (ovni_ev_add os add_depth) t0 t1 st ≡ ok st')
        × (stream st'
            ≡ stream st
              ++ (ev_bytes (flush_ev b'[' t0)
                  ++ (marks os st.readings ++ ev_bytes (flush_ev b']' t1))))
  unfolding add_flush_events
  nested_pair t0 t1 st o full =
      let (mid, r, a) = add_mark b'[' t0 st o in
      let (st', r', a') = add_mark b']' t1 mid a.still_open in
      let first : marks_for os 12 st ≡ marks os st.readings = ground arith in
      let level = mid_level (ev_bytes (flush_ev b'[' t0)) st mid (length-flush_ev b'[' t0) full a in
      let second : marks_for os 12 mid ≡ [] = ground arith in
      (
        st',
        rw r r',
        rw (a'.appended, a.appended) (rw (first, second, append-nil) (simp append_assoc)),
      )

  -- A jumbo event of 12 to 1 bytes below the size of the buffer, added where it needs a flush: its
  -- flush events do not fit behind it, so a second flush happens in between. The stream then has the
  -- end of the first flush (reading n + 1 of the clock) after the second flush (readings n + 2 and
  -- n + 3), so that the clock of the stream goes backwards if the clock advances.
  pub nested_flush_order :
      (ev : Ev) (buf : List ℕ) (st : Rthread)
      → IsOpen st
      → IsEmpty ev
      → 16 + length buf < max_ev_buf
      → max_ev_buf ≤ 28 + length buf
      → max_ev_buf ≤ length st.evbuf + (16 + length buf)
      → (st' : Rthread) × (ovni_ev_jumbo_emit os ev buf st ≡ ok st')
        × (stream st'
            ≡ stream st
              ++ (jumbo_bytes ev buf
                  ++ (ev_bytes (flush_ev b'[' (os.clock_now st.readings))
                      ++ (marks os (st.readings + 2)
                          ++ ev_bytes (flush_ev b']' (os.clock_now (st.readings + 1)))))))
  unfolding add_bytes
  nested_flush_order ev buf st o e fits tight full =
      let size = 16 + length buf in
      let needs : leb max_ev_buf (length st.evbuf + size) ≡ true = ground arith in
      let (t0, t1, mid, r, fl) = timed_flush_all os v st in
      let filled = copy_in (jumbo_bytes ev buf) mid in
      let open' : IsOpen filled = record {
        is_ready = fl.still_ready ∙ o.is_ready;
        has_room = rw fl.empty (omega (arith, length-jumbo_bytes ev buf));
      } in
      let (st', r', s) =
        nested_pair t0 t1 filled open' (rw fl.empty (omega (arith, length-jumbo_bytes ev buf))) in
      (
        st',
        jumbo_step os v ev buf st o.is_ready e (omega arith) ∙ rw needs (rw r r'),
        s ∙ rw (fl.moved, fl.empty, fl.two_readings) (rw (fl.first, fl.second) (simp append_assoc)),
      )
