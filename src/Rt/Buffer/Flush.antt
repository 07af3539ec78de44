-- ===== src/Rt/Buffer/Flush.antt =====
-- `write_evbuf`, `flush_evbuf` and the timed flush of src/rt/ovni.c, from a buffer to the file.
use ovni.Prelude.{
  ℕ, zero, suc, ◌+◌, ◌-◌, ◌<◌, ◌≡◌, refl, ◌∙◌, ap, List, [], ◌∷◌, ◌++◌, length, take, drop, ◌==◌,
  ok, arith, length-drop, take_all, take-append-drop, inl, inr, Bool-cases,
}
use mathlib.Core.List.{append_assoc}
use ovni.Rt.Buffer.{Rthread, Os, IsOs, write_evbuf, flush_evbuf, timed_flush}

-- What a flush leaves alone.
pub record Kept (st st' : Rthread) : Type 0 where
  pub same_ready : st'.ready ≡ st.ready
  pub same_proc : st'.proc_ready ≡ st.proc_ready
  pub same_finished : st'.finished ≡ st.finished
  pub same_readings : st'.readings ≡ st.readings

module _ (os : Os) where
  -- What a timed flush leaves: the bytes of the buffer have moved to the file, in order, and the
  -- clock has been read before and after.
  pub record Flushed (st : Rthread) (t0 t1 : ℕ) (st' : Rthread) : Type 0 where
    pub first : t0 ≡ os.clock_now st.readings
    pub second : t1 ≡ os.clock_now (st.readings + 1)
    pub empty : st'.evbuf ≡ []
    pub moved : st'.file ≡ st.file ++ st.evbuf
    pub still_ready : st'.ready ≡ st.ready
    pub still_proc : st'.proc_ready ≡ st.proc_ready
    pub still_finished : st'.finished ≡ st.finished
    pub two_readings : st'.readings ≡ st.readings + 2

module _ (os : Os) (v : IsOs os) where
  pub write_evbuf_all :
      (f : ℕ) (buf : List ℕ) (st : Rthread)
      → length buf < f
      → (st' : Rthread) × (write_evbuf os f buf st ≡ ok st')
        × (st'.file ≡ st.file ++ buf)
        × Kept st st'
  unfolding write_evbuf
  write_evbuf_all zero buf st h = absurd (omega arith)
  write_evbuf_all (suc f) [] st h = (
    record st { file = st.file ++ take 0 []; writes = st.writes + 1 },
    rw (v.writes_none st.writes, write_evbuf),
    refl,
    record { same_ready = refl; same_proc = refl; same_finished = refl; same_readings = refl },
  )
  write_evbuf_all (suc f) (b ∷ bs) st h =
      let buf = b ∷ bs in
      let (k, e, some_written, fits) = v.writes_some st.writes b bs in
      let st1 = record st { file = st.file ++ take k buf; writes = st.writes + 1 } in
      elim (Bool-cases (length buf - k == 0)) [
        | inl done ↦ (
          st1,
          rw (e, write_evbuf) (rw done),
          ap (◌++◌ st.file) (take_all k buf (ground arith)),
          record {
            same_ready = refl;
            same_proc = refl;
            same_finished = refl;
            same_readings = refl;
          },
        )
        | inr more ↦
            let (st', r, file, kept) =
              write_evbuf_all f (drop k buf) st1 (omega (arith, length-drop k buf)) in
            (
              st',
              rw (e, write_evbuf) (rw more r),
              file
                  ∙ append_assoc st.file (take k buf) (drop k buf)
                  ∙ ap (◌++◌ st.file) (take-append-drop k buf),
              record {
                same_ready = kept.same_ready;
                same_proc = kept.same_proc;
                same_finished = kept.same_finished;
                same_readings = kept.same_readings;
              },
            )
      ]

  pub timed_flush_all :
      (st : Rthread)
      → (t0 : ℕ) × (t1 : ℕ) × (st' : Rthread) × (timed_flush os st ≡ ok (t0, t1, st'))
        × Flushed os st t0 t1 st'
  unfolding timed_flush flush_evbuf
  timed_flush_all st =
      let (st', r, file, kept) =
        write_evbuf_all (length st.evbuf + 1) st.evbuf (record st { readings = st.readings + 1 })
          (omega arith) in
      (
        os.clock_now st.readings,
        os.clock_now st'.readings,
        record st' { evbuf = []; readings = st'.readings + 1 },
        rw r refl,
        ground (arith, kept),
      )
