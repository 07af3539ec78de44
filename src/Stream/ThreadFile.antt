-- ===== src/Stream/ThreadFile.antt =====
-- The life of a thread in src/rt/ovni.c, and the file that it leaves for src/emu/stream.c.
use ovni.Prelude.{
  ℕ, ◌+◌, ◌^◌, ◌<◌, ◌≡◌, refl, sym, subst, ◌∙◌, ap, true, false, some, List, [], ◌∷◌, ◌++◌, map,
  length, arith, Result, ok, ◌>>=◌,
}
use mathlib.Core.List.{append-nil}
use ovni.Prelude.Int.{ℤ, pos, negsuc, ◌+ℤ◌, ◌-ℤ◌}
use ovni.Rt.Bytes.{to_int64, IsInt64}
use ovni.Rt.Buffer.{
  Rthread, RtError, Os, IsOs, stream_header, ovni_flush, timed_flush, add_flush_events, ovni_ev_add,
  add_depth, ovni_thread_init, ovni_thread_free, flush_evbuf, write_evbuf, copy_in, ev_bytes,
  flush_ev,
}
use ovni.Rt.Buffer.Emit.{IsOpen, stream, pair_fits}
use ovni.Rt.Buffer.Flush.{timed_flush_all, write_evbuf_all}
use ovni.Stream.{load_obs}
use ovni.Stream.Items.{Item, event, items_bytes}
use ovni.Stream.Reading.{AllItems, read_all, item_seen, InOrder, ClocksFit}
use ovni.Stream.Roundtrip.{opened, read-written}
use ovni.Stream.Emitted.{
  emit_all, AllFit, IsClock, IsClockBelow, AreBelow, WithFlushes, emit_all-Emitted,
}

-- Before `ovni_thread_init`, in a process that is ready.
pub record IsFresh (st : Rthread) : Type 0 where
  pub not_ready : st.ready ≡ false
  pub not_finished : st.finished ≡ false
  pub proc_is_ready : st.proc_ready ≡ true

-- An offset from -(2 ^ 62) to 2 ^ 62 - 1.
abbrev pub IsOffset : ℤ → Type 0
IsOffset (pos n) = n < 2 ^ 62
IsOffset (negsuc n) = n < 2 ^ 62

-- Initialise the thread, emit the events, flush, and free it.
unfoldable pub thread_life : Os → List Item → Rthread → Result RtError Rthread
thread_life os its st = do
  st1 ← ovni_thread_init os false st
  st2 ← emit_all os its st1
  st3 ← ovni_flush os st2
  ovni_thread_free os st3

unsorted-InOrder : (off : ℤ) (its : List Item) (last : ℤ) → InOrder true off last its
unsorted-InOrder off [] last = tt
unsorted-InOrder off (it ∷ its) last = (refl, unsorted-InOrder off its _)

-- Clocks below 2 ^ 62 fit with an offset of at most 2 ^ 62 in size.
sum_fits :
    (clock : ℕ) (off : ℤ)
    → clock < 2 ^ 62
    → IsOffset off
    → IsInt64 (to_int64 clock +ℤ off) × IsInt64 (to_int64 clock +ℤ off -ℤ pos 0)
unfolding ◌+ℤ◌ ◌-ℤ◌
sum_fits clock (pos n) h k = (ground arith, ground arith)
sum_fits clock (negsuc n) h k = (ground arith, ground arith)

delta_fits :
    (a b : ℕ) (off : ℤ)
    → a < 2 ^ 62
    → b < 2 ^ 62
    → IsInt64 (to_int64 a +ℤ off -ℤ (to_int64 b +ℤ off))
unfolding ◌+ℤ◌ ◌-ℤ◌
delta_fits a b (pos n) h k = ground arith
delta_fits a b (negsuc n) h k = ground arith

rest-ClocksFit :
    (off : ℤ) (b : ℕ) (its : List Item)
    → IsOffset off
    → b < 2 ^ 62
    → AreBelow (2 ^ 62) its
    → ClocksFit off (to_int64 b +ℤ off) its
rest-ClocksFit off b [] o k h = tt
rest-ClocksFit off b (it ∷ its) o k (h, hs) = (
  (sum_fits (event it).clock off h o).0,
  delta_fits (event it).clock b off h k,
  rest-ClocksFit off (event it).clock its o h hs,
)

below-ClocksFit :
    (off : ℤ) (its : List Item) → IsOffset off → AreBelow (2 ^ 62) its → ClocksFit off (pos 0) its
below-ClocksFit off [] o h = tt
below-ClocksFit off (it ∷ its) o (h, hs) =
    let (fits, delta) = sum_fits (event it).clock off h o in
    (fits, delta, rest-ClocksFit off (event it).clock its o h hs)

WithFlushes-cons :
    (it : Item) (its : List Item) {out : List Item}
    → WithFlushes (it ∷ its) out
    → (o : Item) × (os : List Item) × (out ≡ o ∷ os)
WithFlushes-cons it its (WithFlushes.keep it' {out = out} w) = (it', out, refl)
WithFlushes-cons it its (WithFlushes.flush t0 t1 {out = out} w) = (_, _, refl)

module _ (os : Os) (v : IsOs os) where
  init_with :
      (st mid : Rthread)
      → IsFresh st
      → write_evbuf os 9 stream_header (record st { evbuf = stream_header; file = [] }) ≡ ok mid
      → ovni_thread_init os false st ≡ ok (record mid { evbuf = []; ready = true })
  unfolding ovni_thread_init flush_evbuf
  init_with st mid f r = ground arith

  init_lem :
      (st : Rthread)
      → IsFresh st
      → (st1 : Rthread) × (ovni_thread_init os false st ≡ ok st1)
        × IsOpen st1
        × (st1.file ≡ stream_header)
        × (st1.evbuf ≡ [])
        × (st1.proc_ready ≡ true)
        × (st1.finished ≡ false)
  init_lem st f =
      let (mid, r, file, kept) =
        write_evbuf_all os v 9 stream_header (record st { evbuf = stream_header; file = [] })
          (omega arith) in
      (
        record mid { evbuf = []; ready = true },
        init_with st mid f r,
        record { is_ready = refl; has_room = omega arith },
        file,
        refl,
        kept.same_proc ∙ f.proc_is_ready,
        kept.same_finished ∙ f.not_finished,
      )

  flush_step :
      (st : Rthread)
      → st.ready ≡ true
      → st.proc_ready ≡ true
      → ovni_flush os st ≡ (
          timed_flush os st >>= λ (t0, t1, st').
          add_flush_events os (ovni_ev_add os add_depth) t0 t1 st')
  unfolding ovni_flush
  flush_step st r p = ground arith

  -- The final flush moves the whole stream to the file; its flush events stay in the buffer.
  final_flush :
      (st : Rthread)
      → IsOpen st
      → st.proc_ready ≡ true
      → (st' : Rthread) × (ovni_flush os st ≡ ok st')
        × (st'.file ≡ stream st)
        × (st'.ready ≡ true)
        × (st'.finished ≡ st.finished)
  final_flush st o p =
      let (t0, t1, mid, r, fl) = timed_flush_all os v st in
      (
        copy_in (ev_bytes (flush_ev b']' t1)) (copy_in (ev_bytes (flush_ev b'[' t0)) mid),
        flush_step st o.is_ready p
            ∙ rw r (
                pair_fits os 1 t0 t1 mid (fl.still_ready ∙ o.is_ready) (rw fl.empty (omega arith))),
        fl.moved,
        fl.still_ready ∙ o.is_ready,
        fl.still_finished,
      )

  free_step :
      (st : Rthread)
      → st.ready ≡ true
      → st.finished ≡ false
      → ovni_thread_free os st ≡ ok (record st { evbuf = []; finished = true; ready = false })
  unfolding ovni_thread_free
  free_step st r f = ground arith

  file_written :
      (it : Item) (its out : List Item) (file : List ℕ) (off : ℤ)
      → WithFlushes (it ∷ its) out
      → AllItems out
      → IsOffset off
      → AreBelow (2 ^ 62) out
      → file ≡ stream_header ++ items_bytes out
      → (load_obs file ≡ ok (opened false (pos 0) file))
        × (read_all (length out + 1) (opened true off file) ≡ some (ok (map (item_seen off) out)))
  file_written it its out file off w a k b e =
      let (o, rest, split) = WithFlushes-cons it its w in
      let read =
        read-written o rest true off (subst AllItems split a)
          (unsorted-InOrder off (o ∷ rest) (pos 0))
          (subst (ClocksFit off (pos 0)) split (below-ClocksFit off out k b)) in
      let full : file ≡ stream_header ++ items_bytes (o ∷ rest) =
        e ∙ ap (λ l. stream_header ++ items_bytes l) split in
      (
        subst (λ l. load_obs l ≡ ok (opened false (pos 0) l)) (sym full) read.0,
        subst
            (λ l.
              read_all (length l + 1) (opened true off file) ≡ some (ok (map (item_seen off) l)))
            (sym split)
            (subst
              (λ l.
                read_all (length (o ∷ rest) + 1) (opened true off l)
                ≡ some (ok (map (item_seen off) (o ∷ rest))))
              (sym full) read.1),
      )

  -- Where `write` takes at least one byte, the clock and the clocks of the events are below 2 ^ 62, and the
  -- offset is from -(2 ^ 62) to 2 ^ 62 - 1, so that no sum or difference of clocks overflows: a fresh thread of a
  -- ready process that is initialised, emits one or more valid events that fit, flushes and is freed
  -- ends without an error, and the file that it leaves is a valid stream, which shows its events,
  -- complete and in order, with nothing but pairs of flush events in between. (The reader allows
  -- unsorted clocks, since the caller chooses the clocks of the events.)
  pub thread_file :
      (it : Item) (its : List Item) (st : Rthread) (off : ℤ)
      → IsClockBelow (2 ^ 62) os
      → IsFresh st
      → AllFit (it ∷ its)
      → AreBelow (2 ^ 62) (it ∷ its)
      → IsOffset off
      → (st' : Rthread) × (out : List Item) × (thread_life os (it ∷ its) st ≡ ok st')
        × WithFlushes (it ∷ its) out
        × (load_obs st'.file ≡ ok (opened false (pos 0) st'.file))
        × (read_all (length out + 1) (opened true off st'.file)
            ≡ some (ok (map (item_seen off) out)))
  unfolding thread_life
  thread_file it its st off below f fit clocks k =
      let c : IsClock os = λ n. omega (arith, below n) in
      let (st1, r1, open1, file1, empty1, proc1, fin1) = init_lem st f in
      let (st2, out, r2, e) = emit_all-Emitted os v (it ∷ its) st1 c fit open1 in
      let (st3, r3, file3, ready3, fin3) = final_flush st2 e.still_open (e.same_proc ∙ proc1) in
      let start : stream st1 ≡ stream_header = rw (file1, empty1) (append-nil stream_header) in
      let written : st3.file ≡ stream_header ++ items_bytes out =
        file3 ∙ e.grown ∙ ap (λ l. l ++ items_bytes out) start in
      let (loads, reads) =
        file_written it its out st3.file off e.in_order e.all_items k
          (e.are_below (2 ^ 62) below clocks) written in
      (
        record st3 { evbuf = []; finished = true; ready = false },
        out,
        rw (r1, r2, r3) (free_step st3 ready3 (fin3 ∙ e.same_finished ∙ fin1)),
        e.in_order,
        loads,
        reads,
      )
