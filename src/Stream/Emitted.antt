-- ===== src/Stream/Emitted.antt =====
-- From the calls of src/rt/ovni.c in a thread to what src/emu/stream.c shows of its file.
use ovni.Prelude.{
  ℕ, ◌+◌, ◌^◌, ◌<◌, ◌≡◌, refl, sym, subst, ◌∙◌, Bool, true, false, List, [], ◌∷◌, ◌++◌, length,
  arith, Result, ok, ◌>>=◌, leb, if◌then◌else◌,
}
use mathlib.Core.List.{append_assoc, append-nil}
use ovni.Rt.Bytes.{to_size_t, length-le_bytes}
use ovni.Rt.Event.{IsEv, ovni_ev_size}
use ovni.Rt.Buffer.{
  Rthread, RtError, Os, IsOs, max_ev_buf, flush_ev, ovni_ev_emit, ovni_ev_jumbo_emit, ev_bytes,
}
use ovni.Rt.Buffer.Emit.{IsOpen, Added, marks, emit_appends, stream}
use ovni.Rt.Buffer.Jumbo.{jumbo_appends}
use ovni.Stream.Items.{Item, normal, jumbo, event, item_bytes, items_bytes, IsItem}
use ovni.Stream.Reading.{AllItems}

-- One call for each event.
unfoldable pub emit : Os → Item → Rthread → Result RtError Rthread
emit os (normal ev) st = ovni_ev_emit os ev st
emit os (jumbo ev buf) st = ovni_ev_jumbo_emit os ev buf st

unfoldable pub emit_all : Os → List Item → Rthread → Result RtError Rthread
emit_all os [] st = ok st
emit_all os (it ∷ its) st = emit os it st >>= emit_all os its

-- A jumbo event leaves room in the buffer for two flush events.
abbrev pub Fits : Item → Type 0
Fits (normal ev) = Unit
Fits (jumbo ev buf) = length buf + 40 < max_ev_buf

abbrev pub AllFit : List Item → Type 0
AllFit [] = Unit
AllFit (it ∷ its) = IsItem it × Fits it × AllFit its

abbrev flush_item : ℕ → ℕ → Item
flush_item v t = normal (flush_ev v t)

-- The first list, with pairs of flush events in between.
pub data WithFlushes : List Item → List Item → Type 0 where
  done : WithFlushes [] []
  keep : (it : Item) {its out : List Item} → WithFlushes its out → WithFlushes (it ∷ its) (it ∷ out)
  flush :
      (t0 t1 : ℕ) {its out : List Item}
      → WithFlushes its out
      → WithFlushes its (flush_item b'[' t0 ∷ flush_item b']' t1 ∷ out)

-- The flush events of the n-th and the next reading of the clock, or none.
flushes : Os → ℕ → Bool → List Item
flushes os n true = flush_item b'[' (os.clock_now n) ∷ flush_item b']' (os.clock_now (n + 1)) ∷ []
flushes os n false = []

-- The clock returns 64-bit numbers.
abbrev pub IsClock : Os → Type 0
IsClock os = (n : ℕ) → os.clock_now n < 2 ^ 64

-- The clocks of the events, and the readings of the clock, are below a bound.
abbrev pub AreBelow : ℕ → List Item → Type 0
AreBelow b [] = Unit
AreBelow b (it ∷ its) = (event it).clock < b × AreBelow b its

abbrev pub IsClockBelow : ℕ → Os → Type 0
IsClockBelow b os = (n : ℕ) → os.clock_now n < b

flush_ev-IsEv : (v t : ℕ) → t < 2 ^ 64 → IsEv (flush_ev v t)
flush_ev-IsEv v t h = record {
  flags_byte = omega arith;
  clock_word = h;
  payload_room = length-le_bytes 16 0;
}

flushes-AllItems :
    (os : Os) (n : ℕ) (b : Bool) (its : List Item)
    → IsClock os
    → AllItems its
    → AllItems (flushes os n b ++ its)
unfolding flushes
flushes-AllItems os n false its c h = h
flushes-AllItems os n true its c h =
    ((flush_ev-IsEv b'[' _ (c n), refl), ((flush_ev-IsEv b']' _ (c (n + 1)), refl), h))

flushes-AreBelow :
    (os : Os) (n m : ℕ) (b : Bool) (its : List Item)
    → IsClockBelow m os
    → AreBelow m its
    → AreBelow m (flushes os n b ++ its)
unfolding flushes
flushes-AreBelow os n m false its c h = h
flushes-AreBelow os n m true its c h = (c n, (c (n + 1), h))

flushes-WithFlushes :
    (os : Os) (n : ℕ) (b : Bool) {its out : List Item}
    → WithFlushes its out
    → WithFlushes its (flushes os n b ++ out)
unfolding flushes
flushes-WithFlushes os n true w = flush (os.clock_now n) (os.clock_now (n + 1)) w
flushes-WithFlushes os n false w = w

marks-flushes :
    (os : Os) (n : ℕ) (b : Bool) → (if b then marks os n else []) ≡ items_bytes (flushes os n b)
unfolding flushes
marks-flushes os n true = rw append-nil
marks-flushes os n false = refl

items_bytes-append :
    (its out : List Item) → items_bytes (its ++ out) ≡ items_bytes its ++ items_bytes out
items_bytes-append [] out = refl
items_bytes-append (it ∷ its) out =
    rw (items_bytes-append its out)
      (sym (append_assoc (item_bytes it) (items_bytes its) (items_bytes out)))

module _ (os : Os) (v : IsOs os) where
  emit_item :
      (it : Item) (st : Rthread)
      → IsItem it
      → Fits it
      → IsOpen st
      → (st' : Rthread) × (b : Bool) × (emit os it st ≡ ok st')
        × Added os (item_bytes it) (items_bytes (flushes os st.readings b)) st st'
  unfolding emit
  emit_item (normal ev) st w f o =
      let (st', r, a) = emit_appends os v ev st o w.0 w.1 in
      let b = leb max_ev_buf (length st.evbuf + to_size_t (ovni_ev_size ev)) in
      (st', b, r, subst (λ l. Added os (ev_bytes ev) l st st') (marks-flushes os st.readings b) a)
  emit_item (jumbo ev buf) st w f o =
      let (st', r, a) = jumbo_appends os v ev buf st o w.0 f in
      let b = leb max_ev_buf (length st.evbuf + (16 + length buf)) in
      (
        st',
        b,
        r,
        subst (λ l. Added os (item_bytes (jumbo ev buf)) l st st') (marks-flushes os st.readings b)
            a,
      )

  -- What a thread emits, in the stream: its events in order, with pairs of flush events.
  pub record Emitted (its out : List Item) (st st' : Rthread) : Type 0 where
    pub in_order : WithFlushes its out
    pub all_items : AllItems out
    pub are_below : (m : ℕ) → IsClockBelow m os → AreBelow m its → AreBelow m out
    pub grown : stream st' ≡ stream st ++ items_bytes out
    pub still_open : IsOpen st'
    pub same_proc : st'.proc_ready ≡ st.proc_ready
    pub same_finished : st'.finished ≡ st.finished

  pub emit_all-Emitted :
      (its : List Item) (st : Rthread)
      → IsClock os
      → AllFit its
      → IsOpen st
      → (st' : Rthread) × (out : List Item) × (emit_all os its st ≡ ok st') × Emitted its out st st'
  unfolding emit_all
  emit_all-Emitted [] st c f o = (
    st,
    [],
    refl,
    record {
      in_order = done;
      all_items = tt;
      are_below = λ m k l. tt;
      grown = sym (append-nil (stream st));
      still_open = o;
      same_proc = refl;
      same_finished = refl;
    },
  )
  emit_all-Emitted (it ∷ its) st c (w, fit, f) o =
      let (mid, b, r, a) = emit_item it st w fit o in
      let (st', out, r', e) = emit_all-Emitted its mid c f a.still_open in
      let extra = flushes os st.readings b in
      (
        st',
        it ∷ (extra ++ out),
        rw r r',
        record {
          in_order = keep it (flushes-WithFlushes os st.readings b e.in_order);
          all_items = (w, flushes-AllItems os st.readings b out c e.all_items);
          are_below =
              λ m k (l, ls). (l, flushes-AreBelow os st.readings m b out k (e.are_below m k ls));
          grown = rw (e.grown, a.appended, items_bytes-append extra out) (simp append_assoc);
          still_open = e.still_open;
          same_proc = e.same_proc ∙ a.same_proc;
          same_finished = e.same_finished ∙ a.same_finished;
        },
      )
