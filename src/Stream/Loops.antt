-- ===== src/Stream/Loops.antt =====
-- A jumbo event whose declared size overflows the `int` of `ovni_payload_size`, in src/emu/stream.c.
use ovni.Prelude.{
  ℕ, zero, suc, ◌+◌, ◌-◌, ◌^◌, ◌<◌, ◌≡◌, refl, ◌∙◌, ap, Bool, true, false, not, ◌&&◌, none, some,
  arith, ok, ◌==◌,
}
use ovni.Prelude.Int.{ℤ, pos, ◌+ℤ◌, ◌-ℤ◌, ltb_ℤ, pos_add}
use ovni.Rt.Bytes.{wrap_int64, le_value}
use ovni.Rt.Event.{Ev, is_jumbo, ovni_ev_size, ovni_payload_size}
use ovni.Stream.{Stream, ev_at, stream_step, stream_evclock, loaded}
use ovni.Stream.Reading.{read_all, pass_event_at, load_event_at}

-- The stream has `d` as its current event, at its offset and inside the file.
pub record IsOn (d : Ev) (o m : ℕ) (s : Stream) : Type 0 where
  pub is_active : s.active ≡ true
  pub is_current : s.cur_ev ≡ some s.offset
  pub reads : ev_at s.buf s.offset ≡ ok d
  pub at_offset : s.offset ≡ pos o
  pub whole_size : s.size ≡ pos m
  pub before_end : o < m
  pub same_clock : s.lastclock ≡ stream_evclock s d

zero_size :
    (d : Ev) → is_jumbo d.flags ≡ true → le_value 4 d.payload ≡ 2 ^ 32 - 16 → ovni_ev_size d ≡ pos 0
unfolding ovni_ev_size ovni_payload_size
zero_size d j n = ground arith

ltb_ℤ_irrefl : (a : ℤ) → ltb_ℤ a a ≡ false
ltb_ℤ_irrefl a = ground arith

not_past : (o m : ℕ) → o < m → ltb_ℤ (pos m) (pos o) ≡ false
not_past o m h = ground arith

and_false : (b : Bool) → (not b && false) ≡ false
and_false b = ground arith

stays :
    (d : Ev) (o m : ℕ) (s : Stream)
    → ovni_ev_size d ≡ pos 0
    → IsOn d o m s
    → (s' : Stream) × (stream_step s ≡ ok (loaded, s')) × IsOn d o m s'
unfolding stream_evclock
stays d o m s z i =
    let here : s.offset +ℤ ovni_ev_size d ≡ pos o =
      rw (i.at_offset, z) (pos_add o 0 ∙ ap pos (omega arith)) in
    let p =
      pass_event_at s d s.offset o m i.is_active i.is_current i.reads here i.whole_size
        (omega arith) in
    let more : (o == m) ≡ false = ground (arith, i.before_end) in
    let s2 = record s { offset = pos o } in
    let reads2 : ev_at s.buf (pos o) ≡ ok d = rw i.at_offset at i.reads in
    let fits : ltb_ℤ s.size (pos o +ℤ ovni_ev_size d) ≡ false =
      rw (i.whole_size, z) (rw (pos_add o 0) (not_past (o + 0) m (omega (arith, i.before_end)))) in
    let in_order : (not s.unsorted && ltb_ℤ (stream_evclock s2 d) s.lastclock) ≡ false =
      rw i.same_clock (rw (ltb_ℤ_irrefl (stream_evclock s d)) (and_false s.unsorted)) in
    (
      record s2 {
        cur_ev = some (pos o);
        deltaclock = wrap_int64 (stream_evclock s2 d -ℤ s.lastclock);
        lastclock = stream_evclock s2 d;
      },
      rw more at p ∙ load_event_at s2 d reads2 fits in_order,
      record {
        is_active = i.is_active;
        is_current = refl;
        reads = reads2;
        at_offset = refl;
        whole_size = i.whole_size;
        before_end = i.before_end;
        same_clock = refl;
      },
    )

-- A jumbo event that declares a buffer of 2 ^ 32 - 16 bytes has size 0 for `ovni_ev_size`, whatever
-- the file holds behind it: a stream that has it as its current event is stepped without an error and
-- never ends, for any number of steps.
pub overflow_never_ends :
    (d : Ev) (o m : ℕ) (s : Stream) (fuel : ℕ)
    → is_jumbo d.flags ≡ true
    → le_value 4 d.payload ≡ 2 ^ 32 - 16
    → IsOn d o m s
    → read_all fuel s ≡ none
unfolding read_all
overflow_never_ends d o m s zero j n i = refl
overflow_never_ends d o m s (suc f) j n i =
    let (s', step, i') = stays d o m s (zero_size d j n) i in
    rw (step, read_all) (rw (overflow_never_ends d o m s' f j n i'))
