-- ===== src/Stream/Reading.antt =====
-- Stepping a stream of src/emu/stream.c from event to event.
use ovni.Prelude.{
  ℕ, zero, suc, ◌+◌, ◌-◌, ◌≤◌, ◌≡◌, refl, ◌∙◌, ap, Bool, true, false, not, ◌&&◌, Option, none, some,
  List, [], ◌∷◌, ◌++◌, length, take, drop, drop-drop, drop-append, if◌then◌else◌, arith,
  length-append, Result, ok, err, ◌>>=◌, ◌==◌,
}
use ovni.Prelude.Int.{ℤ, pos, pos_part, ◌+ℤ◌, ltb_ℤ, ◌-ℤ◌, pos_add}
use ovni.Rt.Bytes.{to_size_t, to_int64, wrap_int64, wrap_int64_lem, IsInt64}
use ovni.Rt.Event.{Ev, ovni_ev_size, ovni_ev_get_clock}
use ovni.Stream.{
  Stream, StreamError, loaded, ended, decode, ev_at, load_event, pass_event, stream_step,
  stream_evclock, step_from,
}
use ovni.Stream.Items.{
  Item, event, item_bytes, item_body, IsItem, decode-item_bytes, decoded_size, decoded, body_lem,
}

-- What the emulator sees of an event: its model, category and value, its corrected clock, and the
-- bytes behind its header.
pub record Seen : Type 0 where
  pub model : ℕ
  pub category : ℕ
  pub value : ℕ
  pub clock : ℤ
  pub body : List ℕ

abbrev pub item_seen : ℤ → Item → Seen
item_seen off it = record {
  model = (event it).model;
  category = (event it).category;
  value = (event it).value;
  clock = to_int64 (event it).clock +ℤ off;
  body = item_body it;
}

-- The current event of a stream, at an index of its bytes.
unfoldable pub seen_at : ℕ → Stream → Seen
seen_at p s =
    let ev = decode (drop p s.buf) in
    record {
      model = ev.model;
      category = ev.category;
      value = ev.value;
      clock = stream_evclock s ev;
      body = take (to_size_t (ovni_ev_size ev) - 12) (drop 12 (drop p s.buf));
    }

abbrev pub seen : Stream → List Seen
seen s = elim s.cur_ev [ none ↦ [] | some p ↦ seen_at (pos_part p) s ∷ [] ]

-- Stepping a stream until it ends, as its readers do; `none` only when the fuel runs out.
unfoldable pub read_all : ℕ → Stream → Option (Result StreamError (List Seen))
read_all zero s = none
read_all (suc f) s = elim (stream_step s) [
  | err e ↦ some (err e)
  | ok (r, s') ↦ elim r [
    | ended ↦ some (ok [])
    | loaded ↦ elim (read_all f s') [
      | none ↦ none
      | some rest ↦ some (rest >>= λ l. ok (seen s' ++ l))
    ]
  ]
]

-- The clocks do not go backwards, or the stream may be unsorted.
abbrev pub InOrder : Bool → ℤ → ℤ → List Item → Type 0
InOrder unsorted off last [] = Unit
InOrder unsorted off last (it ∷ its) =
    ((not unsorted && ltb_ℤ (to_int64 (event it).clock +ℤ off) last) ≡ false)
    × InOrder unsorted off (to_int64 (event it).clock +ℤ off) its

-- The corrected clock of each event, and its difference from that of the event before, are numbers of type
-- `int64_t`: neither the sum nor the difference overflows.
abbrev pub ClocksFit : ℤ → ℤ → List Item → Type 0
ClocksFit off last [] = Unit
ClocksFit off last (it ∷ its) =
    let clock = to_int64 (event it).clock +ℤ off in
    IsInt64 clock × IsInt64 (clock -ℤ last) × ClocksFit off clock its

abbrev pub AllItems : List Item → Type 0
AllItems [] = Unit
AllItems (it ∷ its) = IsItem it × AllItems its

-- The stream with the item at its offset as the current event.
abbrev pub current : Item → Stream → Stream
current it s =
    let clock = to_int64 (event it).clock +ℤ s.clock_offset in
    record s { cur_ev = some s.offset; deltaclock = clock -ℤ s.lastclock; lastclock = clock }

pub load_event_at :
    (s : Stream) (d : Ev)
    → ev_at s.buf s.offset ≡ ok d
    → ltb_ℤ s.size (s.offset +ℤ ovni_ev_size d) ≡ false
    → (not s.unsorted && ltb_ℤ (stream_evclock s d) s.lastclock) ≡ false
    → load_event s
      ≡ ok (
        loaded,
        record s {
          cur_ev = some s.offset;
          deltaclock = wrap_int64 (stream_evclock s d -ℤ s.lastclock);
          lastclock = stream_evclock s d;
        },
      )
unfolding load_event
load_event_at s d e fits c = rw e (rw (fits, c))

-- Where a stream stands: at the index `o`, before the bytes `bs` of its file.
pub record At (o : ℕ) (bs : List ℕ) (s : Stream) : Type 0 where
  pub at_offset : s.offset ≡ pos o
  pub at_bytes : drop o s.buf ≡ bs
  pub in_file : o + length bs ≡ length s.buf
  pub whole_size : s.size ≡ pos (length s.buf)
  pub is_active : s.active ≡ true

pub ev_at_item :
    (o : ℕ) (it : Item) (rest : List ℕ) (s : Stream)
    → IsItem it
    → At o (item_bytes it ++ rest) s
    → ev_at s.buf s.offset ≡ ok (decoded it rest)
unfolding ev_at
ev_at_item o it rest s w a = rw (a.at_offset, a.at_bytes) (ap ok (decode-item_bytes it rest w))

pub next_offset :
    (o : ℕ) (it : Item) (rest : List ℕ) (s : Stream)
    → IsItem it
    → At o (item_bytes it ++ rest) s
    → s.offset +ℤ ovni_ev_size (decoded it rest) ≡ pos (o + length (item_bytes it))
next_offset o it rest s w a =
    rw (a.at_offset, ← decode-item_bytes it rest w, decoded_size it rest w) (pos_add o _)

clock_lem :
    (it : Item) (rest : List ℕ) (s : Stream)
    → IsInt64 (to_int64 (event it).clock +ℤ s.clock_offset)
    → stream_evclock s (decoded it rest) ≡ to_int64 (event it).clock +ℤ s.clock_offset
unfolding stream_evclock ovni_ev_get_clock
clock_lem it rest s fits = wrap_int64_lem (to_int64 (event it).clock +ℤ s.clock_offset) fits

pub load_lem :
    (o : ℕ) (it : Item) (rest : List ℕ) (s : Stream)
    → IsItem it
    → At o (item_bytes it ++ rest) s
    → IsInt64 (to_int64 (event it).clock +ℤ s.clock_offset)
    → IsInt64 (to_int64 (event it).clock +ℤ s.clock_offset -ℤ s.lastclock)
    → (not s.unsorted && ltb_ℤ (to_int64 (event it).clock +ℤ s.clock_offset) s.lastclock) ≡ false
    → load_event s ≡ ok (loaded, current it s)
load_lem o it rest s w a fits delta_fits c =
    let sum = clock_lem it rest s fits in
    let loads =
      load_event_at s (decoded it rest) (ev_at_item o it rest s w a)
        (rw
          (
            next_offset o it rest s w a,
            a.whole_size,
            ← a.in_file,
            length-append (item_bytes it) rest,
          )
          (ground arith))
        (ap (λ k. not s.unsorted && ltb_ℤ k s.lastclock) sum ∙ c) in
    loads
    ∙ ap
        (λ k. ok (
          loaded,
          record s {
            cur_ev = some s.offset;
            deltaclock = wrap_int64 (k -ℤ s.lastclock);
            lastclock = k;
          },
        ))
        sum
    ∙ ap
        (λ d. ok (
          loaded,
          record s {
            cur_ev = some s.offset;
            deltaclock = d;
            lastclock = to_int64 (event it).clock +ℤ s.clock_offset;
          },
        ))
        (wrap_int64_lem _ delta_fits)

pub seen_lem :
    (o : ℕ) (it : Item) (rest : List ℕ) (s : Stream)
    → IsItem it
    → At o (item_bytes it ++ rest) s
    → IsInt64 (to_int64 (event it).clock +ℤ s.clock_offset)
    → seen (current it s) ≡ item_seen s.clock_offset it ∷ []
unfolding seen_at stream_evclock ovni_ev_get_clock
seen_lem o it rest s w a fits = rw (a.at_offset) (
    rw (a.at_bytes, decode-item_bytes it rest w)
      (rw (rw (decode-item_bytes it rest w) at (decoded_size it rest w)) (
        rw
          (body_lem it rest w, wrap_int64_lem (to_int64 (event it).clock +ℤ s.clock_offset) fits))))

pub pass_event_at :
    (s : Stream) (d : Ev) (p : ℤ) (n m : ℕ)
    → s.active ≡ true
    → s.cur_ev ≡ some p
    → ev_at s.buf p ≡ ok d
    → s.offset +ℤ ovni_ev_size d ≡ pos n
    → s.size ≡ pos m
    → n ≤ m
    → stream_step s ≡ (
        if n == m
        then ok (ended, record s { offset = pos n; active = false; cur_ev = none })
        else load_event (record s { offset = pos n }))
unfolding stream_step step_from pass_event
pass_event_at s d p n m a c e o z h = rw (a, c, step_from) (rw e (rw o (rw z (ground arith))))

-- The place behind the current item.
pub moved :
    (o : ℕ) (it : Item) (rest : List ℕ) (s : Stream)
    → At o (item_bytes it ++ rest) s
    → At (o + length (item_bytes it)) rest (record s { offset = pos (o + length (item_bytes it)) })
moved o it rest s a = record {
  at_offset = refl;
  at_bytes =
      drop-drop o (length (item_bytes it)) s.buf ∙ rw a.at_bytes (drop-append (item_bytes it) rest);
  in_file = omega (arith, a.in_file, length-append (item_bytes it) rest);
  whole_size = a.whole_size;
  is_active = a.is_active;
}

pub read_ended :
    (f : ℕ) (s s' : Stream) → stream_step s ≡ ok (ended, s') → read_all (suc f) s ≡ some (ok [])
unfolding read_all
read_ended f s s' h = rw (h, read_all)

pub read_loaded :
    (f : ℕ) (s s' : Stream) (l : List Seen)
    → stream_step s ≡ ok (loaded, s')
    → read_all f s' ≡ some (ok l)
    → read_all (suc f) s ≡ some (ok (seen s' ++ l))
unfolding read_all
read_loaded f s s' l h r = rw (h, read_all) (rw r)
