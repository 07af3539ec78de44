-- ===== src/Stream/Roundtrip.antt =====
-- src/emu/stream.c reads back the events that src/rt/ovni.c wrote.
use ovni.Prelude.{
  ltb, ℕ, suc, ◌+◌, ◌<◌, ◌≡◌, refl, ◌∙◌, ap, Bool, true, false, not, ◌&&◌, none, some, List, [],
  ◌∷◌, ◌++◌, map, length, arith, length-append, ok, ◌==◌,
}
use native.Mathlib.Numerals.{add-one}
use ovni.Prelude.Int.{ℤ, pos, ◌+ℤ◌, ltb_ℤ, ◌-ℤ◌}
use ovni.Rt.Bytes.{le_value, to_int64, IsInt64}
use ovni.Rt.Buffer.{stream_header}
use ovni.Stream.{Stream, loaded, stream_step, step_from, load_obs, header_size, check_stream_header}
use ovni.Stream.Items.{Item, event, item_bytes, items_bytes, IsItem, decoded, item_bytes-pos}
use ovni.Stream.Reading.{
  item_seen, read_all, InOrder, ClocksFit, AllItems, current, At, ev_at_item, next_offset, load_lem,
  seen_lem, pass_event_at, moved, read_ended, read_loaded,
}

-- From an item on, the reader sees the items behind it.
read_from :
    (its : List Item) (o : ℕ) (it : Item) (s : Stream)
    → IsItem it
    → AllItems its
    → At o (item_bytes it ++ items_bytes its) s
    → s.cur_ev ≡ some s.offset
    → InOrder s.unsorted s.clock_offset s.lastclock its
    → ClocksFit s.clock_offset s.lastclock its
    → read_all (suc (length its)) s ≡ some (ok (map (item_seen s.clock_offset) its))
read_from [] o it s w ws a c i k =
    let p =
      pass_event_at s (decoded it []) s.offset (o + length (item_bytes it)) (length s.buf)
        a.is_active c (ev_at_item o it [] s w a) (next_offset o it [] s w a) a.whole_size
        (omega (arith, a.in_file, length-append (item_bytes it) [])) in
    let e : (o + length (item_bytes it) == length s.buf) ≡ true =
      ground (arith, a.in_file, length-append (item_bytes it) []) in
    read_ended 0 s _ (rw e at p)
read_from (it2 ∷ its) o it s w ws a c i (fits, delta_fits, k) =
    let rest = item_bytes it2 ++ items_bytes its in
    let q = o + length (item_bytes it) in
    let s2 = record s { offset = pos q } in
    let p =
      pass_event_at s (decoded it rest) s.offset q (length s.buf) a.is_active c
        (ev_at_item o it rest s w a) (next_offset o it rest s w a) a.whole_size
        (omega (arith, a.in_file, length-append (item_bytes it) rest)) in
    let e : (q == length s.buf) ≡ false = ground (
      arith,
      a.in_file,
      length-append (item_bytes it) rest,
      length-append (item_bytes it2) (items_bytes its),
      item_bytes-pos it2 ws.0,
    ) in
    let a2 : At q rest s2 = moved o it rest s a in
    let a3 : At q rest (current it2 s2) = record {
      at_offset = refl;
      at_bytes = a2.at_bytes;
      in_file = a2.in_file;
      whole_size = a2.whole_size;
      is_active = a2.is_active;
    } in
    read_loaded (suc (length its)) s (current it2 s2) _
      (rw e at p ∙ load_lem q it2 (items_bytes its) s2 ws.0 a2 fits delta_fits i.0)
      (read_from its q it2 (current it2 s2) ws.0 ws.1 a3 refl i.1 k)
    ∙ ap (λ l. some (ok (l ++ map (item_seen s.clock_offset) its)))
        (seen_lem q it2 (items_bytes its) s2 ws.0 a2 fits)

-- The stream that `load_obs` makes of a file with events, with the settings of the emulator.
abbrev pub opened : Bool → ℤ → List ℕ → Stream
opened unsorted off buf = record {
  buf = buf;
  size = pos (length buf);
  usize = pos (length buf) -ℤ pos header_size;
  offset = pos header_size;
  active = true;
  unsorted = unsorted;
  cur_ev = none;
  lastclock = pos 0;
  deltaclock = pos 0;
  clock_offset = off;
}

load_written :
    (bs : List ℕ)
    → 0 < length bs
    → load_obs (stream_header ++ bs) ≡ ok (opened false (pos 0) (stream_header ++ bs))
unfolding load_obs check_stream_header le_value
load_written bs h =
    let some_bytes : ltb header_size (length (stream_header ++ bs)) ≡ true = ground arith in
    let full : ltb (length (stream_header ++ bs)) header_size ≡ false = ground arith in
    let not_empty : (length (stream_header ++ bs) == 0) ≡ false = ground arith in
    rw (not_empty, full, some_bytes)

first_step :
    (it : Item) (rest : List ℕ) (unsorted : Bool) (off : ℤ)
    → IsItem it
    → IsInt64 (to_int64 (event it).clock +ℤ off)
    → IsInt64 (to_int64 (event it).clock +ℤ off -ℤ pos 0)
    → let s = opened unsorted off (stream_header ++ (item_bytes it ++ rest)) in
      (not unsorted && ltb_ℤ (to_int64 (event it).clock +ℤ off) (pos 0)) ≡ false
      → stream_step s ≡ ok (loaded, current it s)
unfolding stream_step step_from
first_step it rest unsorted off w fits delta_fits c =
    load_lem header_size it rest (opened unsorted off (stream_header ++ (item_bytes it ++ rest))) w
      (record {
        at_offset = refl;
        at_bytes = refl;
        in_file = omega arith;
        whole_size = refl;
        is_active = refl;
      })
      fits delta_fits c

-- A file with the stream header and the bytes of a non-empty list of valid events, normal or jumbo, whose clocks with
-- the offset added, and the differences of one and the next, fit in 64 bits, and do not go backwards unless
-- the stream may be unsorted: it is loaded, and stepping the stream until it ends, within one step for each
-- event and one more, shows exactly these events, in order, with their payload and the sum of their clock and the offset.
pub read-written :
    (it : Item) (its : List Item) (unsorted : Bool) (off : ℤ)
    → AllItems (it ∷ its)
    → InOrder unsorted off (pos 0) (it ∷ its)
    → ClocksFit off (pos 0) (it ∷ its)
    → let file = stream_header ++ items_bytes (it ∷ its) in
      (load_obs file ≡ ok (opened false (pos 0) file))
      × (read_all (length (it ∷ its) + 1) (opened unsorted off file)
          ≡ some (ok (map (item_seen off) (it ∷ its))))
read-written it its unsorted off (w, ws) (c, i) (fits, delta_fits, k) =
    let rest = items_bytes its in
    let s = opened unsorted off (stream_header ++ (item_bytes it ++ rest)) in
    let a : At header_size (item_bytes it ++ rest) s = record {
      at_offset = refl;
      at_bytes = refl;
      in_file = omega arith;
      whole_size = refl;
      is_active = refl;
    } in
    let a' : At header_size (item_bytes it ++ rest) (current it s) = record {
      at_offset = refl;
      at_bytes = refl;
      in_file = omega arith;
      whole_size = refl;
      is_active = refl;
    } in
    (
      load_written (item_bytes it ++ rest)
          (omega (arith, length-append (item_bytes it) rest, item_bytes-pos it w)),
      ap (λ f. read_all f s) (add-one (suc (length its)))
          ∙ read_loaded (suc (length its)) s (current it s) _
              (first_step it rest unsorted off w fits delta_fits c)
              (read_from its header_size it (current it s) w ws a' refl i k)
          ∙ ap (λ l. some (ok (l ++ map (item_seen off) its)))
              (seen_lem header_size it rest s w a fits),
    )
