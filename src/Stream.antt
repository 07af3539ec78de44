-- ===== src/Stream.antt =====
-- src/emu/stream.c: the reader of the events of one thread.
pub mod Items
pub mod Reading
pub mod Roundtrip
pub mod Loops
pub mod Emitted
pub mod ThreadFile
mod Tests
use ovni.Prelude.{
  ℕ, zero, suc, ◌+◌, ◌*◌, ◌≤◌, ◌<◌, ◌≡◌, Bool, true, false, not, ◌&&◌, Option, none, some, List, [],
  ◌∷◌, ◌++◌, length, take, drop, if◌then◌else◌, ltb, ◌==◌, Result, ok, err, ◌>>=◌, ◌>>◌, fail_if,
  is_none,
}
use ovni.Prelude.Int.{ℤ, pos, negsuc, eq_ℤ, ltb_ℤ, ◌+ℤ◌, ◌-ℤ◌}
use ovni.Rt.Bytes.{le_value, to_int64, wrap_int64}
use ovni.Rt.Event.{Ev, ovni_ev_size, ovni_ev_get_clock}

-- `struct stream`, without its paths and its metadata. `cur_ev` is a pointer into `buf`, given by the
-- index that it points to.
pub record Stream : Type 0 where
  pub buf : List ℕ
  pub size : ℤ
  pub usize : ℤ
  pub offset : ℤ
  pub active : Bool
  pub unsorted : Bool
  pub cur_ev : Option ℤ
  pub lastclock : ℤ
  pub deltaclock : ℤ
  pub clock_offset : ℤ

pub data StreamError : Type 0 where
  incomplete_header wrong_magic wrong_version empty_file : StreamError
  inactive past_end incomplete_event clock_backwards : StreamError
  already_started offset_already_set out_of_bounds : StreamError

-- The result of `stream_step`: 0 or +1.
pub data Step : Type 0 where
  loaded ended : Step

-- `sizeof(struct ovni_stream_header)`
abbrev pub header_size : ℕ
header_size = 8

-- The event at a place in memory. Bytes past the end of the file read as 0, as they do in the last
-- page of a mapping.
unfoldable pub decode : List ℕ → Ev
decode bs = record {
  flags = le_value 1 bs;
  model = le_value 1 (drop 1 bs);
  category = le_value 1 (drop 2 bs);
  value = le_value 1 (drop 3 bs);
  clock = le_value 8 (drop 4 bs);
  payload = take 16 (drop 12 bs);
}

-- `*(struct ovni_ev *) &stream->buf[offset]`; a negative index is no place of the mapping.
unfoldable pub ev_at : List ℕ → ℤ → Result StreamError Ev
ev_at buf (pos n) = ok (decode (drop n buf))
ev_at buf (negsuc n) = err out_of_bounds

-- The four characters of the magic, and the version.
unfoldable pub check_stream_header : List ℕ → Result StreamError (Unit {0})
check_stream_header buf = do
  fail_if (ltb (length buf) header_size) incomplete_header
  fail_if
      (not (
        le_value 1 buf == b'o'
        && le_value 1 (drop 1 buf) == b'v'
        && le_value 1 (drop 2 buf) == b'n'
        && le_value 1 (drop 3 buf) == b'i'))
      wrong_magic
  fail_if (not (le_value 4 (drop 4 buf) == 1)) wrong_version

-- `load_obs`, from the contents of the file on.
unfoldable pub load_obs : List ℕ → Result StreamError Stream
unfolding check_stream_header
load_obs buf = do
  fail_if (length buf == 0) empty_file
  check_stream_header buf
  ok (record {
    buf = buf;
    size = pos (length buf);
    usize = pos (length buf) -ℤ pos header_size;
    offset = pos header_size;
    active = ltb header_size (length buf);
    unsorted = false;
    cur_ev = none;
    lastclock = pos 0;
    deltaclock = pos 0;
    clock_offset = pos 0;
  })

unfoldable pub stream_clkoff_set : Stream → ℤ → Result StreamError Stream
stream_clkoff_set s clkoff = do
  fail_if (not (is_none s.cur_ev)) already_started
  fail_if (not (eq_ℤ s.clock_offset (pos 0))) offset_already_set
  ok (record s { clock_offset = clkoff })

unfoldable pub stream_allow_unsorted : Stream → Stream
stream_allow_unsorted s = record s { unsorted = true }

unfoldable pub stream_evclock : Stream → Ev → ℤ
unfolding ovni_ev_get_clock wrap_int64
stream_evclock s ev = wrap_int64 (to_int64 (ovni_ev_get_clock ev) +ℤ s.clock_offset)

abbrev pub stream_lastclock : Stream → ℤ
stream_lastclock s = s.lastclock

unfoldable pub stream_progress : Stream → ℤ × ℤ
stream_progress s = (s.offset -ℤ pos header_size, s.usize)

-- The second half of `stream_step`: the event at `offset` becomes the current one.
unfoldable pub load_event : Stream → Result StreamError (Step × Stream)
load_event s = do
  ev ← ev_at s.buf s.offset
  fail_if (ltb_ℤ s.size (s.offset +ℤ ovni_ev_size ev)) incomplete_event
  let clock = stream_evclock s ev
  fail_if (not s.unsorted && ltb_ℤ clock s.lastclock) clock_backwards
  ok (
    loaded,
    record s {
      cur_ev = some s.offset;
      deltaclock = wrap_int64 (clock -ℤ s.lastclock);
      lastclock = clock;
    },
  )

-- The first half, where an event has been loaded: the offset moves behind it.
unfoldable pub pass_event : ℤ → Stream → Result StreamError (Step × Stream)
pass_event p s = do
  ev ← ev_at s.buf p
  let offset = s.offset +ℤ ovni_ev_size ev
  fail_if (ltb_ℤ s.size offset) past_end
  if eq_ℤ offset s.size
      then ok (ended, record s { offset = offset; active = false; cur_ev = none })
      else load_event (record s { offset = offset })

unfoldable pub step_from : Option ℤ → Stream → Result StreamError (Step × Stream)
step_from none s = load_event s
step_from (some p) s = pass_event p s

unfoldable pub stream_step : Stream → Result StreamError (Step × Stream)
stream_step s = do fail_if (not s.active) inactive; step_from s.cur_ev s
