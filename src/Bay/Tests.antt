-- ===== src/Bay/Tests.antt =====
-- The theorems on src/emu/bay.c with four channels, where a callback enables another one of its own channel.
use ovni.Prelude.{
  ℕ, ◌≡◌, refl, sym, ap, subst, ◌∙◌, Bool, true, false, arith, Option, none, some, List, [], ◌∷◌,
  Result, ok, err, ◌⊎◌, inl, inr, if◌then◌else◌, ◌==◌, if-cases, ok_inj,
}
use ovni.Prelude.Int.{pos}
use ovni.Value.{value_int64, value_null}
use ovni.Chan.{Chan, single, chan_read}
use ovni.Chan.Protocol.{set}
use ovni.Vendor.{update, update_at}
use ovni.Vendor.Samples.{list, list-IsLinkedList, behind, behind-IsNext}
use ovni.Bay.Dirty.{IsDirtyList, Grows, write_chan-Grows, write_chan-callbacks, edit-Grows}
use ovni.Bay.Rounds.{AreCallbacks}
use ovni.Bay.Propagation.{IsSettledBay, propagate_lem}
use ovni.Bay.Walk.{Keeps, call_all, propagate_chan_lem}
use ovni.Bay.{
  Bay, BayCb, BayChan, BayError, CbType, ready, dirty_type, emit_type, write_chan, bay_propagate,
  propagate_chan, callback_failed, callbacks_of, with_callback, bay_enable_cb, set_enabled,
}

-- The channel 3 takes duplicates and dirty writes; the channel 0 has changed to 1.
abbrev channel : ℕ → Chan
channel c = record {
  is_dirty = c == 0;
  can_dirty_write = c == 3;
  can_dup = c == 3;
  skips_dup = false;
  dirty_cb = some c;
  last_value = value_null;
  type = single;
  value = if c == 0 then value_int64 (pos 1) else value_null;
  values = [];
}

-- The callbacks 0 and 1 belong to the channel 0. Before the callback 1 is enabled, and after it.
abbrev start : ℕ → BayCb
start k = record { bchan = 0; enabled = k == 0; type = dirty_type }

abbrev callbacks : Bool → ℕ → BayCb
callbacks false = start
callbacks true = update start 1 (record (start 1) { enabled = true })

abbrev one : ℕ → BayChan (List ℕ)
one c = record {
  is_dirty = false;
  ndirty_callbacks = if c == 0 then 1 else 0;
  nemit_callbacks = 0;
  dirty_callbacks = if c == 0 then 0 ∷ [] else [];
  emit_callbacks = [];
}

abbrev lists : Bool → ℕ → BayChan (List ℕ)
lists false = one
lists true = update one 0 (with_callback list dirty_type 1 (one 0))

abbrev SmallBay : Type 0
SmallBay = Bay (List ℕ) (ℕ → Option ℕ) Unit

abbrev bay : SmallBay
bay = record {
  state = ready;
  channels = λ k. none;
  dirty = 0 ∷ [];
  chans = channel;
  bchans = lists false;
  callbacks = callbacks false;
  next_callback = 2;
  objects = tt;
}

bay-IsDirtyList : IsDirtyList list 4 bay
bay-IsDirtyList = record {
  once = (λ q k. elim k [ ], tt);
  is_listed = λ c h. inl (ground arith);
  is_dirty = λ c m. elim m [ inl e ↦ ground arith | inr k ↦ elim k [ ] ];
  below = λ c m. elim m [ inl e ↦ omega (arith, e) | inr k ↦ elim k [ ] ];
  registered = λ c b. refl;
}

abbrev to_option : Result BayError SmallBay → Option SmallBay
to_option (ok b) = some b
to_option (err e) = none

was_ok : (r : Result BayError SmallBay) (b : SmallBay) → to_option r ≡ some b → r ≡ ok b
was_ok (ok a) b h = ap ok cc
was_ok (err e) b h = cc

-- The channel 3 takes the value of the channel 0.
abbrev copy : SmallBay → Option SmallBay
copy b = to_option (write_chan list 3 (set (chan_read (b.chans 0))) b)

-- The callback 0 enables the callback 1, which copies.
abbrev call : ℕ → SmallBay → Option SmallBay
call cb b = if cb == 0 then to_option (bay_enable_cb list b 1) else copy b

-- The callback 1 is enabled or not.
abbrev IsOrdered : SmallBay → Type 0
IsOrdered b = (on : Bool) × (b.callbacks ≡ callbacks on) × (b.bchans ≡ lists on)

abbrev left : SmallBay → ℕ → ℕ
left b cb = if cb == 0 then 1 else 0

is_on : (b : SmallBay) → (b.callbacks 1).enabled ≡ true → bay_enable_cb list b 1 ≡ ok b
unfolding bay_enable_cb
is_on b h = ground arith

turn_on :
    (b : SmallBay)
    → (b.callbacks 1).enabled ≡ false
    → (b.bchans (b.callbacks 1).bchan).is_dirty ≡ false
    → bay_enable_cb list b 1
      ≡ ok (set_enabled list b 1 true (with_callback list (b.callbacks 1).type 1))
unfolding bay_enable_cb
turn_on b h k = ground arith

abbrev with_both : SmallBay → SmallBay
with_both b = record b { callbacks = callbacks true; bchans = lists true }

enabled :
    (b : SmallBay) (on : Bool)
    → b.callbacks ≡ callbacks on
    → b.bchans ≡ lists on
    → bay_enable_cb list b 1 ≡ ok (with_both b)
enabled b true e f =
    is_on b (ap (λ u. (u 1).enabled) e ∙ ap (λ u. u.enabled) (update_at start 1 _))
    ∙ ap (λ u. ok (record b { callbacks = u; bchans = b.bchans })) e
    ∙ ap (λ u. ok (record b { callbacks = callbacks true; bchans = u })) f
enabled b false e f =
    turn_on b (ap (λ u. (u 1).enabled) e)
      (ap (λ u. (b.bchans (u 1).bchan).is_dirty) e ∙ ap (λ u. (u 0).is_dirty) f)
    ∙ ap
        (λ u.
          ok (
            set_enabled list (record b { callbacks = u }) 1 true (with_callback list (u 1).type 1)))
        e
    ∙ ap
        (λ u. ok (
          set_enabled list (record b { callbacks = start; bchans = u }) 1 true
            (with_callback list dirty_type 1)))
        f

-- What the callbacks do: the callback 0 enables, and the others copy.
call_cases :
    (cb : ℕ) (b b' : SmallBay)
    → IsOrdered b
    → call cb b ≡ some b'
    → ((cb ≡ 0) × (b' ≡ with_both b)) ⊎ ((cb == 0) ≡ false × (copy b ≡ some b'))
call_cases cb b b' (on, e, f) h = elim (if-cases (cb == 0) _ _ h) [
  | inl (hit, h) ↦
      inl (ground arith, ok_inj (sym (was_ok (bay_enable_cb list b 1) b' h) ∙ enabled b on e f))
  | inr (miss, h) ↦ inr (miss, h)
]

copied :
    (b b' : SmallBay) → copy b ≡ some b' → write_chan list 3 (set (chan_read (b.chans 0))) b ≡ ok b'
copied b b' h = was_ok (write_chan list 3 (set (chan_read (b.chans 0))) b) b' h

call-Grows :
    (cb : ℕ) (b b' : SmallBay)
    → IsDirtyList list 4 b
    → IsOrdered b
    → call cb b ≡ some b'
    → Grows list 4 b b'
call-Grows cb b b' i o h = elim (call_cases cb b b' o h) [
  | inl (e, is) ↦
      subst (Grows list 4 b) (sym is) (edit-Grows list 4 b (callbacks true) (lists true) i)
  | inr (e, k) ↦
      write_chan-Grows list 4 list-IsLinkedList 3 (set (chan_read (b.chans 0))) b b' (omega arith) i
        (copied b b' k)
]

call-IsOrdered :
    (cb : ℕ) (b b' : SmallBay)
    → IsDirtyList list 4 b
    → IsOrdered b
    → call cb b ≡ some b'
    → IsOrdered b'
call-IsOrdered cb b b' i o h = elim (call_cases cb b b' o h) [
  | inl (e, is) ↦ (true, ap (λ u. u.callbacks) is, ap (λ u. u.bchans) is)
  | inr (e, k) ↦
      let (same, kept) =
        write_chan-callbacks list 3 (set (chan_read (b.chans 0))) b b'
          (i.registered 3 (omega arith)) (copied b b' k) in
      (o.0, same ∙ o.1, kept ∙ o.2)
]

-- Only the callback 0 has one behind it, which is the callback 1.
next_is :
    (on : Bool) (type : CbType) (c cb p : ℕ)
    → behind cb (callbacks_of type (lists on c)) ≡ some p
    → (cb ≡ 0) × (p ≡ 1)
unfolding update
next_is true dirty_type c cb p h = ground arith
next_is true emit_type c cb p h = ground arith
next_is false dirty_type c cb p h = ground arith
next_is false emit_type c cb p h = ground arith

call-AreCallbacks : AreCallbacks list 4 behind call 2 IsOrdered left
call-AreCallbacks = record {
  call-Grows = call-Grows;
  call-IsOrdered = call-IsOrdered;
  set_state-IsOrdered = λ b st o. o;
  falls = λ type c cb p b b' i o h e.
      let (on, _, kept) = call-IsOrdered cb b b' i o h in
      let (first, second) =
        next_is on type c cb p (ap (λ u. behind cb (callbacks_of type (u c))) (sym kept) ∙ e) in
      ground arith;
  starts = λ type c p b o e. ground arith;
}

propagate_lem_example :
    ((bay' : SmallBay) × (bay_propagate list behind call 2 5 bay ≡ ok bay')
      × IsSettledBay list 4 bay')
    ⊎ (bay_propagate list behind call 2 5 bay ≡ err callback_failed)
propagate_lem_example =
    propagate_lem list 4 list-IsLinkedList behind call 2 IsOrdered left 5 bay call-AreCallbacks
      bay-IsDirtyList (false, refl, refl) (omega arith)

abbrev bay_with_both : SmallBay
bay_with_both = with_both bay

-- Callbacks that change no list.
note_call : ℕ → Bay (List ℕ) (ℕ → Option ℕ) (List ℕ) → Option (Bay (List ℕ) (ℕ → Option ℕ) (List ℕ))
note_call cb b = some (record b { objects = cb ∷ b.objects })

abbrev marked : Bay (List ℕ) (ℕ → Option ℕ) (List ℕ)
marked = record {
  state = ready;
  channels = λ k. none;
  dirty = 0 ∷ [];
  chans = channel;
  bchans = λ c. record (one c) { dirty_callbacks = 4 ∷ 7 ∷ [] };
  callbacks = start;
  next_callback = 8;
  objects = [];
}

marks : Keeps list behind note_call dirty_type 0
unfolding note_call
marks cb b b' h = ap (λ u. (u.bchans 0).dirty_callbacks) (sym (is h))
  where
    is :
        some (record b { objects = cb ∷ b.objects }) ≡ some b'
        → record b { objects = cb ∷ b.objects } ≡ b'
    is h = cc

propagate_chan_lem_example :
    propagate_chan list behind note_call 3 dirty_type 0 marked
    ≡ call_all list behind note_call (4 ∷ 7 ∷ []) marked
unfolding note_call
propagate_chan_lem_example =
    propagate_chan_lem list behind note_call list-IsLinkedList behind-IsNext 3 dirty_type 0 marked
      marks
      ((λ q m. elim m [ inl e ↦ ground arith | inr k ↦ elim k [ ] ]), ((λ q m. elim m [ ]), tt))
      (omega arith)
