-- ===== src/Models/Stacks.antt =====
-- A value that is pushed to a channel of src/emu/chan.c can be popped after the flush.
use ovni.Prelude.{
  ℕ, ◌≡◌, refl, ap, ◌∙◌, true, false, not, Option, none, some, List, ◌∷◌, if◌then◌else◌, arith, ok,
  err, or_err,
}
use ovni.Value.{Value, value_is_equal_refl}
use ovni.Chan.{
  Chan, is_single, chan_read, chan_flush, chan_push, chan_pop, set_dirty, call_dirty, pop_expected,
  set_dirty_failed, unexpected_top, dirty_cb_failed, already_dirty,
}

module _ {S : Type 0} (cb : ℕ → S → Option S) where
  -- A callback that succeeds.
  abbrev pub Succeeds : Type 0
  Succeeds = (arg : ℕ) (s : S) → (s' : S) × (cb arg s ≡ some s')

  pub pushed :
      (chan c : Chan) (v : Value) (s s' : S)
      → chan.skips_dup ≡ false
      → chan_push cb chan v s ≡ ok (c, s')
      → (c.values ≡ v ∷ chan.values)
        × (c.is_dirty ≡ true)
        × (is_single c.type ≡ false)
        × (c.dirty_cb ≡ chan.dirty_cb)
  unfolding chan_push set_dirty call_dirty
  pushed chan c v s s' k h = (ground arith, ground arith, ground arith, ground arith)

  pub flushed :
      (c : Chan)
      → c.is_dirty ≡ true
      → (d : Chan) × (chan_flush c ≡ ok d)
        × (d.is_dirty ≡ false)
        × (d.values ≡ c.values)
        × (d.type ≡ c.type)
  unfolding chan_flush
  flushed c h =
      (record c { last_value = chan_read c; is_dirty = false }, rw h refl, refl, refl, refl)

  called :
      (o : Option ℕ) (c : Chan) (s : S) → Succeeds → (s' : S) × (call_dirty cb o c s ≡ ok (c, s'))
  unfolding call_dirty
  called none c s calls = (s, refl)
  called (some arg) c s calls =
      let (s', e) = calls arg s in
      (s', ap (λ o. elim o [ none ↦ err dirty_cb_failed | some s' ↦ ok (c, s') ]) e)

  pub popped :
      (d : Chan) (v : Value) (vs : List Value) (s : S)
      → Succeeds
      → d.is_dirty ≡ false
      → is_single d.type ≡ false
      → d.values ≡ v ∷ vs
      → (e : Chan) × (s' : S) × (chan_pop cb d v s ≡ ok (e, s')) × (e.values ≡ vs)
  unfolding chan_pop pop_expected set_dirty
  popped d v vs s calls clean stacked vals =
      let left = record d { values = vs; is_dirty = true } in
      let (s', k) = called d.dirty_cb left s calls in
      (
        left,
        s',
        to_pop d v s clean stacked
            ∙ ap (λ l. pop_expected cb l d v s) vals
            ∙ ap
                (λ b.
                  if not b
                  then err unexpected_top
                  else or_err set_dirty_failed (set_dirty cb (record d { values = vs }) s))
                (value_is_equal_refl v)
            ∙ ap
                (λ b. or_err set_dirty_failed (
                  if b
                  then (if d.can_dirty_write
                      then ok (record d { values = vs }, s)
                      else err already_dirty)
                  else call_dirty cb d.dirty_cb left s))
                clean
            ∙ ap (or_err set_dirty_failed) k,
        refl,
      )
    where
      to_pop :
          (d : Chan) (v : Value) (s : S)
          → d.is_dirty ≡ false
          → is_single d.type ≡ false
          → chan_pop cb d v s ≡ pop_expected cb d.values d v s
      to_pop d v s clean stacked = ground arith
