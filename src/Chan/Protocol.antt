-- ===== src/Chan/Protocol.antt =====
-- The dirty protocol of src/emu/chan.c: one write and one callback for each propagation phase.
use ovni.Prelude.{
  ℕ, ◌≡◌, Bool, true, false, Option, some, List, [], ◌∷◌, arith, if◌then◌else◌, Result, ok, err,
  ◌>>=◌, >>=-eq-ok,
}
use ovni.Value.{Value}
use ovni.Chan.{
  Chan, chan_read, chan_flush, chan_set, chan_push, chan_pop, chan_dirty, ChanError, not_dirty,
  set_dirty, pop_expected,
}

-- The operations that may mark a channel dirty.
pub data Write : Type 0 where
  set push pop : Value → Write
  dirty : Write

abbrev pub changes_value : Write → Bool
changes_value dirty = false
changes_value _ = true

abbrev pub is_err : {A : Type 0} → Result ChanError A → Bool
is_err (ok a) = false
is_err (err e) = true

module _ {S : Type 0} (cb : ℕ → S → Option S) where
  unfoldable pub write : Write → Chan → S → Result ChanError (Chan × S)
  write (set v) chan s = chan_set cb chan v s
  write (push v) chan s = chan_push cb chan v s
  write (pop v) chan s = chan_pop cb chan v s
  write dirty chan s = chan_dirty cb chan s

  unfoldable pub write_all : List Write → Chan → S → Result ChanError (Chan × S)
  write_all [] chan s = ok (chan, s)
  write_all (w ∷ ws) chan s = write w chan s >>= λ (c, s'). write_all ws c s'

-- A flush succeeds only on a dirty channel. After it the channel is clean, reads what it read
-- before, remembers that value as its last one, and cannot be flushed again.
pub flush_lem :
    (chan c : Chan)
    → chan_flush chan ≡ ok c
    → (chan.is_dirty ≡ true)
      × (c.is_dirty ≡ false)
      × (chan_read c ≡ chan_read chan)
      × (c.last_value ≡ chan_read chan)
      × (chan_flush c ≡ err not_dirty)
unfolding chan_flush chan_read
flush_lem chan c h = ground arith

-- What only `chan_init`, `chan_prop_set`, `chan_set_dirty_cb` and `chan_flush` change.
pub record Same (chan c : Chan) : Type 0 where
  pub same_dirty_write : c.can_dirty_write ≡ chan.can_dirty_write
  pub same_dup : c.can_dup ≡ chan.can_dup
  pub same_skips : c.skips_dup ≡ chan.skips_dup
  pub same_type : c.type ≡ chan.type
  pub same_cb : c.dirty_cb ≡ chan.dirty_cb
  pub same_last : c.last_value ≡ chan.last_value

module _ {S : Type 0} (cb : ℕ → S → Option S) where
  pub set_dirty-Same :
      (chan c : Chan) (s s' : S)
      → set_dirty cb chan s ≡ ok (c, s')
      → Same chan c × (c.values ≡ chan.values) × (c.value ≡ chan.value) × (c.is_dirty ≡ true)
  unfolding set_dirty
  set_dirty-Same chan c s s' h = ground arith

  pub pop_expected-Same :
      (l : List Value) (v : Value) (chan c : Chan) (s s' : S)
      → pop_expected cb l chan v s ≡ ok (c, s')
      → Same chan c × (c.is_dirty ≡ true)
  unfolding pop_expected
  pop_expected-Same [] v chan c s s' h = cc
  pop_expected-Same (top ∷ rest) v chan c s s' h = ground arith

  pub write-Same :
      (w : Write) (chan c : Chan) (s s' : S) → write cb w chan s ≡ ok (c, s') → Same chan c
  unfolding write chan_set chan_push chan_dirty
  write-Same (set v) chan c s s' h = ground arith
  write-Same (push v) chan c s s' h = ground arith
  write-Same (pop v) chan c s s' h =
      unfold chan_pop in ground (arith, pop_expected-Same chan.values v chan c s s')
  write-Same dirty chan c s s' h = ground arith

  dirty_fails :
      (w : Write) (c : Chan) (s : S)
      → c.is_dirty ≡ true
      → c.can_dirty_write ≡ false
      → changes_value w ≡ true
      → is_err (write cb w c s) ≡ true
  unfolding write chan_set chan_push chan_pop chan_dirty
  dirty_fails (set v) c s d n h = ground arith
  dirty_fails (push v) c s d n h = ground arith
  dirty_fails (pop v) c s d n h = ground arith
  dirty_fails dirty c s d n h = cc

  -- On a channel without `dirty_write`, once an operation has left the channel dirty every write
  -- of a value fails, until the next flush.
  pub write_once :
      (w w' : Write) (chan c : Chan) (s s' : S)
      → chan.can_dirty_write ≡ false
      → write cb w chan s ≡ ok (c, s')
      → c.is_dirty ≡ true
      → changes_value w' ≡ true
      → is_err (write cb w' c s') ≡ true
  write_once w w' chan c s s' once h d v =
      dirty_fails w' c s' d (ground (arith, write-Same w chan c s s' h)) v

-- The owner that records each call.
abbrev pub record_call : ℕ → List ℕ → Option (List ℕ)
record_call arg log = some (arg ∷ log)

-- What the calls of one phase add to the log.
abbrev pub calls : ℕ → Bool → Bool → List ℕ → List ℕ
calls arg before after log = if before then log else if after then arg ∷ log else log

pop_calls :
    (l : List Value) (v : Value) (arg : ℕ) (chan c : Chan) (log log' : List ℕ)
    → chan.dirty_cb ≡ some arg
    → pop_expected record_call l chan v log ≡ ok (c, log')
    → log' ≡ calls arg chan.is_dirty true log
unfolding pop_expected
pop_calls [] v arg chan c log log' e h = cc
pop_calls (top ∷ rest) v arg chan c log log' e h = ground arith

write_calls :
    (w : Write) (arg : ℕ) (chan c : Chan) (log log' : List ℕ)
    → chan.dirty_cb ≡ some arg
    → write record_call w chan log ≡ ok (c, log')
    → (log' ≡ calls arg chan.is_dirty c.is_dirty log) × (chan.is_dirty ≡ true → c.is_dirty ≡ true)
unfolding write chan_set chan_push chan_dirty
write_calls (set v) arg chan c log log' e h = ground arith
write_calls (push v) arg chan c log log' e h = ground arith
write_calls (pop v) arg chan c log log' e h =
    unfold chan_pop in
    ground (
      arith,
      pop_calls chan.values v arg chan c log log',
      pop_expected-Same record_call chan.values v chan c log log',
    )
write_calls dirty arg chan c log log' e h = ground arith

-- However many operations succeed in one phase, the dirty callback is called exactly once if they
-- leave a clean channel dirty, and not at all otherwise.
pub callback_once :
    (ws : List Write) (arg : ℕ) (chan c : Chan) (log log' : List ℕ)
    → chan.dirty_cb ≡ some arg
    → write_all record_call ws chan log ≡ ok (c, log')
    → (log' ≡ calls arg chan.is_dirty c.is_dirty log) × (chan.is_dirty ≡ true → c.is_dirty ≡ true)
unfolding write_all
callback_once [] arg chan c log log' e h = ground arith
callback_once (w ∷ ws) arg chan c log log' e h =
    let ((d, mid), first, rest) = >>=-eq-ok (write record_call w chan log) _ h in
    ground (
      arith,
      write_calls w arg chan d log mid e first,
      callback_once ws arg d c mid log'
          (ground (arith, write-Same record_call w chan d log mid first)) rest,
    )
