-- ===== src/Chan/Contents.antt =====
-- What a channel of src/emu/chan.c holds: the value that was set, and a bounded stack.
use ovni.Prelude.{
  ℕ, ◌≡◌, refl, ◌⊎◌, inl, inr, Bool, true, false, not, ◌&&◌, Option, none, some, List, [], ◌∷◌,
  arith, if◌then◌else◌, leb, length, Result, ok, err, ◌>>=◌, >>=-eq-ok, Result-cases,
}
use ovni.Value.{Value, value_is_equal, value_is_equal_iff}
use ovni.Chan.{
  Chan, ChanType, single, stack, chan_init, chan_read, chan_flush, chan_set, chan_push, chan_pop,
  ChanError, max_chan_stack, chan_dirty, set_dirty, pop_expected, top_or_null,
}
use ovni.Chan.Protocol.{
  Write, set, push, pop, dirty, write, write-Same, pop_expected-Same, flush_lem,
}

-- A clean channel remembers what it holds.
abbrev pub IsSettled : Chan → Type 0
IsSettled chan = chan.is_dirty ≡ false → chan.last_value ≡ chan_read chan

pub init-IsSettled : (t : ChanType) → IsSettled (chan_init t)
unfolding chan_init chan_read
init-IsSettled single h = refl
init-IsSettled stack h = refl

pub flush-IsSettled : (chan c : Chan) → chan_flush chan ≡ ok c → IsSettled c
flush-IsSettled chan c h = ground (arith, flush_lem chan c)

module _ {S : Type 0} (cb : ℕ → S → Option S) where
  -- Every operation on a channel keeps it settled.
  pub write-IsSettled :
      (w : Write) (chan c : Chan) (s s' : S)
      → write cb w chan s ≡ ok (c, s')
      → IsSettled chan
      → IsSettled c
  unfolding write chan_set chan_push chan_dirty
  write-IsSettled (set v) chan c s s' h k = ground arith
  write-IsSettled (push v) chan c s s' h k = ground arith
  write-IsSettled (pop v) chan c s s' h k =
      unfold chan_pop in ground (arith, pop_expected-Same cb chan.values v chan c s s')
  write-IsSettled dirty chan c s s' h k = ground arith

  -- A successful `chan_set` on a settled channel makes it read the value, also where the write is
  -- skipped as a duplicate, unless the channel combines `dirty_write` and `ignore_dup`.
  pub set-read :
      (v : Value) (chan c : Chan) (s s' : S)
      → IsSettled chan
      → (chan.can_dirty_write ≡ false) ⊎ (chan.can_dup ≡ true)
      → chan_set cb chan v s ≡ ok (c, s')
      → chan_read c ≡ v
  unfolding chan_set chan_read set_dirty
  set-read v chan c s s' k p h = ground (arith, value_is_equal_iff chan.last_value v)

-- A channel that takes duplicates, as the outputs of multiplexers and of sort modules, in any phase.
pub record IsOutput (chan : Chan) : Type 0 where
  pub settled : IsSettled chan
  pub takes_dup : chan.can_dup ≡ true

module _ {S : Type 0} (cb : ℕ → S → Option S) where
  pub set-IsOutput :
      (out c : Chan) (v : Value) (s s' : S)
      → IsOutput out
      → chan_set cb out v s ≡ ok (c, s')
      → IsOutput c × (chan_read c ≡ v)
  set-IsOutput out c v s s' i h = (
    record {
      settled = write-IsSettled cb (set v) out c s s' (unfold write in h) i.settled;
      takes_dup = ground (arith, write-Same cb (set v) out c s s' (unfold write in h), i.takes_dup);
    },
    set-read cb v out c s s' i.settled (inr i.takes_dup) h,
  )

-- The operations on a stack, and the bounded stack that they work on. Without `allow_dup` the value
-- on top, or null on the empty stack, cannot be pushed again.
pub data StackOp : Type 0 where
  pushes pops : Value → StackOp

abbrev pub stack_step : Bool → StackOp → List Value → Option (List Value)
stack_step dup (pushes v) q =
    if not dup && value_is_equal (top_or_null q) v
    then none
    else if leb max_chan_stack (length q)
    then none
    else some (v ∷ q)
stack_step dup (pops v) [] = none
stack_step dup (pops v) (top ∷ rest) = if value_is_equal top v then some rest else none

abbrev pub and_then {ℓ κ} : {A : Type ℓ} {B : Type κ} → (A → Option B) → Option A → Option B
and_then f none = none
and_then f (some a) = f a

unfoldable pub stack_run : Bool → List StackOp → List Value → Option (List Value)
stack_run dup [] q = some q
stack_run dup (o ∷ os) q = and_then (stack_run dup os) (stack_step dup o q)

-- A channel of stack type between two phases.
pub record IsStack (dup : Bool) (chan : Chan) : Type 0 where
  pub is_stack : chan.type ≡ stack
  pub clean : chan.is_dirty ≡ false
  pub dups : chan.can_dup ≡ dup
  pub no_skip : chan.skips_dup ≡ false
  pub settled : chan.last_value ≡ top_or_null chan.values

abbrev pub contents : {S : Type 0} → Result ChanError (Chan × S) → Option (List Value)
contents (ok (c, s)) = some c.values
contents (err e) = none

-- Each operation, and the flush that ends its phase, with a callback that does not fail.
module _ {S : Type 0} (f : ℕ → S → S) where
  abbrev pub calling : ℕ → S → Option S
  calling arg s = some (f arg s)

  abbrev pub stack_write : StackOp → Write
  stack_write (pushes v) = push v
  stack_write (pops v) = pop v

  unfoldable pub phase : StackOp → Chan → S → Result ChanError (Chan × S)
  phase o chan s = do (c, s') ← write calling (stack_write o) chan s; d ← chan_flush c; ok (d, s')

  unfoldable pub phases : List StackOp → Chan → S → Result ChanError (Chan × S)
  phases [] chan s = ok (chan, s)
  phases (o ∷ os) chan s = phase o chan s >>= λ (c, s'). phases os c s'

  pops_refines :
      (v : Value) (dup : Bool) (l : List Value) (chan : Chan) (s : S)
      → IsStack dup chan
      → contents (pop_expected calling l chan v s >>= λ (c, s'). chan_flush c >>= λ d. ok (d, s'))
        ≡ stack_step dup (pops v) l
  unfolding pop_expected chan_flush set_dirty
  pops_refines v dup [] chan s i = refl
  pops_refines v dup (top ∷ rest) chan s i = ground arith

  phase_refines :
      (o : StackOp) (dup : Bool) (chan : Chan) (s : S)
      → IsStack dup chan
      → contents (phase o chan s) ≡ stack_step dup o chan.values
  unfolding phase write chan_push chan_flush set_dirty
  phase_refines (pushes v) dup chan s i = ground arith
  phase_refines (pops v) dup chan s i =
      unfold chan_pop in ground (arith, pops_refines v dup chan.values chan s i)

  phase-IsStack :
      (o : StackOp) (dup : Bool) (chan d : Chan) (s s' : S)
      → IsStack dup chan
      → phase o chan s ≡ ok (d, s')
      → IsStack dup d
  unfolding phase chan_read chan_flush
  phase-IsStack o dup chan d s s' i h =
      let ((c, mid), first, rest) = >>=-eq-ok (write calling (stack_write o) chan s) _ h in
      ground (arith, write-Same calling (stack_write o) chan c s mid first)

  -- A clean and settled channel of stack type that does not ignore duplicates, with a dirty callback that never
  -- fails, flushed after each operation, behaves as a stack that holds at most `max_chan_stack` values, fails to
  -- pop what is not on top, and, unless the channel allows duplicates, to push what is on top: the same
  -- operations succeed, and the channel holds the same values.
  pub phases_refine :
      (os : List StackOp) (dup : Bool) (chan : Chan) (s : S)
      → IsStack dup chan
      → contents (phases os chan s) ≡ stack_run dup os chan.values
  unfolding phases stack_run
  phases_refine [] dup chan s i = refl
  phases_refine (o ∷ os) dup chan s i =
      rw (← phase_refines o dup chan s i) (elim (Result-cases (phase o chan s)) [
        | inl ((c, s'), h) ↦ rw h (phases_refine os dup c s' (phase-IsStack o dup chan c s s' i h))
        | inr (e, h) ↦ rw h
      ])
