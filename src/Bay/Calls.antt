-- ===== src/Bay/Calls.antt =====
-- When a write to a channel of src/emu/chan.c calls the callback that src/emu/bay.c gave it.
use ovni.Prelude.{
  ℕ, ◌≡◌, refl, Bool, true, false, Option, some, List, [], ◌∷◌, arith, ok, inl, inr, ◌⊎◌,
}
use ovni.Value.{Value}
use ovni.Chan.{Chan, chan_set, chan_push, chan_pop, chan_dirty, set_dirty, call_dirty, pop_expected}
use ovni.Chan.Protocol.{Write, set, push, pop, dirty, write}

-- When a write calls the callback of its channel.
pub record Called {S : Type 0} (cb : ℕ → S → Option S) (arg : ℕ) (chan c : Chan) (s s' : S)
    : Type 0 where
  pub stays_dirty : chan.is_dirty ≡ true → c.is_dirty ≡ true
  pub not_called : chan.is_dirty ≡ c.is_dirty → s' ≡ s
  pub called : chan.is_dirty ≡ false → c.is_dirty ≡ true → cb arg s ≡ some s'

module _ {S : Type 0} (cb : ℕ → S → Option S) (arg : ℕ) where
  set_dirty-Called :
      (chan c : Chan) (s s' : S)
      → chan.dirty_cb ≡ some arg
      → set_dirty cb chan s ≡ ok (c, s')
      → Called cb arg chan c s s'
  unfolding set_dirty call_dirty
  set_dirty-Called chan c s s' e h = record {
    stays_dirty = ground arith;
    not_called = ground arith;
    called = ground arith;
  }

  pop-Called :
      (l : List Value) (v : Value) (chan c : Chan) (s s' : S)
      → chan.dirty_cb ≡ some arg
      → pop_expected cb l chan v s ≡ ok (c, s')
      → Called cb arg chan c s s'
  unfolding pop_expected set_dirty call_dirty
  pop-Called [] v chan c s s' e h = cc
  pop-Called (top ∷ rest) v chan c s s' e h = record {
    stays_dirty = ground arith;
    not_called = ground arith;
    called = ground arith;
  }

  pub write-Called :
      (w : Write) (chan c : Chan) (s s' : S)
      → chan.dirty_cb ≡ some arg
      → write cb w chan s ≡ ok (c, s')
      → Called cb arg chan c s s'
  unfolding write chan_set chan_push chan_dirty chan_pop set_dirty call_dirty
  write-Called (set v) chan c s s' e h = record {
    stays_dirty = ground arith;
    not_called = ground arith;
    called = ground arith;
  }
  write-Called (push v) chan c s s' e h = record {
    stays_dirty = ground arith;
    not_called = ground arith;
    called = ground arith;
  }
  write-Called (pop v) chan c s s' e h = pop-Called chan.values v chan c s s' e (ground arith)
  write-Called dirty chan c s s' e h = record {
    stays_dirty = ground arith;
    not_called = ground arith;
    called = ground arith;
  }

pub dirty-cases : (a b : Bool) → (a ≡ true → b ≡ true) → (b ≡ a) ⊎ ((a ≡ false) × (b ≡ true))
dirty-cases true b h = inl (h refl)
dirty-cases false true h = inr (refl, refl)
dirty-cases false false h = inl refl
