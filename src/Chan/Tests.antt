-- ===== src/Chan/Tests.antt =====
-- Runs of the channel operations, and the theorems at concrete channels.
use ovni.Prelude.{arith, ◌≡◌, refl, inl, true, false, some, [], ◌∷◌, ok, err}
use ovni.Prelude.Int.{pos}
use ovni.Value.{Value, value_int64, value_null}
use ovni.Chan.{
  Chan, single, stack, ignore_dup, chan_init, chan_prop_set, chan_set_dirty_cb, chan_read, chan_set,
  same_value,
}
use ovni.Chan.Protocol.{
  set, write, write_all, write_once, callback_once, calls, record_call, is_err,
}
use ovni.Chan.Contents.{set-read, IsStack, pushes, pops, phases, stack_run, contents, phases_refine}

abbrev watched : Chan
watched = record {
  is_dirty = false;
  can_dirty_write = false;
  can_dup = false;
  skips_dup = false;
  dirty_cb = some 7;
  last_value = value_null;
  type = single;
  value = value_null;
  values = [];
}

abbrev one : Value
one = value_int64 (pos 1)

abbrev written : Chan
written = record watched { is_dirty = true; value = one }

watched_lem : chan_set_dirty_cb (chan_init single) 7 ≡ watched
unfolding chan_set_dirty_cb chan_init
watched_lem = refl

-- A value equal to the last one is refused, or skipped with `ignore_dup`.
null_twice :
    (chan_set record_call watched value_null [] ≡ err same_value)
    × (chan_set record_call (chan_prop_set watched ignore_dup true) value_null []
        ≡ ok (chan_prop_set watched ignore_dup true, []))
unfolding chan_set chan_prop_set
null_twice = (refl, refl)

abbrev pile : Chan
pile = record watched { type = stack }

write_once_example : is_err (write record_call (set value_null) written (7 ∷ [])) ≡ true
unfolding write chan_set
write_once_example =
    write_once record_call (set one) (set value_null) watched written [] (7 ∷ []) refl refl refl
      refl

callback_once_example : (7 ∷ [] ≡ calls 7 false true []) × (false ≡ true → true ≡ true)
unfolding write_all write chan_set
callback_once_example = callback_once (set one ∷ []) 7 watched written [] (7 ∷ []) refl refl

set-read_example : chan_read written ≡ one
unfolding chan_set chan_read
set-read_example = set-read record_call one watched written [] (7 ∷ []) (λ e. refl) (inl refl) refl

pile-IsStack : IsStack false pile
pile-IsStack = ground arith

phases_refine_example :
    contents (phases (λ arg log. arg ∷ log) (pushes one ∷ pops one ∷ []) pile [])
    ≡ stack_run false (pushes one ∷ pops one ∷ []) []
phases_refine_example =
    phases_refine (λ arg log. arg ∷ log) (pushes one ∷ pops one ∷ []) false pile [] pile-IsStack

-- With `dirty_write` and `ignore_dup` together, a write of the last value is skipped although the
-- channel holds another one.
stale_read :
    let chan = record written { can_dirty_write = true; skips_dup = true } in
    chan_set record_call chan value_null [] ≡ ok (chan, [])
unfolding chan_set
stale_read = refl
