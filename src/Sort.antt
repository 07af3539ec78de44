-- ===== src/Sort.antt =====
-- src/emu/sort.c: channels that show the values of the input channels in order.
pub mod Order
pub mod Replace
pub mod Input
mod Tests
use ovni.Prelude.{
  ℕ, zero, suc, ◌/◌, ◌≡◌, Bool, true, false, not, Option, none, some, List, [], ◌∷◌, ◌++◌,
  if◌then◌else◌, length, take, drop, get_elem?, Result, ok, err, ◌>>=◌, or_err,
}
use ovni.Prelude.Int.{ℤ, pos, eq_ℤ, ltb_ℤ}
use ovni.Value.{Value, int64, value_int64, value_is_equal, eq_type}
use ovni.Chan.{Chan, single, dirty_write, allow_dup, chan_init, chan_prop_set, chan_read, chan_set}

-- `struct sort`, without its bay; the pointers to the input channels by whether they are set.
pub record Sort : Type 0 where
  pub n : ℕ
  pub inputs : List Bool
  pub outputs : List Chan
  pub values : List ℤ
  pub sorted : List ℤ
  pub copied : Bool

pub data SortError : Type 0 where
  died out_of_bounds chan_set_failed input_taken : SortError

-- The element of an array, and a write to it.
abbrev pub at_index {ℓ} : {A : Type ℓ} → List A → ℕ → Result SortError A
at_index [] i = err out_of_bounds
at_index (x ∷ xs) zero = ok x
at_index (x ∷ xs) (suc i) = at_index xs i

abbrev pub set_index {ℓ} : {A : Type ℓ} → List A → ℕ → A → List A
set_index [] i v = []
set_index (x ∷ xs) zero v = v ∷ xs
set_index (x ∷ xs) (suc i) v = x ∷ set_index xs i v

-- From the element after the hole on: the elements up to `new` move left, `new` takes the place that is left.
unfoldable pub shift_left : ℤ → List ℤ → List ℤ
shift_left new [] = new ∷ []
shift_left new (y ∷ ys) = if not (ltb_ℤ new y) then y ∷ shift_left new ys else new ∷ y ∷ ys

-- The loop that skips the elements below `old`, which is replaced.
unfoldable pub replace_up : ℤ → ℤ → List ℤ → Result SortError (List ℤ)
unfolding shift_left
replace_up old new [] = err out_of_bounds
replace_up old new (x ∷ xs) = do
  let rest = replace_up old new xs
  if ltb_ℤ x old then (rest >>= λ ys. ok (x ∷ ys)) else ok (shift_left new xs)

-- The elements that were passed, last one first, go before the others.
unfoldable pub put_back : List ℤ → List ℤ → List ℤ
put_back [] after = after
put_back (x ∷ before) after = put_back before (x ∷ after)

-- From the element before the hole back: the elements above `new` move right.
unfoldable pub shift_right : ℤ → List ℤ → List ℤ → List ℤ
unfolding put_back
shift_right new [] after = new ∷ after
shift_right new (y ∷ before) after =
    if ltb_ℤ new y then shift_right new before (y ∷ after) else put_back (y ∷ before) (new ∷ after)

unfoldable pub replace_down : ℤ → ℤ → List ℤ → List ℤ → Result SortError (List ℤ)
unfolding shift_right
replace_down old new before [] = err out_of_bounds
replace_down old new before (x ∷ xs) =
    if ltb_ℤ x old then replace_down old new (x ∷ before) xs else ok (shift_right new before xs)

-- On an array of `n` elements.
unfoldable pub sort_replace : List ℤ → ℕ → ℤ → ℤ → Result SortError (List ℤ)
unfolding replace_up replace_down
sort_replace arr n old new =
    if eq_ℤ old new
    then err died
    else if ltb_ℤ old new
    then (at_index arr (n / 2) >>= λ middle.
        if ltb_ℤ middle old
        then (replace_up old new (drop (n / 2) arr) >>= λ ys. ok (take (n / 2) arr ++ ys))
        else replace_up old new arr)
    else replace_down old new [] arr

abbrev pub int_or_zero : Value → ℤ
int_or_zero v = if eq_type v.type int64 then v.i else pos 0

module _ {S : Type 0} (qsort : List ℤ → List ℤ) (cb : ℕ → S → Option S) where
  -- The loop over the outputs.
  unfoldable pub write_outputs : List Chan → List ℤ → S → Result SortError (List Chan × S)
  write_outputs (out ∷ outs) (v ∷ vs) s =
      let val = value_int64 v in
      (if value_is_equal (chan_read out) val
        then ok (out, s)
        else or_err chan_set_failed (chan_set cb out val s))
      >>= λ (out', s1). write_outputs outs vs s1 >>= λ (outs', s2). ok (out' ∷ outs', s2)
  write_outputs outs vs s = ok (outs, s)

  -- The array in order, after the value at an index has changed.
  unfoldable pub new_sorted : Sort → List ℤ → ℤ → ℤ → Result SortError (List ℤ)
  unfolding sort_replace
  new_sorted sort values old new =
      if sort.copied then sort_replace sort.sorted sort.n old new else ok (qsort values)

  unfoldable pub sort_cb_input : Chan → ℕ → Sort → S → Result SortError (Sort × S)
  unfolding write_outputs new_sorted
  sort_cb_input in_chan index sort s = do
    let new = int_or_zero (chan_read in_chan)
    old ← at_index sort.values index
    if eq_ℤ old new
        then ok (sort, s)
        else (new_sorted sort (set_index sort.values index new) old new >>= λ sorted.
            write_outputs sort.outputs sorted s >>= λ (outs, s'). ok (
              record sort {
                values = set_index sort.values index new;
                sorted = sorted;
                copied = true;
                outputs = outs;
              },
              s',
            ))

abbrev pub replicate {ℓ} : {A : Type ℓ} → ℕ → A → List A
replicate zero a = []
replicate (suc n) a = a ∷ replicate n a

abbrev pub output : Chan
output = chan_prop_set (chan_prop_set (chan_init single) dirty_write true) allow_dup true

unfoldable pub sort_init : ℕ → Sort
sort_init n = record {
  n = n;
  inputs = replicate n false;
  outputs = replicate n output;
  values = replicate n (pos 0);
  sorted = replicate n (pos 0);
  copied = false;
}

unfoldable pub sort_set_input : Sort → ℕ → Result SortError Sort
sort_set_input sort index = do
  taken ← at_index sort.inputs index
  if taken then err input_taken else ok (record sort { inputs = set_index sort.inputs index true })

unfoldable pub sort_get_output : Sort → ℕ → Result SortError Chan
sort_get_output sort index = at_index sort.outputs index
