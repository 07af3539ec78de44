-- ===== src/Sort/Tests.antt =====
-- The theorems on src/emu/sort.c at an array with three values.
use ovni.Prelude.{ℕ, ◌≡◌, refl, ap, ◌∙◌, arith, true, Option, some, List, [], ◌∷◌, ok, suc, length}
use ovni.Prelude.Int.{ℤ, pos, negsuc}
use ovni.Value.{value_int64}
use ovni.Chan.{Chan, chan_init, chan_prop_set, chan_read, chan_set, set_dirty, call_dirty}
use ovni.Sort.Order.{
  IsSorted, occurrences, insert, remove_value, insert-IsSorted, occurrences-insert, length-insert,
}
use ovni.Sort.Replace.{replace_lem}
use ovni.Sort.Input.{IsQsort, IsSorting, cb_input_lem}
use ovni.Sort.{
  Sort, sort_replace, sort_cb_input, write_outputs, new_sorted, replace_up, replace_down,
  shift_left, shift_right, put_back, at_index, output,
}

abbrev array : List ℤ
array = negsuc 3 ∷ pos 0 ∷ pos 7 ∷ []

array-IsSorted : IsSorted array
array-IsSorted = ((refl, (refl, tt)), ((refl, tt), (tt, tt)))

replaced_up : sort_replace array 3 (pos 0) (pos 9) ≡ ok (negsuc 3 ∷ pos 7 ∷ pos 9 ∷ [])
unfolding sort_replace replace_up shift_left
replaced_up = refl

replaced_down : sort_replace array 3 (pos 7) (negsuc 4) ≡ ok (negsuc 4 ∷ negsuc 3 ∷ pos 0 ∷ [])
unfolding sort_replace replace_down shift_right put_back
replaced_down = refl

replace_lem_example :
    sort_replace array 3 (pos 0) (pos 9) ≡ ok (insert (pos 9) (remove_value (pos 0) array))
replace_lem_example = replace_lem array (pos 0) (pos 9) array-IsSorted (omega arith) refl

insertion_sort : List ℤ → List ℤ
insertion_sort [] = []
insertion_sort (x ∷ xs) = insert x (insertion_sort xs)

insertion_sort-IsQsort : IsQsort insertion_sort
unfolding insertion_sort
insertion_sort-IsQsort = record { sorts = sorts; same_values = values; same_length = same_length }
  where
    sorts : (l : List ℤ) → IsSorted (insertion_sort l)
    sorts [] = tt
    sorts (x ∷ xs) = insert-IsSorted x (insertion_sort xs) (sorts xs)

    values : (v : ℤ) (l : List ℤ) → occurrences v (insertion_sort l) ≡ occurrences v l
    values v [] = refl
    values v (x ∷ xs) = ground (arith, occurrences-insert v x (insertion_sort xs), values v xs)

    same_length : (l : List ℤ) → length (insertion_sort l) ≡ length l
    same_length [] = refl
    same_length (x ∷ xs) = length-insert x (insertion_sort xs) ∙ ap suc (same_length xs)

abbrev clean : ℤ → Chan
clean v = record output { value = value_int64 v; last_value = value_int64 v }

abbrev written : ℤ → ℤ → Chan
written old v = record output {
  is_dirty = true;
  value = value_int64 v;
  last_value = value_int64 old;
}

-- The inputs hold 7, nothing and -4.
abbrev sort : Sort
sort = record {
  n = 3;
  inputs = true ∷ true ∷ true ∷ [];
  outputs = clean (negsuc 3) ∷ clean (pos 0) ∷ clean (pos 7) ∷ [];
  values = pos 7 ∷ pos 0 ∷ negsuc 3 ∷ [];
  sorted = array;
  copied = true;
}

sort-IsSorting : IsSorting sort
unfolding chan_init chan_prop_set chan_read
sort-IsSorting = record {
  n_values = refl;
  n_sorted = refl;
  n_outputs = refl;
  channels = (
    record { settled = λ h. refl; takes_dup = refl },
    (
      record { settled = λ h. refl; takes_dup = refl },
      (record { settled = λ h. refl; takes_dup = refl }, tt),
    ),
  );
  in_order = λ c. array-IsSorted;
  rearranged = λ c v. ground arith;
  shown = λ c. (refl, (refl, (refl, tt)));
}

abbrev log : ℕ → List ℕ → Option (List ℕ)
log arg l = some (arg ∷ l)

-- The second input gets the value 9.
abbrev sort' : Sort
sort' = record sort {
  outputs = clean (negsuc 3) ∷ written (pos 0) (pos 7) ∷ written (pos 7) (pos 9) ∷ [];
  values = pos 7 ∷ pos 9 ∷ negsuc 3 ∷ [];
  sorted = negsuc 3 ∷ pos 7 ∷ pos 9 ∷ [];
}

changed : sort_cb_input insertion_sort log (clean (pos 9)) 1 sort [] ≡ ok (sort', [])
unfolding sort_cb_input new_sorted sort_replace replace_up shift_left write_outputs chan_set
    set_dirty call_dirty chan_init chan_prop_set chan_read
changed = refl

cb_input_lem_example : IsSorting sort' × (at_index sort'.values 1 ≡ ok (pos 9))
unfolding chan_init chan_prop_set chan_read
cb_input_lem_example =
    cb_input_lem insertion_sort insertion_sort-IsQsort log (clean (pos 9)) 1 sort sort' [] []
      sort-IsSorting changed
