-- ===== src/Sort/Input.antt =====
-- sort_cb_input of src/emu/sort.c: the outputs show the values of the inputs in order.
use ovni.Prelude.{
  ℕ, zero, suc, ◌<◌, ◌≡◌, refl, sym, ap, subst, ◌∙◌, true, false, Option, List, [], ◌∷◌, arith, All,
  if◌then◌else◌, if-cases, Bool-cases, inl, inr, length, ok, >>=-eq-ok, or_err, or_err-eq-ok,
  ok_pair, ok_inj, >>=-take,
}
use ovni.Prelude.Int.{ℤ, eq_ℤ, eq_ℤ_iff}
use ovni.Value.{Value, value_int64, value_is_equal, value_is_equal_iff}
use ovni.Chan.{Chan, chan_read, chan_set}
use ovni.Chan.Contents.{IsOutput, set-IsOutput}
use ovni.Sort.Order.{
  IsSorted, occurrences, remove_value, insert, remove-IsSorted, insert-IsSorted, occurrences-insert,
  occurrences-remove, length-insert, length-remove_value,
}
use ovni.Sort.Replace.{replace_lem}
use ovni.Sort.{
  Sort, at_index, set_index, write_outputs, new_sorted, sort_cb_input, int_or_zero, chan_set_failed,
}

-- What the C library says of `qsort` with `cmp_int64`.
pub record IsQsort (qsort : List ℤ → List ℤ) : Type 0 where
  pub sorts : (l : List ℤ) → IsSorted (qsort l)
  pub same_values : (v : ℤ) (l : List ℤ) → occurrences v (qsort l) ≡ occurrences v l
  pub same_length : (l : List ℤ) → length (qsort l) ≡ length l

-- The channels read the values, one by one.
abbrev pub Shows : List Chan → List ℤ → Type 0
Shows (out ∷ outs) (v ∷ vs) = (chan_read out ≡ value_int64 v) × Shows outs vs
Shows outs vs = Unit

pub record IsSorting (sort : Sort) : Type 0 where
  pub n_values : length sort.values ≡ sort.n
  pub n_sorted : length sort.sorted ≡ sort.n
  pub n_outputs : length sort.outputs ≡ sort.n
  pub channels : All IsOutput sort.outputs
  pub in_order : sort.copied ≡ true → IsSorted sort.sorted
  pub rearranged :
      sort.copied ≡ true → (v : ℤ) → occurrences v sort.sorted ≡ occurrences v sort.values
  pub shown : sort.copied ≡ true → Shows sort.outputs sort.sorted

at_index-occurs : (l : List ℤ) (i : ℕ) (v : ℤ) → at_index l i ≡ ok v → 0 < occurrences v l
at_index-occurs [] i v e = cc
at_index-occurs (x ∷ l) zero v e = ground (arith, eq_ℤ_iff x v, ok_inj e)
at_index-occurs (x ∷ l) (suc i) v e = ground (arith, at_index-occurs l i v e)

length-set_index : (l : List ℤ) (i : ℕ) (v : ℤ) → length (set_index l i v) ≡ length l
length-set_index [] i v = refl
length-set_index (x ∷ l) zero v = refl
length-set_index (x ∷ l) (suc i) v = ap suc (length-set_index l i v)

at_index-set_index :
    (l : List ℤ) (i : ℕ) (v old : ℤ) → at_index l i ≡ ok old → at_index (set_index l i v) i ≡ ok v
at_index-set_index [] i v old e = cc
at_index-set_index (x ∷ l) zero v old e = refl
at_index-set_index (x ∷ l) (suc i) v old e = at_index-set_index l i v old e

occurrences-set_index :
    (w v old : ℤ) (l : List ℤ) (i : ℕ)
    → at_index l i ≡ ok old
    → (if eq_ℤ old w
        then suc (occurrences w (set_index l i v))
        else occurrences w (set_index l i v))
      ≡ (if eq_ℤ v w then suc (occurrences w l) else occurrences w l)
occurrences-set_index w v old [] i e = cc
occurrences-set_index w v old (x ∷ l) zero e = let same = ok_inj e in ground arith
occurrences-set_index w v old (x ∷ l) (suc i) e =
    ground (arith, occurrences-set_index w v old l i e)

module _ {S : Type 0} (cb : ℕ → S → Option S) where
  module _ (qsort : List ℤ → List ℤ) where
    write_outputs_lem :
        (outs outs' : List Chan) (vs : List ℤ) (s s' : S)
        → length outs ≡ length vs
        → All IsOutput outs
        → write_outputs qsort cb outs vs s ≡ ok (outs', s')
        → All IsOutput outs' × Shows outs' vs × (length outs' ≡ length outs)
    unfolding write_outputs
    write_outputs_lem [] outs' vs s s' n a h =
        let (same, o) = ok_pair h in
        subst (λ l. All IsOutput l × Shows l vs × (length l ≡ 0)) same (tt, tt, refl)
    write_outputs_lem (out ∷ outs) outs' [] s s' n a h = absurd (omega (arith, n))
    write_outputs_lem (out ∷ outs) outs' (v ∷ vs) s s' n (i, a) h =
        let val = value_int64 v in
        let ((out1, s1), first, h1) =
          >>=-eq-ok
            (if value_is_equal (chan_read out) val
              then ok (out, s)
              else or_err chan_set_failed (chan_set cb out val s))
            _ h in
        let ((outs1, s2), others, h2) = >>=-eq-ok (write_outputs qsort cb outs vs s1) _ h1 in
        let (here, reads) = one out out1 val s s1 i first in
        let (there, shown, len) =
          write_outputs_lem outs outs1 vs s1 s2 (omega (arith, n)) a others in
        subst (λ l. All IsOutput l × Shows l (v ∷ vs) × (length l ≡ suc (length outs)))
          ((ok_pair h2).0) ((here, there), (reads, shown), ap suc len)
      where
        one :
            (out c : Chan) (v : Value) (s s' : S)
            → IsOutput out
            → (if value_is_equal (chan_read out) v
                then ok (out, s)
                else or_err chan_set_failed (chan_set cb out v s))
              ≡ ok (c, s')
            → IsOutput c × (chan_read c ≡ v)
        one out c v s s' i h = elim (Bool-cases (value_is_equal (chan_read out) v)) [
          | inl e ↦
              let same = (ok_pair (rw e at h)).0 in
              subst (λ u. IsOutput u × (chan_read u ≡ v)) same
                (i, (value_is_equal_iff (chan_read out) v).0 e)
          | inr e ↦ set-IsOutput cb out c v s s' i (or_err-eq-ok chan_set_failed _ (rw e at h))
        ]

module _ {S : Type 0} (qsort : List ℤ → List ℤ) (law : IsQsort qsort) (cb : ℕ → S → Option S) where
  -- The array in order after a change: it is found without an error.
  record Resorted (sort : Sort) (values sorted : List ℤ) : Type 0 where
    is_sorted : IsSorted sorted
    has_values : (v : ℤ) → occurrences v sorted ≡ occurrences v values
    n_elements : length sorted ≡ sort.n

  new_sorted_lem :
      (sort : Sort) (index : ℕ) (old new : ℤ)
      → IsSorting sort
      → at_index sort.values index ≡ ok old
      → eq_ℤ old new ≡ false
      → (sorted : List ℤ) × (new_sorted qsort cb sort (set_index sort.values index new) old new
          ≡ ok sorted)
        × Resorted sort (set_index sort.values index new) sorted
  unfolding new_sorted
  new_sorted_lem sort index old new i e n =
      let values = set_index sort.values index new in
      let len = length-set_index sort.values index new in
      elim (Bool-cases sort.copied) [
        | inl c ↦
            let l = sort.sorted in
            let there : 0 < occurrences old l =
              omega (arith, i.rearranged c old, at_index-occurs sort.values index old e) in
            let kept = remove_value old l in
            (
              insert new kept,
              rw (c, sym i.n_sorted) (replace_lem l old new (i.in_order c) there n),
              record {
                is_sorted = insert-IsSorted new kept (remove-IsSorted old l (i.in_order c));
                has_values = λ w. ground (
                  arith,
                  occurrences-insert w new kept,
                  occurrences-remove w old l there,
                  i.rearranged c w,
                  occurrences-set_index w new old sort.values index e,
                );
                n_elements = length-insert new kept ∙ length-remove_value old l there ∙ i.n_sorted;
              },
            )
        | inr c ↦ (
          qsort values,
          rw c refl,
          record {
            is_sorted = law.sorts values;
            has_values = λ w. law.same_values w values;
            n_elements = law.same_length values ∙ len ∙ i.n_values;
          },
        )
      ]

  -- An input that changes with success sets its value, 0 where it is not an integer, and leaves the
  -- module in order: the array holds the values of all inputs, sorted, and the outputs read it.
  pub cb_input_lem :
      (in_chan : Chan) (index : ℕ) (sort sort' : Sort) (s s' : S)
      → IsSorting sort
      → sort_cb_input qsort cb in_chan index sort s ≡ ok (sort', s')
      → IsSorting sort' × (at_index sort'.values index ≡ ok (int_or_zero (chan_read in_chan)))
  unfolding sort_cb_input
  cb_input_lem in_chan index sort sort' s s' i h =
      let new = int_or_zero (chan_read in_chan) in
      let values = set_index sort.values index new in
      let (old, e, h1) = >>=-eq-ok (at_index sort.values index) _ h in
      elim (if-cases (eq_ℤ old new) _ _ h1) [
        | inl (same, done) ↦
            subst (λ u. IsSorting u × (at_index u.values index ≡ ok new)) ((ok_pair done).0)
              (i, e ∙ ap ok ((eq_ℤ_iff old new).0 same))
        | inr (other, h1) ↦
            let (sorted, found, r) = new_sorted_lem sort index old new i e other in
            let h2 = >>=-take (new_sorted qsort cb sort values old new) _ found h1 in
            let ((outs, s1), wrote, h3) =
              >>=-eq-ok (write_outputs qsort cb sort.outputs sorted s) _ h2 in
            let (channels, shown, len) =
              write_outputs_lem cb qsort sort.outputs outs sorted s s1
                (i.n_outputs ∙ sym r.n_elements) i.channels wrote in
            subst (λ u. IsSorting u × (at_index u.values index ≡ ok new)) ((ok_pair h3).0)
              (
                record {
                  n_values = length-set_index sort.values index new ∙ i.n_values;
                  n_sorted = r.n_elements;
                  n_outputs = len ∙ i.n_outputs;
                  channels = channels;
                  in_order = λ c. r.is_sorted;
                  rearranged = λ c. r.has_values;
                  shown = λ c. shown;
                },
                at_index-set_index sort.values index new old e,
              )
      ]
