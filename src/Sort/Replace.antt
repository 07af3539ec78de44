-- ===== src/Sort/Replace.antt =====
-- sort_replace of src/emu/sort.c on a sorted array: removing the old value and inserting the new one.
use ovni.Prelude.{
  ℕ, zero, suc, ◌/◌, ◌<◌, ◌≡◌, refl, sym, ap, subst, ◌∙◌, true, false, List, [], ◌∷◌, ◌++◌, arith,
  All, Bool-cases, inl, inr, length, take, drop, take-append-drop, ok, err, ok_inj, ◌>>=◌, >>=-skip,
}
use ovni.Prelude.Int.{ℤ, eq_ℤ, eq_ℤ_iff, ltb_ℤ}
use ovni.Sort.Order.{
  ◌≼◌, ≼_trans, ≼_antisym, lt-≼, lt-ne, lt_trans, ≼-lt, IsSorted, occurrences, remove_value, insert,
}
use ovni.Sort.{shift_left, replace_up, put_back, shift_right, replace_down, sort_replace, at_index}

shift_left-insert : (new : ℤ) (l : List ℤ) → shift_left new l ≡ insert new l
unfolding shift_left
shift_left-insert new [] = refl
shift_left-insert new (y ∷ ys) = elim (Bool-cases (ltb_ℤ new y)) [
  | inl e ↦ rw e refl
  | inr e ↦ rw e (ap (◌∷◌ y) (shift_left-insert new ys))
]

-- A value that is in a list is not below all of it.
none_from : (v x : ℤ) (l : List ℤ) → All (λ y. x ≼ y) l → ltb_ℤ v x ≡ true → occurrences v l ≡ 0
none_from v x [] a h = refl
none_from v x (y ∷ l) (k, a) h =
    let other : eq_ℤ y v ≡ false = ground arith in rw other (none_from v x l a h)

-- The first element that is not below a value of the sorted list is that value.
first_is :
    (old x : ℤ) (xs : List ℤ)
    → IsSorted (x ∷ xs)
    → 0 < occurrences old (x ∷ xs)
    → ltb_ℤ x old ≡ false
    → x ≡ old
first_is old x xs (a, s) h e = elim (Bool-cases (eq_ℤ x old)) [
  | inl same ↦ (eq_ℤ_iff x old).0 same
  | inr other ↦
      ≼_antisym x old
        (elim (Bool-cases (ltb_ℤ old x)) [
          | inl k ↦
              let none_there = none_from old x xs a k in
              absurd (ground (arith, none_there, other, h))
          | inr k ↦ k
        ])
        e
]

-- The first value goes in front of the others.
later :
    (old x : ℤ) (xs : List ℤ)
    → ltb_ℤ x old ≡ true
    → 0 < occurrences old (x ∷ xs)
    → 0 < occurrences old xs
later old x xs e h = ground (arith, lt-ne x old e)

abbrev replaced : ℤ → ℤ → List ℤ → List ℤ
replaced old new l = insert new (remove_value old l)

replace_up_lem :
    (old new : ℤ) (l : List ℤ)
    → ltb_ℤ old new ≡ true
    → IsSorted l
    → 0 < occurrences old l
    → replace_up old new l ≡ ok (replaced old new l)
unfolding replace_up
replace_up_lem old new [] up s h = absurd (omega (arith, h))
replace_up_lem old new (x ∷ xs) up (a, s) h = elim (Bool-cases (ltb_ℤ x old)) [
  | inl e ↦
      let rest = replace_up_lem old new xs up s (later old x xs e h) in
      let other = lt-ne x old e in
      let passed = lt-≼ x new (lt_trans x old new e up) in rw (e, rest, other, passed) refl
  | inr e ↦
      let same = first_is old x xs (a, s) h e in
      let is : eq_ℤ x old ≡ true = (eq_ℤ_iff x old).1 same in
      rw (e, is) (ap ok (shift_left-insert new xs))
]

-- The jump to the middle skips elements that are below the old value.
replace_up-append :
    (old new : ℤ) (pre xs : List ℤ)
    → All (λ y. ltb_ℤ y old ≡ true) pre
    → replace_up old new (pre ++ xs) ≡ (replace_up old new xs >>= λ ys. ok (pre ++ ys))
unfolding replace_up
replace_up-append old new [] xs a = elim (replace_up old new xs) as (λ r. r ≡ (r >>= λ ys. ok ys)) [
  | ok ys ↦ refl
  | err e ↦ refl
]
replace_up-append old new (p ∷ pre) xs (h, a) =
    rw (h, replace_up-append old new pre xs a)
      (elim (replace_up old new xs)
        as (λ r.
          ((r >>= λ ys. ok (pre ++ ys)) >>= λ ys. ok (p ∷ ys)) ≡ (r >>= λ ys. ok (p ∷ pre ++ ys))) [
            | ok ys ↦ refl
            | err e ↦ refl
          ])

above : (x : ℤ) (m : ℕ) (xs : List ℤ) (v : ℤ) → All (λ y. x ≼ y) xs → at_index xs m ≡ ok v → x ≼ v
above x m [] v a e = cc
above x zero (y ∷ xs) v (k, a) e = subst (λ u. x ≼ u) (ok_inj e) k
above x (suc m) (y ∷ xs) v (k, a) e = above x m xs v a e

before_middle :
    (m : ℕ) (l : List ℤ) (v old : ℤ)
    → IsSorted l
    → at_index l m ≡ ok v
    → ltb_ℤ v old ≡ true
    → All (λ y. ltb_ℤ y old ≡ true) (take m l)
before_middle zero l v old s e h = tt
before_middle (suc m) [] v old s e h = tt
before_middle (suc m) (x ∷ xs) v old (a, s) e h =
    (≼-lt x v old (above x m xs v a e) h, before_middle m xs v old s e h)

-- The loops down: what was passed stands in front, last one first.
put_back-insert :
    (new : ℤ) (before l : List ℤ)
    → All (λ y. y ≼ new) before
    → insert new (put_back before l) ≡ put_back before (insert new l)
unfolding put_back
put_back-insert new [] l a = refl
put_back-insert new (y ∷ before) l (h, a) =
    put_back-insert new before (y ∷ l) a ∙ ap (put_back before) (rw h refl)

put_back-remove :
    (old : ℤ) (before l : List ℤ)
    → All (λ y. ltb_ℤ y old ≡ true) before
    → remove_value old (put_back before l) ≡ put_back before (remove_value old l)
unfolding put_back
put_back-remove old [] l a = refl
put_back-remove old (y ∷ before) l (h, a) =
    put_back-remove old before (y ∷ l) a ∙ ap (put_back before) (rw (lt-ne y old h) refl)

-- The passed elements fall.
abbrev Falls : List ℤ → Type 0
Falls [] = Unit
Falls (y ∷ before) = All (λ x. x ≼ y) before × Falls before

All-below : (a b : ℤ) (l : List ℤ) → a ≼ b → All (λ y. y ≼ a) l → All (λ y. y ≼ b) l
All-below a b [] h t = tt
All-below a b (x ∷ l) h (k, t) = (≼_trans x a b k h, All-below a b l h t)

shift_right-insert :
    (new : ℤ) (before after : List ℤ)
    → Falls before
    → insert new after ≡ new ∷ after
    → shift_right new before after ≡ insert new (put_back before after)
unfolding shift_right put_back
shift_right-insert new [] after f h = sym h
shift_right-insert new (y ∷ before) after (a, f) h = elim (Bool-cases (ltb_ℤ new y)) [
  | inl e ↦ rw e (shift_right-insert new before (y ∷ after) f (rw e refl))
  | inr e ↦ rw e (
      sym (
        put_back-insert new before (y ∷ after) (All-below y new before e a)
        ∙ ap (put_back before) (rw e (ap (◌∷◌ y) h))))
]

heads :
    (x : ℤ) (xs before : List ℤ)
    → All (λ y. All (λ z. y ≼ z) (x ∷ xs)) before
    → All (λ y. y ≼ x) before
heads x xs [] o = tt
heads x xs (y ∷ before) (k, o) = (k.0, heads x xs before o)

tails :
    (x : ℤ) (xs before : List ℤ)
    → All (λ y. All (λ z. y ≼ z) (x ∷ xs)) before
    → All (λ y. All (λ z. y ≼ z) xs) before
tails x xs [] o = tt
tails x xs (y ∷ before) (k, o) = (k.1, tails x xs before o)

goes_first :
    (new x : ℤ) (xs : List ℤ) → ltb_ℤ new x ≡ true → All (λ y. x ≼ y) xs → insert new xs ≡ new ∷ xs
goes_first new x [] h a = refl
goes_first new x (y ∷ xs) h (k, a) = let under : ltb_ℤ new y ≡ true = ground arith in rw under refl

replace_down_lem :
    (old new : ℤ) (before l : List ℤ)
    → ltb_ℤ new old ≡ true
    → IsSorted l
    → 0 < occurrences old l
    → Falls before
    → All (λ y. ltb_ℤ y old ≡ true) before
    → All (λ x. All (λ y. x ≼ y) l) before
    → replace_down old new before l ≡ ok (replaced old new (put_back before l))
unfolding replace_down put_back
replace_down_lem old new before [] down s h f b o = absurd (omega (arith, h))
replace_down_lem old new before (x ∷ xs) down (a, s) h f b o = elim (Bool-cases (ltb_ℤ x old)) [
  | inl e ↦ rw e (
      replace_down_lem old new (x ∷ before) xs down s (later old x xs e h) (heads x xs before o, f)
        (e, b) (a, tails x xs before o))
  | inr e ↦
      let same = first_is old x xs (a, s) h e in
      let is : eq_ℤ x old ≡ true = (eq_ℤ_iff x old).1 same in
      let gone : remove_value old (x ∷ xs) ≡ xs = rw is refl in
      let front : insert new xs ≡ new ∷ xs =
        goes_first new x xs (subst (λ u. ltb_ℤ new u ≡ true) (sym same) down) a in
      rw e (
        ap ok (
          shift_right-insert new before xs f front
          ∙ ap (insert new)
              (sym (put_back-remove old before (x ∷ xs) b ∙ ap (put_back before) gone))))
]

at_index_ok : (l : List ℤ) (m : ℕ) → m < length l → (v : ℤ) × (at_index l m ≡ ok v)
at_index_ok [] m h = absurd (omega arith)
at_index_ok (x ∷ l) zero h = (x, refl)
at_index_ok (x ∷ l) (suc m) h = at_index_ok l m (omega arith)

not_empty : (old : ℤ) (l : List ℤ) → 0 < occurrences old l → length l / 2 < length l
not_empty old [] h = absurd (omega (arith, h))
not_empty old (x ∷ l) h = omega arith

replace_up-jump :
    (old new : ℤ) (l : List ℤ)
    → ltb_ℤ old new ≡ true
    → IsSorted l
    → 0 < occurrences old l
    → sort_replace l (length l) old new ≡ ok (replaced old new l)
unfolding sort_replace
replace_up-jump old new l up s h =
    let m = length l / 2 in
    let (v, e) = at_index_ok l m (not_empty old l h) in
    let other = lt-ne old new up in
    let whole = replace_up_lem old new l up s h in
    rw (other, up)
      (>>=-skip (at_index l m) _ e (elim (Bool-cases (ltb_ℤ v old)) [
        | inl low ↦ rw low (
            sym (replace_up-append old new (take m l) (drop m l) (before_middle m l v old s e low))
            ∙ ap (replace_up old new) (take-append-drop m l)
            ∙ whole)
        | inr high ↦ rw high whole
      ]))

-- On a sorted array that has the old value, and not for the same value, `sort_replace` ends without reading
-- past the array, and gives the array from which the old value is removed, and into which the new one is
-- then inserted.
pub replace_lem :
    (l : List ℤ) (old new : ℤ)
    → IsSorted l
    → 0 < occurrences old l
    → eq_ℤ old new ≡ false
    → sort_replace l (length l) old new ≡ ok (insert new (remove_value old l))
unfolding sort_replace
replace_lem l old new s h n = elim (Bool-cases (ltb_ℤ old new)) [
  | inl up ↦ replace_up-jump old new l up s h
  | inr k ↦
      let down : ltb_ℤ new old ≡ true = ground arith in
      rw (n, k) (replace_down_lem old new [] l down s h tt tt tt)
]
