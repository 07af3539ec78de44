-- ===== src/Vendor/Samples.antt =====
-- The interfaces of Vendor.antt by a function and by a list.
use ovni.Prelude.{
  ℕ, ◌≡◌, ◌∙◌, refl, ap, subst, false, Option, none, some, List, [], ◌∷◌, ◌++◌, if◌then◌else◌, ◌==◌,
  arith, inl, inr,
}
use ovni.Vendor.{
  LinkedList, IsLinkedList, HashTable, IsHashTable, update, update_at, update_other, first, remove,
  IsNext, Member, Distinct,
}

abbrev pub table : HashTable (ℕ → Option ℕ)
table = record {
  empty_table = λ k. none;
  find_int = λ t k. t k;
  add_int = λ k p t. update t k (some p);
}

pub table-IsHashTable : IsHashTable table
table-IsHashTable = record {
  find-empty = λ k. refl;
  find-add = λ t k p new. update_at t k (some p);
  find-add_other = λ t k j p new other. update_other t k (some p) j other;
}

abbrev pub list : LinkedList (List ℕ)
list = record {
  empty_list = [];
  head = first;
  prepend = λ p l. p ∷ l;
  append = λ p l. l ++ (p ∷ []);
  delete = remove;
  elems = λ l. l;
}

pub list-IsLinkedList : IsLinkedList list
list-IsLinkedList = record {
  elems-empty = refl;
  head-elems = λ l. refl;
  elems-prepend = λ p l. refl;
  elems-append = λ p l. refl;
  elems-delete = λ p l k. refl;
}

-- What stands behind an element of a list.
abbrev pub behind : ℕ → List ℕ → Option ℕ
behind p [] = none
behind p (q ∷ qs) = if q == p then first qs else behind p qs

pub behind-IsNext : IsNext list behind
behind-IsNext = record {
  next-elems = λ p l before after once split.
      ap (behind p) split ∙ found p before after (subst Distinct split once);
}
  where
    found :
        (p : ℕ) (before after : List ℕ)
        → Distinct (before ++ (p ∷ after))
        → behind p (before ++ (p ∷ after)) ≡ first after
    found p [] after once = ground arith
    found p (q ∷ before) after (new, once) =
        let other : (q == p) ≡ false = ground (arith, new p (Member-last before)) in
        rw other (found p before after once)
      where
        Member-last : (l : List ℕ) → Member p (l ++ (p ∷ after))
        Member-last [] = inl refl
        Member-last (x ∷ l) = inr (Member-last l)
