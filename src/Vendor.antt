-- ===== src/Vendor.antt =====
-- What the emulator uses of uthash.h and utlist.h, as interfaces: a hash table from integer
-- keys to pointers, and a doubly linked list of pointers. Their laws are what the two headers document.
pub mod Samples
use ovni.Prelude.{
  ℕ, ◌≡◌, ◌≢◌, Option, none, some, List, [], ◌∷◌, ◌++◌, if◌then◌else◌, ◌==◌, ◌⊎◌, arith, eq-cases,
  inl, inr, subst, sym, ap, ◌∙◌,
}

-- `HASH_FIND_INT` and `HASH_ADD_INT`, and the same with keys of type long; an empty table is a null pointer.
pub record HashTable (T : Type 0) : Type 0 where
  pub empty_table : T
  pub find_int : T → ℕ → Option ℕ
  pub add_int : ℕ → ℕ → T → T

pub record IsHashTable {T : Type 0} (h : HashTable T) : Type 0 where
  pub find-empty : (k : ℕ) → h.find_int h.empty_table k ≡ none
  pub find-add : (t : T) (k p : ℕ) → h.find_int t k ≡ none → h.find_int (h.add_int k p t) k ≡ some p
  pub find-add_other :
      (t : T) (k j p : ℕ)
      → h.find_int t k ≡ none
      → j ≢ k
      → h.find_int (h.add_int k p t) j ≡ h.find_int t j

-- The first element that is `p` goes.
abbrev pub remove : ℕ → List ℕ → List ℕ
remove p [] = []
remove p (q ∷ qs) = if q == p then qs else q ∷ remove p qs

-- The head pointer, `DL_PREPEND`, `DL_APPEND`, `DL_DELETE` of an element of the list, and the elements in the
-- order of `DL_FOREACH`.
pub record LinkedList (L : Type 0) : Type 0 where
  pub empty_list : L
  pub head : L → Option ℕ
  pub prepend : ℕ → L → L
  pub append : ℕ → L → L
  pub delete : ℕ → L → L
  pub elems : L → List ℕ

abbrev pub first : List ℕ → Option ℕ
first [] = none
first (p ∷ ps) = some p

abbrev pub Member : ℕ → List ℕ → Type 0
Member p [] = ⊥
Member p (q ∷ qs) = (p ≡ q) ⊎ Member p qs

abbrev pub Distinct : List ℕ → Type 0
Distinct [] = Unit
Distinct (p ∷ ps) = ((q : ℕ) → Member q ps → q ≢ p) × Distinct ps

pub record IsLinkedList {L : Type 0} (dl : LinkedList L) : Type 0 where
  pub elems-empty : dl.elems dl.empty_list ≡ []
  pub head-elems : (l : L) → dl.head l ≡ first (dl.elems l)
  pub elems-prepend : (p : ℕ) (l : L) → dl.elems (dl.prepend p l) ≡ p ∷ dl.elems l
  pub elems-append : (p : ℕ) (l : L) → dl.elems (dl.append p l) ≡ dl.elems l ++ (p ∷ [])
  pub elems-delete :
      (p : ℕ) (l : L) → Member p (dl.elems l) → dl.elems (dl.delete p l) ≡ remove p (dl.elems l)

-- The pointer `next` of an element, with which `DL_FOREACH` goes on: in a list, it leads to the element behind.
-- An element that has left the list still has its pointer.
pub record IsNext {L : Type 0} (dl : LinkedList L) (next : ℕ → L → Option ℕ) : Type 0 where
  pub next-elems :
      (p : ℕ) (l : L) (before after : List ℕ)
      → Distinct (dl.elems l)
      → dl.elems l ≡ before ++ (p ∷ after)
      → next p l ≡ first after

-- A write to one place of a memory.
unfoldable pub update {ℓ} : {A : Type ℓ} → (ℕ → A) → ℕ → A → ℕ → A
update f k v j = if j == k then v else f j

pub update_at {ℓ} : {A : Type ℓ} (f : ℕ → A) (k : ℕ) (v : A) → update f k v k ≡ v
unfolding update
update_at f k v = ground arith

pub update_other {ℓ} :
    {A : Type ℓ} (f : ℕ → A) (k : ℕ) (v : A) (j : ℕ) → j ≢ k → update f k v j ≡ f j
unfolding update
update_other f k v j h = ground arith

-- A fact about an object of a memory after a write.
pub at_place {ℓ κ} :
    {A : Type ℓ} (P : A → Type κ) (f : ℕ → A) (c : ℕ) (v : A) (d : ℕ)
    → (d ≡ c → P v)
    → (d ≢ c → P (f d))
    → P (update f c v d)
at_place P f c v d here there = elim (eq-cases d c) [
  | inl e ↦ subst P (sym (ap (update f c v) e ∙ update_at f c v)) (here e)
  | inr n ↦ subst P (sym (update_other f c v d n)) (there n)
]
