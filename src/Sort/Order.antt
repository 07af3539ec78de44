-- ===== src/Sort/Order.antt =====
-- The order of signed integers, and a sorted list under the removal and the insertion of a value.
use ovni.Prelude.{
  ℕ, suc, ◌<◌, ◌≡◌, refl, ap, true, false, List, [], ◌∷◌, arith, All, if◌then◌else◌, Bool-cases,
  inl, inr, length,
}
use ovni.Prelude.Int.{ℤ, pos, negsuc, eq_ℤ, eq_ℤ_iff, ltb_ℤ}

infix 50 ◌≼◌
abbrev pub ◌≼◌ : ℤ → ℤ → Type 0
a ≼ b = ltb_ℤ b a ≡ false

pub ≼_refl : (a : ℤ) → a ≼ a
≼_refl a = ground arith

pub ≼_trans : (a b c : ℤ) → a ≼ b → b ≼ c → a ≼ c
≼_trans a b c h k = ground arith

pub ≼_antisym : (a b : ℤ) → a ≼ b → b ≼ a → a ≡ b
≼_antisym (pos n) (pos m) h k = ap pos (ground arith)
≼_antisym (pos n) (negsuc m) h k = absurd (ground arith)
≼_antisym (negsuc n) (pos m) h k = absurd (ground arith)
≼_antisym (negsuc n) (negsuc m) h k = ap negsuc (ground arith)

pub lt-≼ : (a b : ℤ) → ltb_ℤ a b ≡ true → a ≼ b
lt-≼ a b h = ground arith

pub lt-ne : (a b : ℤ) → ltb_ℤ a b ≡ true → eq_ℤ a b ≡ false
lt-ne a b h = ground arith

pub lt_trans : (a b c : ℤ) → ltb_ℤ a b ≡ true → ltb_ℤ b c ≡ true → ltb_ℤ a c ≡ true
lt_trans a b c h k = ground arith

pub ≼-lt : (a b c : ℤ) → a ≼ b → ltb_ℤ b c ≡ true → ltb_ℤ a c ≡ true
≼-lt a b c h k = ground arith

pub eq_ℤ_refl : (a : ℤ) → eq_ℤ a a ≡ true
eq_ℤ_refl a = ground arith

abbrev pub IsSorted : List ℤ → Type 0
IsSorted [] = Unit
IsSorted (x ∷ xs) = All (λ y. x ≼ y) xs × IsSorted xs

-- How often a value is in a list.
abbrev pub occurrences : ℤ → List ℤ → ℕ
occurrences v [] = 0
occurrences v (x ∷ xs) = if eq_ℤ x v then suc (occurrences v xs) else occurrences v xs

-- The first of the values goes.
abbrev pub remove_value : ℤ → List ℤ → List ℤ
remove_value v [] = []
remove_value v (x ∷ xs) = if eq_ℤ x v then xs else x ∷ remove_value v xs

-- The value goes before the first one that is above it.
abbrev pub insert : ℤ → List ℤ → List ℤ
insert v [] = v ∷ []
insert v (x ∷ xs) = if ltb_ℤ v x then v ∷ x ∷ xs else x ∷ insert v xs

All-map : {P Q : ℤ → Type 0} (l : List ℤ) → ((x : ℤ) → P x → Q x) → All P l → All Q l
All-map [] f a = a
All-map (x ∷ xs) f (p, a) = (f x p, All-map xs f a)

pub All-above : (a b : ℤ) (l : List ℤ) → a ≼ b → All (λ y. b ≼ y) l → All (λ y. a ≼ y) l
All-above a b l h all = All-map l (λ x k. ≼_trans a b x h k) all

All-remove : (P : ℤ → Type 0) (v : ℤ) (l : List ℤ) → All P l → All P (remove_value v l)
All-remove P v [] a = a
All-remove P v (x ∷ xs) (p, a) = elim (Bool-cases (eq_ℤ x v)) [
  | inl e ↦ rw e a
  | inr e ↦ rw e (p, All-remove P v xs a)
]

All-insert : (P : ℤ → Type 0) (v : ℤ) (l : List ℤ) → P v → All P l → All P (insert v l)
All-insert P v [] p a = (p, tt)
All-insert P v (x ∷ xs) p (q, a) = elim (Bool-cases (ltb_ℤ v x)) [
  | inl e ↦ rw e (p, (q, a))
  | inr e ↦ rw e (q, All-insert P v xs p a)
]

pub remove-IsSorted : (v : ℤ) (l : List ℤ) → IsSorted l → IsSorted (remove_value v l)
remove-IsSorted v [] s = s
remove-IsSorted v (x ∷ xs) (a, s) = elim (Bool-cases (eq_ℤ x v)) [
  | inl e ↦ rw e s
  | inr e ↦ rw e (All-remove (λ y. x ≼ y) v xs a, remove-IsSorted v xs s)
]

pub insert-IsSorted : (v : ℤ) (l : List ℤ) → IsSorted l → IsSorted (insert v l)
insert-IsSorted v [] s = (tt, tt)
insert-IsSorted v (x ∷ xs) (a, s) = elim (Bool-cases (ltb_ℤ v x)) [
  | inl e ↦ rw e ((lt-≼ v x e, All-above v x xs (lt-≼ v x e) a), (a, s))
  | inr e ↦ rw e (All-insert (λ y. x ≼ y) v xs e a, insert-IsSorted v xs s)
]

pub occurrences-insert :
    (w v : ℤ) (l : List ℤ)
    → occurrences w (insert v l) ≡ (if eq_ℤ v w then suc (occurrences w l) else occurrences w l)
occurrences-insert w v [] = refl
occurrences-insert w v (x ∷ xs) = ground (arith, occurrences-insert w v xs)

pub occurrences-remove :
    (w v : ℤ) (l : List ℤ)
    → 0 < occurrences v l
    → (if eq_ℤ v w
        then suc (occurrences w (remove_value v l))
        else occurrences w (remove_value v l))
      ≡ occurrences w l
occurrences-remove w v [] h = absurd (ground arith)
occurrences-remove w v (x ∷ xs) h = elim (Bool-cases (eq_ℤ x v)) [
  | inl e ↦ let same = (eq_ℤ_iff x v).0 e in rw (e, same) refl
  | inr e ↦ ground (arith, occurrences-remove w v xs)
]

pub length-insert : (v : ℤ) (l : List ℤ) → length (insert v l) ≡ suc (length l)
length-insert v [] = refl
length-insert v (x ∷ xs) = ground (arith, length-insert v xs)

pub length-remove_value :
    (v : ℤ) (l : List ℤ) → 0 < occurrences v l → suc (length (remove_value v l)) ≡ length l
length-remove_value v [] h = absurd (ground arith)
length-remove_value v (x ∷ xs) h = ground (arith, length-remove_value v xs)
