-- ===== src/Prelude/Results.antt =====
-- C functions that return 0 or -1: the state they leave, or the error that they report.
use mathlib.Core.Path.{◌≡◌, refl, sym, subst}
use mathlib.Core.Bool.{Bool, true, false}
use mathlib.Core.Logic.{◌⊎◌, inl, inr}

pub data Result {ℓ} (E : Type 0) (A : Type ℓ) : Type ℓ where
  ok : A → Result E A
  err : E → Result E A

module _ {ℓ κ} {E : Type 0} {A : Type ℓ} {B : Type κ} where
  infixl 5 ◌>>=◌
  abbrev pub ◌>>=◌ : Result E A → (A → Result E B) → Result E B
  err code >>= next = err code
  ok state >>= next = next state

-- `if (test) { err(...); return -1; }`
abbrev pub fail_if : {E : Type 0} → Bool → E → Result E (Unit {0})
fail_if true code = err code
fail_if false code = ok tt

infixl 5 ◌>>◌
abbrev pub ◌>>◌ {ℓ} : {E : Type 0} {B : Type ℓ} → Result E (Unit {0}) → Result E B → Result E B
check >> next = check >>= λ _. next

-- `if (f(...) != 0) { err(...); return -1; }`: the caller reports its own error.
abbrev pub or_err {ℓ} : {E F : Type 0} {A : Type ℓ} → F → Result E A → Result F A
or_err f (ok a) = ok a
or_err f (err e) = err f

-- Inversion of a successful bind.
pub >>=-eq-ok {ℓ κ} :
    {E : Type 0} {A : Type ℓ} {B : Type κ} (m : Result E A) (next : A → Result E B) {out : B}
    → (m >>= next) ≡ ok out
    → (mid : A) × (m ≡ ok mid) × (next mid ≡ ok out)
>>=-eq-ok (err code) next h = cc
>>=-eq-ok (ok mid) next h = (mid, refl, h)

pub or_err-eq-ok {ℓ} :
    {E F : Type 0} {A : Type ℓ} (f : F) (m : Result E A) {a : A} → or_err f m ≡ ok a → m ≡ ok a
or_err-eq-ok f (ok a) h = cc
or_err-eq-ok f (err e) h = cc

pub Result-cases {ℓ} :
    {E : Type 0} {A : Type ℓ} (m : Result E A) → ((a : A) × (m ≡ ok a)) ⊎ ((e : E) × (m ≡ err e))
Result-cases (ok a) = inl (a, refl)
Result-cases (err e) = inr (e, refl)

-- A test that was passed.
pub fail_if-eq-ok {ℓ} :
    {E : Type 0} {A : Type ℓ} (b : Bool) (e : E) (m : Result E A) {a : A}
    → (fail_if b e >> m) ≡ ok a
    → (b ≡ false) × (m ≡ ok a)
fail_if-eq-ok true e m h = cc
fail_if-eq-ok false e m h = (refl, h)

-- A chain of tests that was passed.
pub >>-eq-ok {ℓ} :
    {E : Type 0} {A : Type ℓ} (tests : Result E (Unit {0})) (m : Result E A) {a : A}
    → (tests >> m) ≡ ok a
    → m ≡ ok a
>>-eq-ok (ok u) m h = h
>>-eq-ok (err e) m h = cc

pub ok_pair {ℓ κ} :
    {E : Type 0} {A : Type ℓ} {B : Type κ} {a a' : A} {b b' : B}
    → ◌≡◌ {A = Result E (A × B)} (ok (a, b)) (ok (a', b'))
    → (a ≡ a') × (b' ≡ b)
ok_pair h = (cc, cc)

pub ok_inj {ℓ} : {E : Type 0} {A : Type ℓ} {a b : A} → ◌≡◌ {A = Result E A} (ok a) (ok b) → a ≡ b
ok_inj h = cc

-- A bind whose first result is known.
pub >>=-take {ℓ κ} :
    {E : Type 0} {A : Type ℓ} {B : Type κ} (m : Result E A) (next : A → Result E B) {a : A}
    {r : Result E B}
    → m ≡ ok a
    → (m >>= next) ≡ r
    → next a ≡ r
>>=-take m next {a} {r} e h = subst (λ u. (u >>= next) ≡ r) e h

pub >>=-skip {ℓ κ} :
    {E : Type 0} {A : Type ℓ} {B : Type κ} (m : Result E A) (next : A → Result E B) {a : A}
    {r : Result E B}
    → m ≡ ok a
    → next a ≡ r
    → (m >>= next) ≡ r
>>=-skip m next {a} {r} e h = subst (λ u. (u >>= next) ≡ r) (sym e) h

pub fail_if-skip {ℓ} :
    {E : Type 0} {B : Type ℓ} (b : Bool) (e : E) (m : Result E B) {r : Result E B}
    → b ≡ false
    → m ≡ r
    → (fail_if b e >> m) ≡ r
fail_if-skip true e m h k = cc
fail_if-skip false e m h k = k

pub >>=-stop {ℓ κ} :
    {E : Type 0} {A : Type ℓ} {B : Type κ} (m : Result E A) (next : A → Result E B) {e : E}
    → m ≡ err e
    → (m >>= next) ≡ err e
>>=-stop m next {e} h = subst (λ u. (u >>= next) ≡ err e) (sym h) refl

pub fail_if-stop {ℓ} :
    {E : Type 0} {B : Type ℓ} (b : Bool) (e : E) (m : Result E B)
    → b ≡ true
    → (fail_if b e >> m) ≡ err e
fail_if-stop true e m h = refl
fail_if-stop false e m h = cc
