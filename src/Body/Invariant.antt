-- ===== src/Body/Invariant.antt =====
-- The invariant of src/emu/body.c under `body_pause` and `body_resume`.
use ovni.Prelude.{
  ℕ, ◌≡◌, ◌≢◌, refl, sym, ap, subst, ◌∙◌, true, not, some, List, [], ◌∷◌, ok, arith, inl, inr,
  is_none,
}
use ovni.Vendor.{LinkedList, IsLinkedList, update, update_other, Member, Distinct, first}
use ovni.Body.{Bodies, BodyState, running, paused, body_get_top, set_state, body_pause, body_resume}
use ovni.Body.Wellformed.{is_active, may_be_below, tail, on, IsWell, pause_inv, resume_inv}

pub Member-tail : (q : ℕ) (l : List ℕ) → Member q (tail l) → Member q l
Member-tail q [] k = elim k [ ]
Member-tail q (x ∷ l) k = inr k

pub first_lem : (l : List ℕ) (p : ℕ) → first l ≡ some p → l ≡ p ∷ tail l
first_lem [] p h = cc
first_lem (q ∷ l) p h = cc

pub Distinct-head :
    (p q : ℕ) (l : List ℕ) → Distinct l → first l ≡ some p → Member q (tail l) → q ≢ p
Distinct-head p q [] d h k e = elim k [ ]
Distinct-head p q (x ∷ l) d h k e = d.0 q k (e ∙ cc)

pub Member-rest : (p q : ℕ) (l : List ℕ) → first l ≡ some p → q ≢ p → Member q l → Member q (tail l)
Member-rest p q (x ∷ l) h n (inl e) = absurd (n (e ∙ cc))
Member-rest p q (x ∷ l) h n (inr k) = k
Member-rest p q [] h n k = elim k [ ]

module _ {L : Type 0} (dl : LinkedList L) (law : IsLinkedList dl) where
  pub top_first :
      (m : Bodies L) (s p : ℕ) → body_get_top dl m s ≡ some p → first (on dl m s) ≡ some p
  top_first m s p h = sym (law.head-elems (m.stacks s)) ∙ h

  pub top-Member : (m : Bodies L) (s p : ℕ) → body_get_top dl m s ≡ some p → Member p (on dl m s)
  top-Member m s p h = subst (Member p) (sym (first_lem _ p (top_first m s p h))) (inl refl)

  -- The top of a stack is below no other body.
  not_below :
      (m : Bodies L) (s t p q : ℕ)
      → IsWell dl m
      → body_get_top dl m s ≡ some p
      → Member q (tail (on dl m t))
      → q ≢ p
  not_below m s t p q w h k e =
      let here = w.has_stack p s (top-Member m s p h) in
      let there = w.has_stack q t (Member-tail q _ k) in
      let same : t ≡ s = cc in
      Distinct-head p q (on dl m s) (w.once s) (top_first m s p h)
        (subst (λ t. Member q (tail (on dl m t))) same k) e

  set_state_stack :
      (m : Bodies L) (p q : ℕ) (state : BodyState)
      → ((set_state p state m).at q).stack ≡ (m.at q).stack
  unfolding set_state update
  set_state_stack m p q state = ground arith

  set_state_other :
      (m : Bodies L) (p q : ℕ) (state : BodyState) → q ≢ p → (set_state p state m).at q ≡ m.at q
  unfolding set_state
  set_state_other m p q state n = update_other m.at p _ q n

  set_state_active :
      (m : Bodies L) (p q : ℕ) (state : BodyState)
      → is_active (m.at p).state ≡ true
      → is_active state ≡ true
      → is_active ((set_state p state m).at q).state ≡ is_active (m.at q).state
  unfolding set_state update
  set_state_active m p q state a b = ground arith

  set_state-IsWell :
      (m : Bodies L) (s p : ℕ) (state : BodyState)
      → IsWell dl m
      → body_get_top dl m s ≡ some p
      → is_active (m.at p).state ≡ true
      → is_active state ≡ true
      → IsWell dl (set_state p state m)
  unfolding set_state
  set_state-IsWell m s p state w h a b = record {
    active_on_stack = λ q.
        set_state_active m p q state a b
        ∙ w.active_on_stack q
        ∙ ap (λ o. not (is_none o)) (sym (set_state_stack m p q state));
    stack_has = λ q t e. w.stack_has q t (sym (set_state_stack m p q state) ∙ e);
    has_stack = λ q t k. set_state_stack m p q state ∙ w.has_stack q t k;
    once = w.once;
    below = λ t q k.
        ap may_be_below (set_state_other m p q state (not_below m s t p q w h k)) ∙ w.below t q k;
    not_yet = λ q f. set_state_stack m p q state ∙ w.not_yet q f;
  }

  pub pause-IsWell :
      (m m' : Bodies L) (s p : ℕ) → IsWell dl m → body_pause dl s (some p) m ≡ ok m' → IsWell dl m'
  pause-IsWell m m' s p w r =
      let (e, a, on_s, h, can) = pause_inv dl s p m m' r in
      subst (IsWell dl) (sym e) (set_state-IsWell m s p paused w h (rw a) refl)

  pub resume-IsWell :
      (m m' : Bodies L) (s p : ℕ) → IsWell dl m → body_resume dl s (some p) m ≡ ok m' → IsWell dl m'
  resume-IsWell m m' s p w r =
      let (e, a, on_s, h) = resume_inv dl s p m m' r in
      subst (IsWell dl) (sym e) (set_state-IsWell m s p running w h (rw a) refl)

  pub pause-fresh :
      (m m' : Bodies L) (s p : ℕ) → body_pause dl s (some p) m ≡ ok m' → m'.fresh ≡ m.fresh
  unfolding set_state
  pause-fresh m m' s p r = let (e, a, on_s, h, can) = pause_inv dl s p m m' r in ap (λ m. m.fresh) e

  pub resume-fresh :
      (m m' : Bodies L) (s p : ℕ) → body_resume dl s (some p) m ≡ ok m' → m'.fresh ≡ m.fresh
  unfolding set_state
  resume-fresh m m' s p r = let (e, a, on_s, h) = resume_inv dl s p m m' r in ap (λ m. m.fresh) e
