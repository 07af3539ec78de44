-- ===== src/Body/End.antt =====
-- The invariant of src/emu/body.c under `body_end`.
use ovni.Prelude.{
  ℕ, ◌≤◌, ◌≡◌, ◌≢◌, refl, sym, ap, subst, ◌∙◌, Option, none, some, List, [], ◌∷◌, ok, arith, inl,
  inr, eq-cases,
}
use ovni.Vendor.{LinkedList, IsLinkedList, update_at, update_other, Member, Distinct, remove, first}
use ovni.Body.{Bodies, dead, body_get_top, finish, body_end}
use ovni.Body.Wellformed.{may_be_below, tail, on, IsWell, end_inv}
use ovni.Body.Invariant.{Member-tail, Member-rest, Distinct-head, top_first, top-Member}

remove_head : (p : ℕ) (l : List ℕ) → first l ≡ some p → remove p l ≡ tail l
remove_head p [] h = cc
remove_head p (q ∷ l) h = ground arith

Distinct-tail : (l : List ℕ) → Distinct l → Distinct (tail l)
Distinct-tail [] d = tt
Distinct-tail (x ∷ l) d = d.1

no_stack : {o : Option ℕ} {t : ℕ} → o ≡ none → o ≡ some t → ⊥
no_stack a b = cc

module _ {L : Type 0} (dl : LinkedList L) (law : IsLinkedList dl) where
  module _ (m : Bodies L) (s p : ℕ) (h : body_get_top dl m s ≡ some p) where
    on_finish : on dl (finish dl s p m) s ≡ tail (on dl m s)
    unfolding finish
    on_finish =
        ap dl.elems (update_at m.stacks s _)
        ∙ law.elems-delete p (m.stacks s) (top-Member dl law m s p h)
        ∙ remove_head p (on dl m s) (top_first dl law m s p h)

    on_finish_other : (t : ℕ) → t ≢ s → on dl (finish dl s p m) t ≡ on dl m t
    unfolding finish
    on_finish_other t n = ap dl.elems (update_other m.stacks s _ t n)

    finished :
        (q : ℕ) → q ≡ p → (finish dl s p m).at q ≡ record (m.at p) { state = dead; stack = none }
    unfolding finish
    finished q e = ap (finish dl s p m).at e ∙ update_at m.at p _

    finish_other : (q : ℕ) → q ≢ p → (finish dl s p m).at q ≡ m.at q
    unfolding finish
    finish_other q n = update_other m.at p _ q n

    other_stack : (q t : ℕ) → IsWell dl m → Member q (on dl m t) → q ≡ p → t ≢ s → ⊥
    other_stack q t w k e o =
        let here = w.has_stack p s (top-Member dl law m s p h) in
        let there = w.has_stack q t k in let same : t ≡ s = cc in o same

    -- Who is still on a stack was there before, and is not the body that ended.
    still_there :
        (q t : ℕ)
        → IsWell dl m
        → Member q (on dl (finish dl s p m) t)
        → Member q (on dl m t) × (q ≢ p)
    still_there q t w k = elim (eq-cases t s) [
      | inl e ↦
          let k' =
            subst (Member q) on_finish (subst (λ t. Member q (on dl (finish dl s p m) t)) e k) in
          (
            subst (λ t. Member q (on dl m t)) (sym e) (Member-tail q _ k'),
            Distinct-head p q (on dl m s) (w.once s) (top_first dl law m s p h) k',
          )
      | inr o ↦
          let k' = subst (Member q) (on_finish_other t o) k in (k', λ e. other_stack q t w k' e o)
    ]

    still_below :
        (q t : ℕ) → Member q (tail (on dl (finish dl s p m) t)) → Member q (tail (on dl m t))
    still_below q t k = elim (eq-cases t s) [
      | inl e ↦
          subst (λ t. Member q (tail (on dl m t))) (sym e)
            (Member-tail q _ (
              subst (λ l. Member q (tail l)) on_finish
                (subst (λ t. Member q (tail (on dl (finish dl s p m) t))) e k)))
      | inr o ↦ subst (λ l. Member q (tail l)) (on_finish_other t o) k
    ]

    keeps_stack : (q t : ℕ) → q ≢ p → Member q (on dl m t) → Member q (on dl (finish dl s p m) t)
    keeps_stack q t n k = elim (eq-cases t s) [
      | inl e ↦
          subst (λ t. Member q (on dl (finish dl s p m) t)) (sym e)
            (subst (Member q) (sym on_finish) (
              Member-rest p q (on dl m s) (top_first dl law m s p h) n
                (subst (λ t. Member q (on dl m t)) e k)))
      | inr o ↦ subst (Member q) (sym (on_finish_other t o)) k
    ]

    finish_fresh : (finish dl s p m).fresh ≡ m.fresh
    unfolding finish
    finish_fresh = refl

    finish-IsWell : IsWell dl m → IsWell dl (finish dl s p m)
    finish-IsWell w = record {
      active_on_stack = λ q. elim (eq-cases q p) [
        | inl e ↦ simp (finished q e)
        | inr o ↦ simp (finish_other q o) (w.active_on_stack q)
      ];
      stack_has = λ q t e. elim (eq-cases q p) [
        | inl i ↦ absurd (no_stack (ap (λ b. b.stack) (finished q i)) e)
        | inr o ↦
            keeps_stack q t o (w.stack_has q t (sym (ap (λ b. b.stack) (finish_other q o)) ∙ e))
      ];
      has_stack = λ q t k.
          let (old, n) = still_there q t w k in
          ap (λ b. b.stack) (finish_other q n) ∙ w.has_stack q t old;
      once = λ t. elim (eq-cases t s) [
        | inl e ↦
            subst (λ t. Distinct (on dl (finish dl s p m) t)) (sym e)
              (subst Distinct (sym on_finish) (Distinct-tail _ (w.once s)))
        | inr o ↦ subst Distinct (sym (on_finish_other t o)) (w.once t)
      ];
      below = λ t q k.
          let (old, n) = still_there q t w (Member-tail q _ k) in
          ap may_be_below (finish_other q n) ∙ w.below t q (still_below q t k);
      not_yet = λ q g. elim (eq-cases q p) [
        | inl e ↦ ap (λ b. b.stack) (finished q e)
        | inr o ↦
            ap (λ b. b.stack) (finish_other q o) ∙ w.not_yet q (subst (λ n. n ≤ q) finish_fresh g)
      ];
    }

  pub end-IsWell :
      (m m' : Bodies L) (s p : ℕ) → IsWell dl m → body_end dl s (some p) m ≡ ok m' → IsWell dl m'
  end-IsWell m m' s p w r =
      let (e, a, on_s, h) = end_inv dl s p m m' r in
      subst (IsWell dl) (sym e) (finish-IsWell m s p h w)

  pub end-fresh :
      (m m' : Bodies L) (s p : ℕ) → body_end dl s (some p) m ≡ ok m' → m'.fresh ≡ m.fresh
  unfolding finish
  end-fresh m m' s p r = let (e, a, on_s, h) = end_inv dl s p m m' r in ap (λ m. m.fresh) e
