-- ===== src/Body/Start.antt =====
-- The invariant of src/emu/body.c under the last steps of `body_execute`.
use ovni.Prelude.{
  ℕ, ◌≤◌, ◌<◌, ◌≡◌, ◌≢◌, refl, sym, ap, subst, ◌∙◌, true, not, none, some, List, [], ◌∷◌, ok, arith,
  ◌⊎◌, inl, inr, Option-cases, eq-cases, is_none,
}
use ovni.Vendor.{LinkedList, IsLinkedList, update_at, update_other, Member, Distinct, first}
use ovni.Body.{
  Body, Bodies, running, relaxes_nesting, body_get_top, body_get_running, check_nesting, start,
}
use ovni.Body.Wellformed.{is_active, may_be_below, tail, on, IsWell}
use ovni.Body.Invariant.{Member-tail, Member-rest, top_first}

no_top : (l : List ℕ) (q : ℕ) → first l ≡ none → Member q l → ⊥
no_top [] q h k = k
no_top (x ∷ l) q h k = cc

module _ {L : Type 0} (dl : LinkedList L) (law : IsLinkedList dl) where
  on_start : (m : Bodies L) (s p : ℕ) → on dl (start dl s p m) s ≡ p ∷ on dl m s
  unfolding start
  on_start m s p = ap dl.elems (update_at m.stacks s _) ∙ law.elems-prepend p (m.stacks s)

  on_start_other : (m : Bodies L) (s p t : ℕ) → t ≢ s → on dl (start dl s p m) t ≡ on dl m t
  unfolding start
  on_start_other m s p t n = ap dl.elems (update_other m.stacks s _ t n)

  start_at :
      (m : Bodies L) (s p : ℕ)
      → (start dl s p m).at p ≡ record (m.at p) { stack = some s; state = running }
  unfolding start
  start_at m s p = update_at m.at p _

  start_other : (m : Bodies L) (s p q : ℕ) → q ≢ p → (start dl s p m).at q ≡ m.at q
  unfolding start
  start_other m s p q n = update_other m.at p _ q n

  -- A body that has no stack is no member of any.
  pub off_stack :
      (m : Bodies L) (t p q : ℕ)
      → IsWell dl m
      → (m.at p).stack ≡ none
      → Member q (on dl m t)
      → q ≢ p
  off_stack m t p q w h k e =
      let there = w.has_stack q t k in let same = ap (λ q. (m.at q).stack) e in cc

  running_top :
      (m : Bodies L) (s p : ℕ)
      → body_get_top dl m s ≡ some p
      → (m.at p).state ≡ running
      → body_get_running dl m s ≡ some p
  unfolding body_get_running
  running_top m s p h r = ground arith

  active_below :
      (b : Body)
      → is_active b.state ≡ true
      → (b.state ≡ running → relaxes_nesting b ≡ true)
      → may_be_below b ≡ true
  active_below b a h = ground arith

  nest_lem :
      (m : Bodies L) (p : ℕ) → check_nesting m (some p) ≡ ok tt → relaxes_nesting (m.at p) ≡ true
  unfolding check_nesting
  nest_lem m p h = ground arith

  relax_top :
      (m : Bodies L) (s q top : ℕ)
      → q ≡ top
      → body_get_top dl m s ≡ some top
      → (m.at q).state ≡ running
      → check_nesting m (body_get_running dl m s) ≡ ok tt
      → relaxes_nesting (m.at q) ≡ true
  relax_top m s q top same e r n =
      nest_lem m q (sym (ap (check_nesting m) (running_top m s q (e ∙ ap some (sym same)) r)) ∙ n)

  nest_below :
      (m : Bodies L) (s q : ℕ)
      → IsWell dl m
      → check_nesting m (body_get_running dl m s) ≡ ok tt
      → Member q (on dl m s)
      → may_be_below (m.at q) ≡ true
  nest_below m s q w n k = elim (Option-cases (body_get_top dl m s)) [
    | inl none_top ↦ absurd (no_top (on dl m s) q (sym (law.head-elems (m.stacks s)) ∙ none_top) k)
    | inr (top, e) ↦ elim (eq-cases q top) [
      | inl same ↦
          active_below (m.at q)
            (w.active_on_stack q ∙ ap (λ o. not (is_none o)) (w.has_stack q s k))
            (λ r. relax_top m s q top same e r n)
      | inr other ↦ w.below s q (Member-rest top q (on dl m s) (top_first dl law m s top e) other k)
    ]
  ]

  pub start_fresh : (m : Bodies L) (s p : ℕ) → (start dl s p m).fresh ≡ m.fresh
  unfolding start
  start_fresh m s p = refl

  not_fresh : (m : Bodies L) (p q : ℕ) → p < m.fresh → q ≡ p → m.fresh ≤ q → ⊥
  not_fresh m p q f e g = omega (arith, e)

  start_has :
      (m : Bodies L) (s p q t : ℕ) → Member q (on dl m t) → Member q (on dl (start dl s p m) t)
  start_has m s p q t k = elim (eq-cases t s) [
    | inl e ↦
        subst (λ t. Member q (on dl (start dl s p m) t)) (sym e)
          (subst (Member q) (sym (on_start m s p)) (inr (subst (λ t. Member q (on dl m t)) e k)))
    | inr o ↦ subst (Member q) (sym (on_start_other m s p t o)) k
  ]

  -- Who is on a stack after the start.
  start_had :
      (m : Bodies L) (s p q t : ℕ)
      → Member q (on dl (start dl s p m) t)
      → ((q ≡ p) × (t ≡ s)) ⊎ Member q (on dl m t)
  start_had m s p q t k = elim (eq-cases t s) [
    | inl e ↦
        let k' =
          subst (Member q) (on_start m s p)
            (subst (λ t. Member q (on dl (start dl s p m) t)) e k) in
        elim k' [
          | inl i ↦ inl (i, e)
          | inr old ↦ inr (subst (λ t. Member q (on dl m t)) (sym e) old)
        ]
    | inr o ↦ inr (subst (Member q) (on_start_other m s p t o) k)
  ]

  start_below :
      (m : Bodies L) (s p q t : ℕ)
      → Member q (tail (on dl (start dl s p m) t))
      → ((t ≡ s) × Member q (on dl m s)) ⊎ Member q (tail (on dl m t))
  start_below m s p q t k = elim (eq-cases t s) [
    | inl e ↦ inl (
      e,
      subst (λ l. Member q (tail l)) (on_start m s p)
          (subst (λ t. Member q (tail (on dl (start dl s p m) t))) e k),
    )
    | inr o ↦ inr (subst (λ l. Member q (tail l)) (on_start_other m s p t o) k)
  ]

  start_may :
      (m : Bodies L) (s p q t : ℕ)
      → IsWell dl m
      → (m.at p).stack ≡ none
      → Member q (on dl m t)
      → may_be_below (m.at q) ≡ true
      → may_be_below ((start dl s p m).at q) ≡ true
  start_may m s p q t w h k b = ap may_be_below (start_other m s p q (off_stack m t p q w h k)) ∙ b

  started :
      (m : Bodies L) (s p q : ℕ)
      → q ≡ p
      → (start dl s p m).at q ≡ record (m.at p) { stack = some s; state = running }
  started m s p q e = ap (start dl s p m).at e ∙ start_at m s p

  pub start-IsWell :
      (m : Bodies L) (s p : ℕ)
      → IsWell dl m
      → p < m.fresh
      → (m.at p).stack ≡ none
      → check_nesting m (body_get_running dl m s) ≡ ok tt
      → IsWell dl (start dl s p m)
  start-IsWell m s p w f h n = record {
    active_on_stack = λ q. elim (eq-cases q p) [
      | inl e ↦ simp (started m s p q e)
      | inr o ↦ simp (start_other m s p q o) (w.active_on_stack q)
    ];
    stack_has = λ q t e. elim (eq-cases q p) [
      | inl i ↦
          let here = ap (λ b. b.stack) (started m s p q i) in
          let same : t ≡ s = cc in
          subst (λ t. Member q (on dl (start dl s p m) t)) (sym same)
            (subst (Member q) (sym (on_start m s p)) (inl i))
      | inr o ↦
          start_has m s p q t
            (w.stack_has q t (sym (ap (λ b. b.stack) (start_other m s p q o)) ∙ e))
    ];
    has_stack = λ q t k. elim (start_had m s p q t k) [
      | inl (i, e) ↦ ap (λ b. b.stack) (started m s p q i) ∙ ap some (sym e)
      | inr old ↦
          ap (λ b. b.stack) (start_other m s p q (off_stack m t p q w h old)) ∙ w.has_stack q t old
    ];
    once = λ t. elim (eq-cases t s) [
      | inl e ↦
          subst (λ t. Distinct (on dl (start dl s p m) t)) (sym e)
            (subst Distinct (sym (on_start m s p)) (λ q. off_stack m s p q w h, w.once s))
      | inr o ↦ subst Distinct (sym (on_start_other m s p t o)) (w.once t)
    ];
    below = λ t q k. elim (start_below m s p q t k) [
      | inl (e, old) ↦ start_may m s p q s w h old (nest_below m s q w n old)
      | inr old ↦ start_may m s p q t w h (Member-tail q _ old) (w.below t q old)
    ];
    not_yet = λ q g.
        let g' = subst (λ n. n ≤ q) (start_fresh m s p) g in
        ap (λ b. b.stack) (start_other m s p q (λ e. not_fresh m p q f e g')) ∙ w.not_yet q g';
  }
