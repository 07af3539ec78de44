-- ===== src/Body/Execute.antt =====
-- The invariant of src/emu/body.c under `body_execute`.
use ovni.Prelude.{
  ℕ, ◌+◌, ◌<◌, ◌≡◌, sym, ap, subst, ◌∙◌, not, none, some, ok, arith, inl, inr, is_none,
}
use ovni.Vendor.{LinkedList, IsLinkedList, update, update_other}
use ovni.Body.{Body, Bodies, created, dead, revive, body_execute}
use ovni.Body.Wellformed.{is_active, may_be_below, IsWell, revive_inv, execute_inv}
use ovni.Body.Invariant.{Member-tail}
use ovni.Body.Start.{off_stack, start_fresh, start-IsWell}

module _ {L : Type 0} (dl : LinkedList L) (law : IsLinkedList dl) where
  dead_off :
      (b : Body) → b.state ≡ dead → is_active b.state ≡ not (is_none b.stack) → b.stack ≡ none
  dead_off b d a = ground arith

  kept_stack :
      (m : Bodies L) (p q : ℕ)
      → (update m.at p
          (record (m.at p) { state = created; iteration = (m.at p).iteration + 1 })
          q).stack
        ≡ (m.at q).stack
  unfolding update
  kept_stack m p q = ground arith

  kept_active :
      (m : Bodies L) (p q : ℕ)
      → (m.at p).state ≡ dead
      → is_active
          (update m.at p
            (record (m.at p) { state = created; iteration = (m.at p).iteration + 1 })
            q).state
        ≡ is_active (m.at q).state
  unfolding update
  kept_active m p q d = ground arith

  kept_fresh : (m m' : Bodies L) (p : ℕ) → revive p m ≡ ok m' → m'.fresh ≡ m.fresh
  unfolding revive
  kept_fresh m m' p r = ground arith

  -- A dead body is on no stack, and neither is a new one.
  revive-IsWell : (m m' : Bodies L) (p : ℕ) → IsWell dl m → revive p m ≡ ok m' → IsWell dl m'
  revive-IsWell m m' p w r = elim (revive_inv dl p m m' r) [
    | inl (e, x) ↦ subst (IsWell dl) (sym e) w
    | inr (e, d, x) ↦
        let off : (m.at p).stack ≡ none = dead_off (m.at p) d (w.active_on_stack p) in
        let b' = record (m.at p) { state = created; iteration = (m.at p).iteration + 1 } in
        subst (IsWell dl) (sym e) (record {
          active_on_stack = λ q.
              kept_active m p q d
              ∙ w.active_on_stack q
              ∙ ap (λ o. not (is_none o)) (sym (kept_stack m p q));
          stack_has = λ q t h. w.stack_has q t (sym (kept_stack m p q) ∙ h);
          has_stack = λ q t k. kept_stack m p q ∙ w.has_stack q t k;
          once = w.once;
          below = λ t q k.
              ap may_be_below
                (update_other m.at p b' q (off_stack dl law m t p q w off (Member-tail q _ k)))
              ∙ w.below t q k;
          not_yet = λ q g. kept_stack m p q ∙ w.not_yet q g;
        })
  ]

  pub execute-fresh :
      (m m' : Bodies L) (s p : ℕ) → body_execute dl s (some p) m ≡ ok m' → m'.fresh ≡ m.fresh
  execute-fresh m m' s p r =
      let (mid, first_step, same, c, n, k) = execute_inv dl s p m m' r in
      ap (λ m. m.fresh) same ∙ start_fresh dl law mid s p ∙ kept_fresh m mid p first_step

  pub execute-IsWell :
      (m m' : Bodies L) (s p : ℕ)
      → IsWell dl m
      → p < m.fresh
      → body_execute dl s (some p) m ≡ ok m'
      → IsWell dl m'
  execute-IsWell m m' s p w f r =
      let (mid, first_step, same, c, n, k) = execute_inv dl s p m m' r in
      subst (IsWell dl) (sym same) (
        start-IsWell dl law mid s p (revive-IsWell m mid p w first_step)
          (rw (kept_fresh m mid p first_step) f) n k)
