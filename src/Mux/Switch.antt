-- ===== src/Mux/Switch.antt =====
-- The steps of a selection of src/emu/mux.c: the previous input goes, the new one comes.
use ovni.Prelude.{
  ℕ, ◌<◌, ◌≡◌, ◌≢◌, refl, sym, ap, subst, ◌∙◌, Bool, true, false, not, Option, none, some, arith,
  ok, or_err, >>=-eq-ok, or_err-eq-ok, ok_inj, if-cases, eq-cases, inl, inr,
}
use ovni.Prelude.Int.{ℤ, pos, negsuc, eq_ℤ, ltb_ℤ, pos_part}
use ovni.Value.{Value}
use ovni.Chan.Contents.{IsOutput}
use ovni.Vendor.{LinkedList, update_at, update_other, at_place}
use ovni.Bay.{Bay, bay_enable_cb, bay_disable_cb}
use ovni.Mux.{Mux, index_of, clear_selected, set_selected, pointer, bay_failed}
use ovni.Mux.Choice.{Keeps, mark-Keeps, apart_from, no_input, not_set, is_pos}

pointer_lem : (o : Option ℕ) (p : ℕ) → pointer o ≡ ok p → o ≡ some p
pointer_lem none p h = cc
pointer_lem (some q) p h = ap some (ok_inj h)

same_pointer :
    (mux : Mux) (j k c d : ℕ)
    → j ≡ k
    → (mux.inputs j).cb ≡ some c
    → (mux.inputs k).cb ≡ some d
    → c ≡ d
same_pointer mux j k c d s e f = cc

module _ {L T X : Type 0} (dl : LinkedList L) where
  -- A callback is switched, and nothing of the channels changes.
  record Switched (on : Bool) (cb : ℕ) (bay bay' : Bay L T X) : Type 0 where
    now : (bay'.callbacks cb).enabled ≡ on
    others : (k : ℕ) → k ≢ cb → bay'.callbacks k ≡ bay.callbacks k
    same_chans : bay'.chans ≡ bay.chans

  disable_lem :
      (cb : ℕ) (bay bay' : Bay L T X)
      → bay_disable_cb dl bay cb ≡ ok bay'
      → Switched false cb bay bay'
  unfolding bay_disable_cb
  disable_lem cb bay bay' h = elim (if-cases (not (bay.callbacks cb).enabled) _ _ h) [
    | inl (off, e) ↦
        subst (Switched false cb bay) (ok_inj e)
          (record { now = ground arith; others = λ k n. refl; same_chans = refl })
    | inr (on, h) ↦ elim (if-cases (bay.bchans (bay.callbacks cb).bchan).is_dirty _ _ h) [
      | inl (hit, e) ↦ cc
      | inr (miss, e) ↦ subst (Switched false cb bay) (ok_inj e) (record {
        now = ap (λ u. u.enabled) (update_at bay.callbacks cb _);
        others = λ k n. update_other bay.callbacks cb _ k n;
        same_chans = refl;
      })
    ]
  ]

  enable_lem :
      (cb : ℕ) (bay bay' : Bay L T X)
      → bay_enable_cb dl bay cb ≡ ok bay'
      → Switched true cb bay bay'
  unfolding bay_enable_cb
  enable_lem cb bay bay' h = elim (if-cases (bay.callbacks cb).enabled _ _ h) [
    | inl (on, e) ↦
        subst (Switched true cb bay) (ok_inj e)
          (record { now = on; others = λ k n. refl; same_chans = refl })
    | inr (off, h) ↦ elim (if-cases (bay.bchans (bay.callbacks cb).bchan).is_dirty _ _ h) [
      | inl (hit, e) ↦ cc
      | inr (miss, e) ↦ subst (Switched true cb bay) (ok_inj e) (record {
        now = ap (λ u. u.enabled) (update_at bay.callbacks cb _);
        others = λ k n. update_other bay.callbacks cb _ k n;
        same_chans = refl;
      })
    ]
  ]

  -- Every mark of an input is that of the selection, the marked inputs have their callback enabled and the
  -- others not, and the output takes the writes. After mux_init nothing is marked, while `selected` is 0.
  pub record IsMux (mux : Mux) (bay : Bay L T X) : Type 0 where
    pub apart :
        (i j cb : ℕ)
        → i < mux.ninputs
        → j < mux.ninputs
        → (mux.inputs i).cb ≡ some cb
        → (mux.inputs j).cb ≡ some cb
        → i ≡ j
    pub marked : (j : ℕ) → j < mux.ninputs → (mux.inputs j).selected ≡ true → mux.selected ≡ pos j
    pub enabled :
        (j cb : ℕ)
        → j < mux.ninputs
        → (mux.inputs j).cb ≡ some cb
        → (bay.callbacks cb).enabled ≡ (mux.inputs j).selected
    pub none_is : ltb_ℤ mux.selected (pos 0) ≡ true → mux.selected ≡ negsuc 0
    pub in_range : ltb_ℤ mux.selected (pos mux.ninputs) ≡ true
    pub chooses :
        (f : Value → Option (Option ℕ))
        → mux.select_func ≡ some f
        → (key : Value) (i : ℕ) → f key ≡ some (some i)
        → i < mux.ninputs
    pub output_well : IsOutput (bay.chans mux.output)
    pub output_called : (bay.chans mux.output).dirty_cb ≡ some mux.output

  -- The marks and the enabled callbacks are those of a selection.
  pub record Selects (s : ℤ) (mux : Mux) (bay : Bay L T X) : Type 0 where
    pub selection : mux.selected ≡ s
    pub marks : (j : ℕ) → j < mux.ninputs → (mux.inputs j).selected ≡ eq_ℤ s (pos j)
    pub switches :
        (j cb : ℕ)
        → j < mux.ninputs
        → (mux.inputs j).cb ≡ some cb
        → (bay.callbacks cb).enabled ≡ eq_ℤ s (pos j)

  pub clear_lem :
      (mux mux' : Mux) (bay bay' : Bay L T X)
      → IsMux mux bay
      → clear_selected dl mux bay ≡ ok (mux', bay')
      → Keeps mux mux' × Selects (negsuc 0) mux' bay' × (bay'.chans ≡ bay.chans)
  unfolding clear_selected
  clear_lem mux mux' bay bay' i h = elim (if-cases (ltb_ℤ mux.selected (pos 0)) _ _ h) [
    | inl (below, e) ↦
        let off : (j : ℕ) → j < mux.ninputs → (mux.inputs j).selected ≡ false =
          λ j b. not_set (mux.inputs j).selected (λ on. ground (arith, below, i.marked j b on)) in
        subst (λ (m, b). Keeps mux m × Selects (negsuc 0) m b × (b.chans ≡ bay.chans)) (ok_inj e)
          (
            record {
              same_n = refl;
              same_cb = λ j. refl;
              same_chan = λ j. refl;
              same_output = refl;
              same_def = refl;
              same_func = refl;
            },
            record {
              selection = i.none_is below;
              marks = λ j b. off j b ∙ no_input j;
              switches = λ j cb b e. i.enabled j cb b e ∙ off j b ∙ no_input j;
            },
            refl,
          )
    | inr (above, h) ↦
        let k = pos_part mux.selected in
        let is : mux.selected ≡ pos k = is_pos mux.selected above in
        let low : k < mux.ninputs = ground (arith, i.in_range, is) in
        let (cb, at_k, h) = >>=-eq-ok (pointer (mux.inputs k).cb) _ h in
        let is_cb = pointer_lem (mux.inputs k).cb cb at_k in
        let (bay1, off, last) = >>=-eq-ok (or_err bay_failed (bay_disable_cb dl bay cb)) _ h in
        let d = disable_lem cb bay bay1 (or_err-eq-ok bay_failed _ off) in
        let keeps = mark-Keeps mux k false (negsuc 0) in
        let others : (j : ℕ) → j < mux.ninputs → j ≢ k → (mux.inputs j).selected ≡ false = λ j b n.
          not_set (mux.inputs j).selected (λ on. n (ap pos_part (sym (i.marked j b on)))) in
        subst (λ (m, b). Keeps mux m × Selects (negsuc 0) m b × (b.chans ≡ bay.chans)) (ok_inj last)
          (
            keeps,
            record {
              selection = refl;
              marks = λ j b.
                  at_place (λ u. u.selected ≡ false) mux.inputs k _ j (λ e. refl)
                    (λ n. others j b n)
                  ∙ no_input j;
              switches = λ j c b e.
                  let is_c = sym (Keeps.same_cb keeps j) ∙ e in
                  elim (eq-cases j k) [
                    | inl s ↦
                        ap (λ r. (bay1.callbacks r).enabled)
                          (same_pointer mux j k c cb s is_c is_cb)
                        ∙ d.now
                    | inr n ↦
                        ap (λ u. u.enabled)
                          (d.others c (λ s. n (i.apart j k c b low is_c (is_cb ∙ ap some (sym s)))))
                        ∙ i.enabled j c b is_c
                        ∙ others j b n
                  ]
                  ∙ no_input j;
            },
            d.same_chans,
          )
  ]

  pub set_lem :
      (mux mux' : Mux) (input : Option ℕ) (bay bay' : Bay L T X)
      → ((i j cb : ℕ)
          → i < mux.ninputs
          → j < mux.ninputs
          → (mux.inputs i).cb ≡ some cb
          → (mux.inputs j).cb ≡ some cb
          → i ≡ j)
      → ((i : ℕ) → input ≡ some i → i < mux.ninputs)
      → Selects (negsuc 0) mux bay
      → set_selected dl mux input bay ≡ ok (mux', bay')
      → Keeps mux mux' × Selects (index_of input) mux' bay' × (bay'.chans ≡ bay.chans)
  unfolding set_selected
  set_lem mux mux' none bay bay' apart range sel h =
      subst (λ (m, b). Keeps mux m × Selects (negsuc 0) m b × (b.chans ≡ bay.chans)) (ok_inj h)
        (
          record {
            same_n = refl;
            same_cb = λ j. refl;
            same_chan = λ j. refl;
            same_output = refl;
            same_def = refl;
            same_func = refl;
          },
          sel,
          refl,
        )
  set_lem mux mux' (some k) bay bay' apart range sel h =
      let (cb, at_k, h) = >>=-eq-ok (pointer (mux.inputs k).cb) _ h in
      let is_cb = pointer_lem (mux.inputs k).cb cb at_k in
      let (bay1, on, last) = >>=-eq-ok (or_err bay_failed (bay_enable_cb dl bay cb)) _ h in
      let d = enable_lem cb bay bay1 (or_err-eq-ok bay_failed _ on) in
      let keeps = mark-Keeps mux k true (pos k) in
      subst (λ (m, b). Keeps mux m × Selects (pos k) m b × (b.chans ≡ bay.chans)) (ok_inj last)
        (
          keeps,
          record {
            selection = refl;
            marks = λ j b.
                at_place (λ u. u.selected ≡ eq_ℤ (pos k) (pos j)) mux.inputs k _ j
                  (λ e. ground (arith, e))
                  (λ n. sel.marks j b ∙ sym (no_input j) ∙ sym (apart_from k j n));
            switches = λ j c b e.
                let is_c = sym (Keeps.same_cb keeps j) ∙ e in
                elim (eq-cases j k) [
                  | inl s ↦
                      ap (λ r. (bay1.callbacks r).enabled) (same_pointer mux j k c cb s is_c is_cb)
                      ∙ d.now
                      ∙ ground (arith, s)
                  | inr n ↦
                      ap (λ u. u.enabled)
                        (d.others c
                          (λ s. n (apart j k c b (range k refl) is_c (is_cb ∙ ap some (sym s)))))
                      ∙ sel.switches j c b is_c
                      ∙ sym (no_input j)
                      ∙ sym (apart_from k j n)
                ];
          },
          d.same_chans,
        )
