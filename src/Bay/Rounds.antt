-- ===== src/Bay/Rounds.antt =====
-- The loops over the dirty list of bay_propagate of src/emu/bay.c end.
use ovni.Prelude.{
  ℕ, zero, suc, ◌+◌, ◌<◌, ◌≤◌, ◌≡◌, refl, ap, subst, ◌∙◌, Option, none, some, List, [], ◌∷◌, arith,
  Result, ok, err, eq-cases, inl, inr, ◌⊎◌, length, length-append, get_elem?, Option-cases,
}
use ovni.Vendor.{LinkedList, Member, Distinct, remove}
use ovni.Cpu.Threads.{Member-remove, remove-gone, length-remove, Distinct-remove}
use ovni.Bay.Dirty.{IsDirtyList, Grows, Grows-refl, Grows-trans, listed}
use ovni.Bay.{
  Bay, BayState, BayError, CbType, walk, propagate_chan, dirty_loop, callback_failed, callbacks_of,
}

in_or_out : (p : ℕ) (l : List ℕ) → Member p l ⊎ ¬ (Member p l)
in_or_out p [] = inr (λ k. k)
in_or_out p (q ∷ l) = elim (eq-cases p q) [
  | inl e ↦ inl (inl e)
  | inr n ↦ elim (in_or_out p l) [
    | inl k ↦ inl (inr k)
    | inr k ↦ inr (λ m. elim m [ inl e ↦ n e | inr o ↦ k o ])
  ]
]

-- A list of different numbers below `n` has at most `n` of them.
pub few_below : (n : ℕ) (l : List ℕ) → Distinct l → ((c : ℕ) → Member c l → c < n) → length l ≤ n
few_below zero [] d b = omega arith
few_below zero (x ∷ l) d b = absurd (omega (arith, b x (inl refl)))
few_below (suc n) l d b = elim (in_or_out n l) [
  | inl k ↦
      let rest = few_below n (remove n l) (Distinct-remove n l d) (λ c m.
        let there = b c (Member-remove n c l m) in
        elim (eq-cases c n) [
          | inl e ↦ absurd (remove-gone n l d (subst (λ r. Member r (remove n l)) e m))
          | inr o ↦ omega (arith, there, o)
        ]) in
      omega (arith, length-remove n l k, rest)
  | inr k ↦
      let rest = few_below n l d (λ c m.
        let there = b c m in
        elim (eq-cases c n) [
          | inl e ↦ absurd (k (subst (λ r. Member r l) e m))
          | inr o ↦ omega (arith, there, o)
        ]) in
      omega (arith, rest)
]

get_elem?-bound : {A : Type 0} (l : List A) (i : ℕ) (a : A) → get_elem? l i ≡ some a → i < length l
get_elem?-bound [] i a e = cc
get_elem?-bound (x ∷ l) zero a e = omega arith
get_elem?-bound (x ∷ l) (suc i) a e = omega (arith, get_elem?-bound l i a e)

module _ {L T X : Type 0} (dl : LinkedList L) (n : ℕ) where
  pub set_state-IsDirtyList :
      (bay : Bay L T X) (st : BayState)
      → IsDirtyList dl n bay
      → IsDirtyList dl n (record bay { state = st })
  set_state-IsDirtyList bay st i = record {
    once = i.once;
    is_listed = i.is_listed;
    is_dirty = i.is_dirty;
    below = i.below;
    registered = i.registered;
  }

  -- What is asked of the callbacks, on the bays that are in order: they write to the registered channels only,
  -- they keep the bay in order, and in a loop over the callbacks of a channel, which they may enable and
  -- disable, fewer are left after each call. At most `steps` are left at the start of a loop.
  pub record AreCallbacks (next : ℕ → L → Option ℕ) (call : ℕ → Bay L T X → Option (Bay L T X))
      (steps : ℕ) (IsOrdered : Bay L T X → Type 0) (left : Bay L T X → ℕ → ℕ) : Type 0 where
    pub call-Grows :
        (cb : ℕ) (bay bay' : Bay L T X)
        → IsDirtyList dl n bay
        → IsOrdered bay
        → call cb bay ≡ some bay'
        → Grows dl n bay bay'
    pub call-IsOrdered :
        (cb : ℕ) (bay bay' : Bay L T X)
        → IsDirtyList dl n bay
        → IsOrdered bay
        → call cb bay ≡ some bay'
        → IsOrdered bay'
    pub set_state-IsOrdered :
        (bay : Bay L T X) (st : BayState) → IsOrdered bay → IsOrdered (record bay { state = st })
    pub falls :
        (type : CbType) (c cb p : ℕ) (bay bay' : Bay L T X)
        → IsDirtyList dl n bay
        → IsOrdered bay
        → call cb bay ≡ some bay'
        → next cb (callbacks_of type (bay'.bchans c)) ≡ some p
        → left bay' p < left bay cb
    pub starts :
        (type : CbType) (c p : ℕ) (bay : Bay L T X)
        → IsOrdered bay
        → dl.head (callbacks_of type (bay.bchans c)) ≡ some p
        → left bay p < steps

  module _ (next : ℕ → L → Option ℕ) (call : ℕ → Bay L T X → Option (Bay L T X)) (steps : ℕ)
      (IsOrdered : Bay L T X → Type 0) (left : Bay L T X → ℕ → ℕ)
      (law : AreCallbacks next call steps IsOrdered left) where
    -- A part of the propagation ends, with the list grown and the bay in order, or because a callback fails.
    abbrev pub Ends : Bay L T X → Result BayError (Bay L T X) → Type 0
    Ends bay r =
        ((bay' : Bay L T X) × (r ≡ ok bay') × Grows dl n bay bay' × IsOrdered bay')
        ⊎ (r ≡ err callback_failed)

    walk-Ends :
        (type : CbType) (c fuel : ℕ) (cur : Option ℕ) (bay : Bay L T X)
        → IsDirtyList dl n bay
        → IsOrdered bay
        → ((p : ℕ) → cur ≡ some p → left bay p < fuel)
        → Ends bay (walk dl next call steps type c fuel cur bay)
    unfolding walk
    walk-Ends type c fuel none bay i o enough = inl (bay, refl, Grows-refl dl n bay i, o)
    walk-Ends type c zero (some cb) bay i o enough = absurd (omega (arith, enough cb refl))
    walk-Ends type c (suc fuel) (some cb) bay i o enough = elim (Option-cases (call cb bay)) [
      | inl e ↦ inr (rw (e, walk) refl)
      | inr (bay1, e) ↦
          let g = law.call-Grows cb bay bay1 i o e in
          let o1 = law.call-IsOrdered cb bay bay1 i o e in
          elim (walk-Ends type c fuel (next cb (callbacks_of type (bay1.bchans c))) bay1 g.well o1
            (λ p h. omega (arith, law.falls type c cb p bay bay1 i o e h, enough cb refl))) [
              | inl (bay2, f, g2, o2) ↦
                  inl (bay2, rw (e, walk) f, Grows-trans dl n bay bay1 bay2 g g2, o2)
              | inr f ↦ inr (rw (e, walk) f)
            ]
    ]

    pub dirty_loop_lem :
        (type : CbType) (fuel i : ℕ) (bay : Bay L T X)
        → IsDirtyList dl n bay
        → IsOrdered bay
        → i ≤ length (listed dl n bay)
        → n < fuel + i
        → Ends bay (dirty_loop dl next call steps type fuel i bay)
    unfolding dirty_loop propagate_chan
    dirty_loop_lem type zero i bay w o at enough =
        absurd (omega (arith, few_below n (listed dl n bay) w.once w.below, at, enough))
    dirty_loop_lem type (suc fuel) i bay w o at enough =
        elim (Option-cases (get_elem? (listed dl n bay) i)) [
          | inl e ↦ inl (bay, rw (e, dirty_loop) refl, Grows-refl dl n bay w, o)
          | inr (c, e) ↦
              let head = dl.head (callbacks_of type (bay.bchans c)) in
              elim (walk-Ends type c steps head bay w o (λ p. law.starts type c p bay o)) [
                | inr f ↦ inr (rw (e, dirty_loop, propagate_chan, f) refl)
                | inl (bay1, f, g, o1) ↦
                    let bound = get_elem?-bound (listed dl n bay) i c e in
                    let len = ap length g.longer ∙ length-append (listed dl n bay) g.more in
                    elim (dirty_loop_lem type fuel (i + 1) bay1 g.well o1
                      (omega (arith, bound, len)) (omega (arith, enough))) [
                        | inr k ↦ inr (rw (e, dirty_loop, propagate_chan, f) k)
                        | inl (bay2, k, g2, o2) ↦ inl (
                          bay2,
                          rw (e, dirty_loop, propagate_chan, f) k,
                          Grows-trans dl n bay bay1 bay2 g g2,
                          o2,
                        )
                      ]
              ]
        ]
