-- ===== src/Bay/Walk.antt =====
-- The loop over the callbacks of a channel of src/emu/bay.c, where they do not change the list.
use ovni.Prelude.{
  ℕ, zero, suc, ◌<◌, ◌≡◌, refl, ap, ◌∙◌, Option, none, some, List, [], ◌∷◌, ◌++◌, arith, Result, ok,
  err, length,
}
use ovni.Vendor.{LinkedList, IsLinkedList, IsNext, Distinct, first}
use ovni.Bay.{Bay, BayError, CbType, walk, propagate_chan, callback_failed, callbacks_of}

module _ {L T X : Type 0} (dl : LinkedList L) (next : ℕ → L → Option ℕ)
    (call : ℕ → Bay L T X → Option (Bay L T X)) where
  -- The callbacks of a list, in order, until one fails.
  unfoldable pub call_all : List ℕ → Bay L T X → Result BayError (Bay L T X)
  call_all [] bay = ok bay
  call_all (cb ∷ cbs) bay = elim (call cb bay) [
    | none ↦ err callback_failed
    | some bay' ↦ call_all cbs bay'
  ]

  -- No callback changes the list of the channel.
  abbrev pub Keeps : CbType → ℕ → Type 0
  Keeps type c =
      (cb : ℕ) (bay bay' : Bay L T X)
      → call cb bay ≡ some bay'
      → callbacks_of type (bay'.bchans c) ≡ callbacks_of type (bay.bchans c)

  module _ (law : IsNext dl next) (steps : ℕ) (type : CbType) (c : ℕ) (keeps : Keeps type c) (l : L)
      (once : Distinct (dl.elems l)) where
    append_assoc : (a : List ℕ) (x : ℕ) (b : List ℕ) → a ++ (x ∷ b) ≡ (a ++ (x ∷ [])) ++ b
    append_assoc [] x b = refl
    append_assoc (y ∷ a) x b = ap (◌∷◌ y) (append_assoc a x b)

    walk_from :
        (cbs before : List ℕ) (fuel : ℕ) (bay : Bay L T X)
        → callbacks_of type (bay.bchans c) ≡ l
        → dl.elems l ≡ before ++ cbs
        → length cbs < fuel
        → walk dl next call steps type c fuel (first cbs) bay ≡ call_all cbs bay
    unfolding walk call_all
    walk_from [] before fuel bay same split enough = refl
    walk_from (cb ∷ cbs) before zero bay same split enough = absurd (omega (arith, enough))
    walk_from (cb ∷ cbs) before (suc fuel) bay same split enough =
        go
          (λ bay1 same1.
            walk_from cbs (before ++ (cb ∷ [])) fuel bay1 same1 (split ∙ append_assoc before cb cbs)
              (omega (arith, enough)))
          (call cb bay) refl
      where
        go :
            ((bay1 : Bay L T X)
              → callbacks_of type (bay1.bchans c) ≡ l
              → walk dl next call steps type c fuel (first cbs) bay1 ≡ call_all cbs bay1)
            → (o : Option (Bay L T X)) → call cb bay ≡ o
            → elim o [
              | none ↦ err callback_failed
              | some bay' ↦
                  walk dl next call steps type c fuel
                    (next cb (callbacks_of type (bay'.bchans c)))
                    bay'
            ]
              ≡ elim o [ none ↦ err callback_failed | some bay' ↦ call_all cbs bay' ]
        go rest none e = refl
        go rest (some bay1) e =
            let same1 = keeps cb bay bay1 e ∙ same in
            let behind : next cb (callbacks_of type (bay1.bchans c)) ≡ first cbs =
              ap (next cb) same1 ∙ law.next-elems cb l before cbs once split in
            ap (λ p. walk dl next call steps type c fuel p bay1) behind ∙ rest bay1 same1

  -- Where no callback changes the list of the channel, which has each callback once, and more steps are given
  -- than it has callbacks, the loop calls the callbacks of the list in order, until one fails.
  pub propagate_chan_lem :
      (link : IsLinkedList dl) (law : IsNext dl next) (steps : ℕ) (type : CbType) (c : ℕ)
      (bay : Bay L T X)
      → Keeps type c
      → Distinct (dl.elems (callbacks_of type (bay.bchans c)))
      → length (dl.elems (callbacks_of type (bay.bchans c))) < steps
      → propagate_chan dl next call steps type c bay
        ≡ call_all (dl.elems (callbacks_of type (bay.bchans c))) bay
  unfolding propagate_chan
  propagate_chan_lem link law steps type c bay keeps once enough =
      let l = callbacks_of type (bay.bchans c) in
      ap (λ p. walk dl next call steps type c steps p bay) (link.head-elems l)
      ∙ walk_from law steps type c keeps l once (dl.elems l) [] steps bay refl refl enough
