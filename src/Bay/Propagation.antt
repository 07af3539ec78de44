-- ===== src/Bay/Propagation.antt =====
-- bay_propagate of src/emu/bay.c ends, and leaves no channel dirty.
use ovni.Prelude.{
  ℕ, ◌<◌, ◌≡◌, refl, sym, ap, subst, ◌∙◌, Bool, true, false, Option, List, [], ◌∷◌, arith, ok, err,
  >>=-skip, >>=-stop, or_err, eq-cases, inl, inr, ◌⊎◌,
}
use ovni.Chan.{Chan, chan_read, chan_flush}
use ovni.Vendor.{
  LinkedList, IsLinkedList, Member, Distinct, update, update_at, update_other, at_place,
}
use ovni.Bay.Dirty.{IsDirtyList, listed}
use ovni.Bay.{
  Bay, dirty_type, emit_type, ready, propagating, emitting, flushing, flush_all, bay_propagate,
  callback_failed, flush_failed,
}
use ovni.Bay.Rounds.{AreCallbacks, set_state-IsDirtyList, dirty_loop_lem}

flush_ok :
    (chan : Chan)
    → chan.is_dirty ≡ true
    → (c : Chan) × (chan_flush chan ≡ ok c)
      × (c.is_dirty ≡ false)
      × (chan_read c ≡ chan_read chan)
      × (c.dirty_cb ≡ chan.dirty_cb)
unfolding chan_flush chan_read
flush_ok chan d =
    (record chan { last_value = chan_read chan; is_dirty = false }, rw d refl, refl, refl, refl)

not_dirty : (b : Bool) → ¬ (b ≡ true) → b ≡ false
not_dirty true h = absurd (h refl)
not_dirty false h = refl

module _ {L T X : Type 0} (dl : LinkedList L) (n : ℕ) where
  -- What the flushes of a list of channels do to the channels.
  record Flushed (cs : List ℕ) (bay bay' : Bay L T X) : Type 0 where
    still :
        (c : ℕ) → (bay'.chans c).is_dirty ≡ true → (bay.chans c).is_dirty ≡ true × ¬ (Member c cs)
    same_read : (c : ℕ) → chan_read (bay'.chans c) ≡ chan_read (bay.chans c)
    same_cb : (c : ℕ) → (bay'.chans c).dirty_cb ≡ (bay.chans c).dirty_cb

  flush_all_lem :
      (cs : List ℕ) (bay : Bay L T X)
      → Distinct cs
      → ((c : ℕ) → Member c cs → (bay.chans c).is_dirty ≡ true)
      → (bay' : Bay L T X) × (flush_all dl cs bay ≡ ok bay') × Flushed cs bay bay'
  unfolding flush_all
  flush_all_lem [] bay d dirty =
      (bay, refl, record { still = λ c h. (h, λ k. k); same_read = λ c. refl; same_cb = λ c. refl })
  flush_all_lem (c ∷ cs) bay (new, d) dirty =
      let (chan, flushed, clean, read, cb) = flush_ok (bay.chans c) (dirty c (inl refl)) in
      let chans = update bay.chans c chan in
      let bay1 = record bay {
        chans = chans;
        bchans = update bay.bchans c (record (bay.bchans c) { is_dirty = false });
      } in
      let (bay2, rest, f) = flush_all_lem cs bay1 d (λ e m.
        ap (λ u. u.is_dirty) (update_other bay.chans c chan e (new e m)) ∙ dirty e (inr m)) in
      (
        bay2,
        >>=-skip (or_err flush_failed (chan_flush (bay.chans c))) _
            (ap (or_err flush_failed) flushed) rest,
        record {
          still = λ e h.
              let (was, out) = f.still e h in
              elim (eq-cases e c) [
                | inl s ↦
                    let now : (chans e).is_dirty ≡ false =
                      ap (λ r. (chans r).is_dirty) s
                      ∙ ap (λ u. u.is_dirty) (update_at bay.chans c chan)
                      ∙ clean in
                    ground (arith, now, was)
                | inr o ↦ (
                  ap (λ u. u.is_dirty) (sym (update_other bay.chans c chan e o)) ∙ was,
                  λ m. elim m [ inl s ↦ o s | inr k ↦ out k ],
                )
              ];
          same_read = λ e.
              f.same_read e
              ∙ at_place (λ u. chan_read u ≡ chan_read (bay.chans e)) bay.chans c chan e
                  (λ s. read ∙ ap (λ r. chan_read (bay.chans r)) (sym s)) (λ o. refl);
          same_cb = λ e.
              f.same_cb e
              ∙ at_place (λ u. u.dirty_cb ≡ (bay.chans e).dirty_cb) bay.chans c chan e
                  (λ s. cb ∙ ap (λ r. (bay.chans r).dirty_cb) (sym s)) (λ o. refl);
        },
      )

  -- After a propagation nothing is dirty, and the bay is ready again.
  pub record IsSettledBay (bay : Bay L T X) : Type 0 where
    pub is_ready : bay.state ≡ ready
    pub none_listed : listed dl n bay ≡ []
    pub all_clean : (c : ℕ) → (bay.chans c).is_dirty ≡ false
    pub in_order : IsDirtyList dl n bay

  -- With `n` registered channels and a dirty list in order, where the callbacks write to these channels only, keep
  -- the bay in order, and leave fewer callbacks to call in a loop over those of a channel, which has at most
  -- `steps` at its start, more than `n` rounds of each loop over the dirty list are enough for a propagation to
  -- end: a callback fails, or the bay is ready again, with an empty list and no dirty channel. No flush fails.
  pub propagate_lem :
      (link : IsLinkedList dl) (next : ℕ → L → Option ℕ) (call : ℕ → Bay L T X → Option (Bay L T X))
      (steps : ℕ) (IsOrdered : Bay L T X → Type 0) (left : Bay L T X → ℕ → ℕ) (fuel : ℕ)
      (bay : Bay L T X)
      → AreCallbacks dl n next call steps IsOrdered left
      → IsDirtyList dl n bay
      → IsOrdered bay
      → n < fuel
      → ((bay' : Bay L T X) × (bay_propagate dl next call steps fuel bay ≡ ok bay')
          × IsSettledBay bay')
        ⊎ (bay_propagate dl next call steps fuel bay ≡ err callback_failed)
  unfolding bay_propagate
  propagate_lem link next call steps IsOrdered left fuel bay law i o enough =
      let w0 = set_state-IsDirtyList dl n bay propagating i in
      elim (dirty_loop_lem dl n next call steps IsOrdered left law dirty_type fuel 0
        (record bay { state = propagating }) w0 (law.set_state-IsOrdered bay propagating o)
        (omega arith) (omega (arith, enough))) [
          | inr e ↦ inr (>>=-stop _ _ e)
          | inl (bay1, e, g, o1) ↦
              let w1 = set_state-IsDirtyList dl n bay1 emitting g.well in
              elim (dirty_loop_lem dl n next call steps IsOrdered left law emit_type fuel 0
                (record bay1 { state = emitting }) w1 (law.set_state-IsOrdered bay1 emitting o1)
                (omega arith) (omega (arith, enough))) [
                  | inr f ↦ inr (>>=-skip _ _ e (>>=-stop _ _ f))
                  | inl (bay2, f, g2, o2) ↦
                      let cs = listed dl n bay2 in
                      let (bay3, k, fl) =
                        flush_all_lem cs (record bay2 { state = flushing }) g2.well.once
                          g2.well.is_dirty in
                      let clean : (c : ℕ) → (bay3.chans c).is_dirty ≡ false = λ c.
                        not_dirty (bay3.chans c).is_dirty
                          (λ d. (fl.still c d).1 (g2.well.is_listed c ((fl.still c d).0))) in
                      inl (
                        record bay3 { dirty = dl.empty_list; state = ready },
                        >>=-skip _ _ e (>>=-skip _ _ f (>>=-skip _ _ k refl)),
                        record {
                          is_ready = refl;
                          none_listed = link.elems-empty;
                          all_clean = clean;
                          in_order = record {
                            once = subst Distinct (sym link.elems-empty) tt;
                            is_listed = λ c d. ground (arith, clean c, d);
                            is_dirty = λ c m. absurd (subst (Member c) link.elems-empty m);
                            below = λ c m. absurd (subst (Member c) link.elems-empty m);
                            registered = λ c b. fl.same_cb c ∙ g2.well.registered c b;
                          };
                        },
                      )
                ]
        ]
