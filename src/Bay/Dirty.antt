-- ===== src/Bay/Dirty.antt =====
-- The dirty list of src/emu/bay.c under the writes to its channels.
use ovni.Prelude.{
  ℕ, ◌<◌, ◌≡◌, ◌≢◌, refl, sym, ap, subst, ◌∙◌, true, false, some, List, [], ◌∷◌, ◌++◌, arith, ok,
  or_err, >>=-eq-ok, or_err-eq-ok, ok_inj, Bool-cases, inl, inr,
}
use ovni.Value.{Value}
use ovni.Chan.{Chan, chan_read}
use ovni.Chan.Contents.{IsOutput, set-IsOutput}
use ovni.Chan.Protocol.{Write, Same, set, write, write-Same}
use ovni.Vendor.{
  LinkedList, IsLinkedList, Member, Distinct, update, update_at, update_other, at_place,
}
use ovni.Cpu.Threads.{Member-end, Member-append, Member-last, Distinct-end}
use ovni.Bay.{Bay, BayCb, BayChan, emitting, may_dirty, cb_chan_is_dirty, write_chan, write_failed}
use ovni.Bay.Calls.{write-Called, dirty-cases}

module _ {L T X : Type 0} (dl : LinkedList L) (n : ℕ) where
  abbrev pub listed : Bay L T X → List ℕ
  listed bay = dl.elems bay.dirty

  -- The dirty list has each dirty channel once, and nothing else; the first `n` channels are registered.
  pub record IsDirtyList (bay : Bay L T X) : Type 0 where
    pub once : Distinct (listed bay)
    pub is_listed : (c : ℕ) → (bay.chans c).is_dirty ≡ true → Member c (listed bay)
    pub is_dirty : (c : ℕ) → Member c (listed bay) → (bay.chans c).is_dirty ≡ true
    pub below : (c : ℕ) → Member c (listed bay) → c < n
    pub registered : (c : ℕ) → c < n → (bay.chans c).dirty_cb ≡ some c

  -- The dirty list only grows at its end, and not while the bay emits.
  pub record Grows (bay bay' : Bay L T X) : Type 0 where
    pub well : IsDirtyList bay'
    pub same_state : bay'.state ≡ bay.state
    pub more : List ℕ
    pub longer : listed bay' ≡ listed bay ++ more
    pub not_emitting : bay.state ≡ emitting → more ≡ []

  pub Grows-refl : (bay : Bay L T X) → IsDirtyList bay → Grows bay bay
  Grows-refl bay i = record {
    well = i;
    same_state = refl;
    more = [];
    longer = sym (append_nil (listed bay));
    not_emitting = λ e. refl;
  }
    where
      append_nil : (l : List ℕ) → l ++ [] ≡ l
      append_nil [] = refl
      append_nil (x ∷ l) = ap (◌∷◌ x) (append_nil l)

  pub Grows-trans : (a b c : Bay L T X) → Grows a b → Grows b c → Grows a c
  Grows-trans a b c g h = record {
    well = h.well;
    same_state = h.same_state ∙ g.same_state;
    more = g.more ++ h.more;
    longer = h.longer ∙ ap (λ l. l ++ h.more) g.longer ∙ append_assoc (listed a) g.more h.more;
    not_emitting =
        λ e. ap (λ l. l ++ h.more) (g.not_emitting e) ∙ h.not_emitting (g.same_state ∙ e);
  }
    where
      append_assoc : (l m k : List ℕ) → (l ++ m) ++ k ≡ l ++ (m ++ k)
      append_assoc [] m k = refl
      append_assoc (x ∷ l) m k = ap (◌∷◌ x) (append_assoc l m k)

  cb_lem :
      (c : ℕ) (bay bay' : Bay L T X)
      → cb_chan_is_dirty dl c bay ≡ some bay'
      → (may_dirty bay.state ≡ true) × (bay' ≡ record bay { dirty = dl.append c bay.dirty })
  unfolding cb_chan_is_dirty
  cb_lem c bay bay' h = elim (Bool-cases (may_dirty bay.state)) [
    | inl e ↦ (e, ground arith)
    | inr e ↦ ground arith
  ]

  module _ (law : IsLinkedList dl) (c : ℕ) (in_bay : c < n) (bay : Bay L T X) (i : IsDirtyList bay)
      (chan : Chan) (same_cb : chan.dirty_cb ≡ (bay.chans c).dirty_cb) where
    registered_after : (d : ℕ) → d < n → (update bay.chans c chan d).dirty_cb ≡ some d
    registered_after d b =
        at_place (λ u. u.dirty_cb ≡ some d) bay.chans c chan d
          (λ e. same_cb ∙ i.registered c in_bay ∙ ap some (sym e)) (λ o. i.registered d b)

    unchanged :
        chan.is_dirty ≡ (bay.chans c).is_dirty
        → Grows bay (record bay { chans = update bay.chans c chan })
    unfolding Grows-refl
    unchanged same = record {
      well = record {
        once = i.once;
        is_listed = λ d.
            at_place (λ u. u.is_dirty ≡ true → Member d (listed bay)) bay.chans c chan d
              (λ e h. subst (λ r. Member r (listed bay)) (sym e) (i.is_listed c (sym same ∙ h)))
              (λ o. i.is_listed d);
        is_dirty = λ d m.
            at_place (λ u. u.is_dirty ≡ true) bay.chans c chan d
              (λ e. same ∙ i.is_dirty c (subst (λ r. Member r (listed bay)) e m))
              (λ o. i.is_dirty d m);
        below = i.below;
        registered = registered_after;
      };
      same_state = refl;
      more = [];
      longer = Grows.longer (Grows-refl bay i);
      not_emitting = λ e. refl;
    }

    added :
        (bay.chans c).is_dirty ≡ false
        → chan.is_dirty ≡ true
        → may_dirty bay.state ≡ true
        → Grows bay (record bay { dirty = dl.append c bay.dirty; chans = update bay.chans c chan })
    added was now may =
        let longer : dl.elems (dl.append c bay.dirty) ≡ listed bay ++ (c ∷ []) =
          law.elems-append c bay.dirty in
        let to : (d : ℕ)
            → Member d (listed bay ++ (c ∷ []))
            → Member d (dl.elems (dl.append c bay.dirty)) =
          λ d m. subst (Member d) (sym longer) m in
        let new : ¬ (Member c (listed bay)) = λ m. ground (arith, i.is_dirty c m, was) in
        record {
          well = record {
            once = subst Distinct (sym longer) (Distinct-end (listed bay) c i.once new);
            is_listed = λ d.
                at_place (λ u. u.is_dirty ≡ true → Member d (dl.elems (dl.append c bay.dirty)))
                  bay.chans c chan d
                  (λ e h. to d (
                    subst (λ r. Member r (listed bay ++ (c ∷ []))) (sym e)
                      (Member-last c (listed bay))))
                  (λ o h. to d (Member-append d (listed bay) (c ∷ []) (i.is_listed d h)));
            is_dirty = λ d m.
                at_place (λ u. u.is_dirty ≡ true) bay.chans c chan d (λ e. now)
                  (λ o. elim (Member-end (listed bay) c d (subst (Member d) longer m)) [
                    | inl k ↦ i.is_dirty d k
                    | inr e ↦ absurd (o e)
                  ]);
            below = λ d m. elim (Member-end (listed bay) c d (subst (Member d) longer m)) [
              | inl k ↦ i.below d k
              | inr e ↦ subst (λ r. r < n) (sym e) in_bay
            ];
            registered = registered_after;
          };
          same_state = refl;
          more = c ∷ [];
          longer = longer;
          not_emitting = λ e. ground (arith, ap may_dirty e, may);
        }

  -- A write to a registered channel keeps the list, or puts the channel at its end.
  pub write_chan-Grows :
      (law : IsLinkedList dl) (c : ℕ) (w : Write) (bay bay' : Bay L T X)
      → c < n
      → IsDirtyList bay
      → write_chan dl c w bay ≡ ok bay'
      → Grows bay bay'
  unfolding write_chan
  write_chan-Grows law c w bay bay' in_bay i h =
      let chan = bay.chans c in
      let ((chan', mid), wrote, last) =
        >>=-eq-ok (or_err write_failed (write (cb_chan_is_dirty dl) w chan bay)) _ h in
      let h' = or_err-eq-ok write_failed _ wrote in
      let k =
        write-Called (cb_chan_is_dirty dl) c w chan chan' bay mid (i.registered c in_bay) h' in
      let same_cb = Same.same_cb (write-Same (cb_chan_is_dirty dl) w chan chan' bay mid h') in
      subst (Grows bay) (ok_inj last)
        (elim (dirty-cases chan.is_dirty chan'.is_dirty k.stays_dirty) [
          | inl same ↦
              subst (λ m. Grows bay (record m { chans = update m.chans c chan' }))
                (sym (k.not_called (sym same))) (unchanged law c in_bay bay i chan' same_cb same)
          | inr (was, now) ↦
              let (may, is) = cb_lem c bay mid (k.called was now) in
              subst (λ m. Grows bay (record m { chans = update m.chans c chan' })) (sym is)
                (added law c in_bay bay i chan' same_cb was now may)
        ])

-- What a write does to the bay beside the channel and the dirty list: nothing.
pub write_chan-rest :
    {L T X : Type 0} (dl : LinkedList L) (c : ℕ) (v : Value) (bay bay' : Bay L T X)
    → (bay.chans c).dirty_cb ≡ some c
    → IsOutput (bay.chans c)
    → write_chan dl c (set v) bay ≡ ok bay'
    → (bay'.callbacks ≡ bay.callbacks)
      × IsOutput (bay'.chans c)
      × (chan_read (bay'.chans c) ≡ v)
      × ((d : ℕ) → d ≢ c → bay'.chans d ≡ bay.chans d)
unfolding write_chan write
write_chan-rest {L} {T} {X} dl c v bay bay' e o h =
    let chan = bay.chans c in
    let ((chan', mid), wrote, last) =
      >>=-eq-ok (or_err write_failed (write (cb_chan_is_dirty dl) (set v) chan bay)) _ h in
    let h' = or_err-eq-ok write_failed _ wrote in
    let k = write-Called (cb_chan_is_dirty dl) c (set v) chan chan' bay mid e h' in
    let (out, reads) = set-IsOutput (cb_chan_is_dirty dl) chan chan' v bay mid o h' in
    let same : (mid.callbacks ≡ bay.callbacks) × (mid.chans ≡ bay.chans) =
      elim (dirty-cases chan.is_dirty chan'.is_dirty k.stays_dirty) [
        | inl same ↦
            let is = k.not_called (sym same) in (ap (λ m. m.callbacks) is, ap (λ m. m.chans) is)
        | inr (was, now) ↦
            let is = (cb_lem dl 0 c bay mid (k.called was now)).1 in
            (ap (λ m. m.callbacks) is, ap (λ m. m.chans) is)
      ] in
    let there = update_at mid.chans c chan' in
    subst
      (λ b.
        (b.callbacks ≡ bay.callbacks)
        × IsOutput (b.chans c)
        × (chan_read (b.chans c) ≡ v)
        × ((d : ℕ) → d ≢ c → b.chans d ≡ bay.chans d))
      (ok_inj last)
      (
        same.0,
        subst IsOutput (sym there) out,
        ap chan_read there ∙ reads,
        λ d n. update_other mid.chans c chan' d n ∙ ap (λ f. f d) same.1,
      )

-- A write to a registered channel leaves the callbacks and their lists as they are.
pub write_chan-callbacks :
    {L T X : Type 0} (dl : LinkedList L) (c : ℕ) (w : Write) (bay bay' : Bay L T X)
    → (bay.chans c).dirty_cb ≡ some c
    → write_chan dl c w bay ≡ ok bay'
    → (bay'.callbacks ≡ bay.callbacks) × (bay'.bchans ≡ bay.bchans)
unfolding write_chan
write_chan-callbacks dl c w bay bay' e h =
    let chan = bay.chans c in
    let ((chan', mid), wrote, last) =
      >>=-eq-ok (or_err write_failed (write (cb_chan_is_dirty dl) w chan bay)) _ h in
    let k =
      write-Called (cb_chan_is_dirty dl) c w chan chan' bay mid e
        (or_err-eq-ok write_failed _ wrote) in
    let same : (mid.callbacks ≡ bay.callbacks) × (mid.bchans ≡ bay.bchans) =
      elim (dirty-cases chan.is_dirty chan'.is_dirty k.stays_dirty) [
        | inl same ↦
            let is = k.not_called (sym same) in (ap (λ m. m.callbacks) is, ap (λ m. m.bchans) is)
        | inr (was, now) ↦
            let is = (cb_lem dl 0 c bay mid (k.called was now)).1 in
            (ap (λ m. m.callbacks) is, ap (λ m. m.bchans) is)
      ] in
    subst (λ b. (b.callbacks ≡ bay.callbacks) × (b.bchans ≡ bay.bchans)) (ok_inj last) same

-- A change of the callbacks and their lists leaves the dirty list as it is.
pub edit-Grows :
    {L T X : Type 0} (dl : LinkedList L) (n : ℕ) (bay : Bay L T X) (callbacks : ℕ → BayCb)
    (bchans : ℕ → BayChan L)
    → IsDirtyList dl n bay
    → Grows dl n bay (record bay { callbacks = callbacks; bchans = bchans })
unfolding Grows-refl
edit-Grows dl n bay callbacks bchans i = record {
  well = record {
    once = i.once;
    is_listed = i.is_listed;
    is_dirty = i.is_dirty;
    below = i.below;
    registered = i.registered;
  };
  same_state = refl;
  more = [];
  longer = Grows.longer (Grows-refl dl n bay i);
  not_emitting = λ e. refl;
}
