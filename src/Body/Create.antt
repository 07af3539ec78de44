-- ===== src/Body/Create.antt =====
-- The invariant of src/emu/body.c under `body_create`.
use ovni.Prelude.{ℕ, ◌+◌, ◌≡◌, sym, ap, subst, ◌∙◌, false, not, none, some, ok, arith, is_none}
use ovni.Vendor.{LinkedList, IsLinkedList, HashTable, update, update_other}
use ovni.Body.{body_create, Body, Bodies, created}
use ovni.Body.Wellformed.{is_active, may_be_below, IsWell}
use ovni.Body.Start.{off_stack}
use ovni.Body.Invariant.{Member-tail}

module _ {T : Type 0} (table : HashTable T) {L : Type 0} (dl : LinkedList L) where
  abbrev new_body : ℕ → ℕ → ℕ → Body
  new_body id flags task = record {
    id = id;
    flags = flags;
    state = created;
    stack = none;
    iteration = 0;
    task = task;
  }

  abbrev pub with_body : ℕ → ℕ → ℕ → Bodies L → Bodies L
  with_body id flags task m = record m {
    at = update m.at m.fresh (new_body id flags task);
    fresh = m.fresh + 1;
  }

  pub create_inv :
      (info info' : T) (t p id flags : ℕ) (m m' : Bodies L)
      → body_create table info (some t) id flags m ≡ ok (p, info', m')
      → (p ≡ m.fresh)
        × (info' ≡ table.add_int id m.fresh info)
        × (m' ≡ with_body id flags t m)
        × (table.find_int info id ≡ none)
  unfolding body_create
  create_inv info info' t p id flags m m' h = ground arith

  create_stack :
      (m : Bodies L) (id flags t q : ℕ)
      → (m.at m.fresh).stack ≡ none
      → ((with_body id flags t m).at q).stack ≡ (m.at q).stack
  unfolding update
  create_stack m id flags t q h = ground arith

  create_active :
      (m : Bodies L) (id flags t q : ℕ)
      → is_active (m.at m.fresh).state ≡ false
      → is_active ((with_body id flags t m).at q).state ≡ is_active (m.at q).state
  unfolding update
  create_active m id flags t q h = ground arith

  with_body-IsWell :
      IsLinkedList dl
      → (m : Bodies L) (id flags t : ℕ) → IsWell dl m
      → IsWell dl (with_body id flags t m)
  with_body-IsWell law m id flags t w =
      let none_yet = w.not_yet m.fresh (omega arith) in
      let idle : is_active (m.at m.fresh).state ≡ false =
        w.active_on_stack m.fresh ∙ ap (λ o. not (is_none o)) none_yet in
      let same = λ (q : ℕ). create_stack m id flags t q none_yet in
      record {
        active_on_stack = λ q.
            create_active m id flags t q idle
            ∙ w.active_on_stack q
            ∙ ap (λ o. not (is_none o)) (sym (same q));
        stack_has = λ q s e. w.stack_has q s (sym (same q) ∙ e);
        has_stack = λ q s k. same q ∙ w.has_stack q s k;
        once = w.once;
        below = λ s q k.
            ap may_be_below (
              update_other m.at m.fresh _ q
                (off_stack dl law m s m.fresh q w none_yet (Member-tail q _ k)))
            ∙ w.below s q k;
        not_yet = λ q g. same q ∙ w.not_yet q (omega arith);
      }

  pub create-IsWell :
      IsLinkedList dl
      → (info info' : T) (t p id flags : ℕ) (m m' : Bodies L) → IsWell dl m
      → body_create table info (some t) id flags m ≡ ok (p, info', m')
      → IsWell dl m'
  create-IsWell law info info' t p id flags m m' w h =
      let (fresh, added, e, new) = create_inv info info' t p id flags m m' h in
      subst (IsWell dl) (sym e) (with_body-IsWell law m id flags t w)
