-- ===== src/Models/Openmp/Labels.antt =====
-- The identifiers and labels that the tasks of src/emu/openmp/event.c push to the channels of a thread.
use ovni.Prelude.{
  ℕ, ◌≡◌, ◌≢◌, ◌⊎◌, inl, inr, refl, sym, ap, ◌∙◌, false, Option, none, some, List, [], ◌∷◌, arith,
  ltb, ◌==◌, Result, ok, err, or_err, >>=-eq-ok, or_err-eq-ok, fail_if-eq-ok, ok_pair, ok_inj,
  subst, if-cases,
}
use ovni.Prelude.Int.{pos}
use ovni.Rt.Bytes.{le_value}
use ovni.Value.{Value, value_int64, value_is_equal_iff}
use ovni.Chan.{Chan, chan_push, chan_pop, pop_expected, set_dirty, call_dirty}
use ovni.Vendor.{LinkedList, HashTable, update_at, update_other}
use ovni.Task.{Task, Tasks, task_find, task_execute, task_end}
use ovni.Emu.Event.{EmuEv}
use ovni.Models.Stacks.{pushed}
use ovni.Models.Openmp.Tasks.{
  OpenmpError, ch_label, ch_taskid, push_at, pop_at, change_task, update_task, no_such_task,
  zero_id, missing_payload, chan_failed, change_failed,
}

-- The task is on top of the stack of each channel, above what it held.
pub record IsOnTop {T L : Type 0} (m : Tasks T L) (task : Task T) (above below : ℕ → Chan)
    : Type 0 where
  pub has_id : (above ch_taskid).values ≡ value_int64 (pos task.id) ∷ (below ch_taskid).values
  pub has_label :
      (above ch_label).values
      ≡ value_int64 (pos (m.type_at task.type).gid) ∷ (below ch_label).values

module _ {S : Type 0} (cb : ℕ → S → Option S) where
  pop_inv :
      (l : List Value) (d c : Chan) (v : Value) (s s' : S)
      → pop_expected cb l d v s ≡ ok (c, s')
      → l ≡ v ∷ c.values
  unfolding pop_expected set_dirty call_dirty
  pop_inv [] d c v s s' h = cc
  pop_inv (top ∷ rest) d c v s s' h = ground (arith, value_is_equal_iff top v)

  chan_pop_inv :
      (d c : Chan) (v : Value) (s s' : S) → chan_pop cb d v s ≡ ok (c, s') → d.values ≡ v ∷ c.values
  unfolding chan_pop
  chan_pop_inv d c v s s' h = ground (arith, pop_inv d.values d c v s s')

  push_at_lem :
      (k n : ℕ) (ch ch' : ℕ → Chan) (s s' : S)
      → (ch k).skips_dup ≡ false
      → push_at cb k n ch s ≡ ok (ch', s')
      → ((ch' k).values ≡ value_int64 (pos n) ∷ (ch k).values) × ((j : ℕ) → j ≢ k → ch' j ≡ ch j)
  unfolding push_at
  push_at_lem k n ch ch' s s' skip h =
      let ((c, s1), e, last) =
        >>=-eq-ok (or_err chan_failed (chan_push cb (ch k) (value_int64 (pos n)) s)) _ h in
      let (vals, _, _, _) =
        pushed cb (ch k) c (value_int64 (pos n)) s s1 skip (or_err-eq-ok chan_failed _ e) in
      let is = sym ((ok_pair last).0) in
      (
        ap (λ f. (f k).values) is ∙ ap (λ u. u.values) (update_at ch k c) ∙ vals,
        λ j other. ap (λ f. f j) is ∙ update_other ch k c j other,
      )

  pop_at_lem :
      (k n : ℕ) (ch ch' : ℕ → Chan) (s s' : S)
      → pop_at cb k n ch s ≡ ok (ch', s')
      → ((ch k).values ≡ value_int64 (pos n) ∷ (ch' k).values) × ((j : ℕ) → j ≢ k → ch' j ≡ ch j)
  unfolding pop_at
  pop_at_lem k n ch ch' s s' h =
      let ((c, s1), e, last) =
        >>=-eq-ok (or_err chan_failed (chan_pop cb (ch k) (value_int64 (pos n)) s)) _ h in
      let is = sym ((ok_pair last).0) in
      (
        chan_pop_inv (ch k) c (value_int64 (pos n)) s s1 (or_err-eq-ok chan_failed _ e)
            ∙ ap (λ l. value_int64 (pos n) ∷ l)
                (sym (ap (λ f. (f k).values) is ∙ ap (λ u. u.values) (update_at ch k c))),
        λ j other. ap (λ f. f j) is ∙ update_other ch k c j other,
      )

  two_pushes :
      (id gid : ℕ) (ch ch1 ch2 : ℕ → Chan) (s s1 s2 : S)
      → ((j : ℕ) → (ch j).skips_dup ≡ false)
      → push_at cb ch_taskid id ch s ≡ ok (ch1, s1)
      → push_at cb ch_label gid ch1 s1 ≡ ok (ch2, s2)
      → ((ch2 ch_taskid).values ≡ value_int64 (pos id) ∷ (ch ch_taskid).values)
        × ((ch2 ch_label).values ≡ value_int64 (pos gid) ∷ (ch ch_label).values)
  two_pushes id gid ch ch1 ch2 s s1 s2 skip e1 e2 =
      let (on_id, kept) = push_at_lem ch_taskid id ch ch1 s s1 (skip ch_taskid) e1 in
      let same = kept ch_label (ground arith) in
      let (on_label, kept2) =
        push_at_lem ch_label gid ch1 ch2 s1 s2 (ap (λ c. c.skips_dup) same ∙ skip ch_label) e2 in
      (
        ap (λ c. c.values) (kept2 ch_taskid (ground arith)) ∙ on_id,
        on_label ∙ ap (λ c. value_int64 (pos gid) ∷ c.values) same,
      )

  two_pops :
      (id gid : ℕ) (ch ch1 ch2 : ℕ → Chan) (s s1 s2 : S)
      → pop_at cb ch_taskid id ch s ≡ ok (ch1, s1)
      → pop_at cb ch_label gid ch1 s1 ≡ ok (ch2, s2)
      → ((ch ch_taskid).values ≡ value_int64 (pos id) ∷ (ch2 ch_taskid).values)
        × ((ch ch_label).values ≡ value_int64 (pos gid) ∷ (ch2 ch_label).values)
  two_pops id gid ch ch1 ch2 s s1 s2 e1 e2 =
      let (off_id, kept) = pop_at_lem ch_taskid id ch ch1 s s1 e1 in
      let (off_label, kept2) = pop_at_lem ch_label gid ch1 ch2 s1 s2 e2 in
      (
        off_id ∙ ap (λ c. value_int64 (pos id) ∷ c.values) (sym (kept2 ch_taskid (ground arith))),
        ap (λ c. c.values) (sym (kept ch_label (ground arith))) ∙ off_label,
      )

  module _ {T L : Type 0} (table : HashTable T) (dl : LinkedList L) (stack : ℕ) where
    third :
        {A : Type 0} {a b : Tasks T L} {f g : A} {x y : S}
        → ◌≡◌ {A = Result OpenmpError (Tasks T L × A × S)} (ok (a, f, x)) (ok (b, g, y))
        → f ≡ g
    third h = ap (λ q. q.1) (ok_inj h)

    changed :
        (v t : ℕ) (m m' : Tasks T L) (ch ch' : ℕ → Chan) (s s' : S)
        → ((j : ℕ) → (ch j).skips_dup ≡ false)
        → change_task cb table dl stack v t m ch s ≡ ok (m', ch', s')
        → ((v ≡ b'x') × IsOnTop m (m.task_at t) ch' ch)
          ⊎ ((v ≡ b'e') × IsOnTop m (m.task_at t) ch ch')
    changed v t m m' ch ch' s s' skip h =
        let task = m.task_at t in
        let gid = (m.type_at task.type).gid in
        elim (if-cases (v == b'x') _ _ h) [
          | inl (hit, h) ↦
              let (m1, e, h1) =
                >>=-eq-ok (or_err change_failed (task_execute table dl stack (some t) 1 m)) _ h in
              let ((ch1, s1), e1, h2) = >>=-eq-ok (push_at cb ch_taskid task.id ch s) _ h1 in
              let ((ch2, s2), e2, h3) = >>=-eq-ok (push_at cb ch_label gid ch1 s1) _ h2 in
              let (id, label) = two_pushes task.id gid ch ch1 ch2 s s1 s2 skip e1 e2 in
              inl (
                ground arith,
                subst (λ f. IsOnTop m task f ch) (third h3)
                    (record { has_id = id; has_label = label }),
              )
          | inr (miss, h) ↦ elim (if-cases (v == b'e') _ _ h) [
            | inl (hit, h) ↦
                let (m1, e, h1) =
                  >>=-eq-ok (or_err change_failed (task_end table dl stack (some t) 1 m)) _ h in
                let ((ch1, s1), e1, h2) = >>=-eq-ok (pop_at cb ch_taskid task.id ch s) _ h1 in
                let ((ch2, s2), e2, h3) = >>=-eq-ok (pop_at cb ch_label gid ch1 s1) _ h2 in
                let (id, label) = two_pops task.id gid ch ch1 ch2 s s1 s2 e1 e2 in
                inr (
                  ground arith,
                  subst (λ f. IsOnTop m task ch f) (third h3)
                      (record { has_id = id; has_label = label }),
                )
            | inr (other, h) ↦ cc
          ]
        ]

    -- An execute or end event of openmp that is taken without an error is about a task that exists. On
    -- channels that do not skip duplicates, the execute event puts its identifier and the label of its type on top of the
    -- two channels of the thread, and the end event takes exactly these away.
    pub update_task_lem :
        (ev : EmuEv) (m m' : Tasks T L) (ch ch' : ℕ → Chan) (s s' : S)
        → ((j : ℕ) → (ch j).skips_dup ≡ false)
        → update_task cb table dl stack ev m ch s ≡ ok (m', ch', s')
        → (t : ℕ) × (task_find table m.tasks (le_value 4 ev.payload) ≡ some t)
          × (((ev.v ≡ b'x') × IsOnTop m (m.task_at t) ch' ch)
              ⊎ ((ev.v ≡ b'e') × IsOnTop m (m.task_at t) ch ch'))
    unfolding update_task
    update_task_lem ev m m' ch ch' s s' skip h =
        let (a, h1) = fail_if-eq-ok (ltb ev.payload_size 4) missing_payload _ h in
        let (b, h2) = fail_if-eq-ok (le_value 4 ev.payload == 0) zero_id _ h1 in
        go (task_find table m.tasks (le_value 4 ev.payload)) refl h2
      where
        go :
            (o : Option ℕ)
            → task_find table m.tasks (le_value 4 ev.payload) ≡ o
            → elim o [
              | none ↦ err no_such_task
              | some t ↦ change_task cb table dl stack ev.v t m ch s
            ]
              ≡ ok (m', ch', s')
            → (t : ℕ) × (task_find table m.tasks (le_value 4 ev.payload) ≡ some t)
              × (((ev.v ≡ b'x') × IsOnTop m (m.task_at t) ch' ch)
                  ⊎ ((ev.v ≡ b'e') × IsOnTop m (m.task_at t) ch ch'))
        go none e h = cc
        go (some t) e h = (t, e, changed ev.v t m m' ch ch' s s' skip h)
