-- ===== src/Task/Runs.antt =====
-- Runs of the operations of src/emu/task.c on a process and the stacks of its threads.
use ovni.Prelude.{
  ℕ, ◌<◌, ◌≡◌, refl, sym, ap, subst, ◌∙◌, true, false, Option, none, some, List, [], ◌∷◌, Result,
  ok, ◌>>=◌, or_err, arith, ◌⊎◌, inl, inr, eq-cases, Option-cases, >>=-eq-ok, or_err-eq-ok, ok_pair,
  ok_inj,
}
use ovni.Vendor.{
  LinkedList, IsLinkedList, HashTable, IsHashTable, update, update_at, update_other, Member,
}
use ovni.Body.{Body, running, relaxes_nesting, body_execute}
use ovni.Body.Wellformed.{IsWell, may_be_below, tail, on}
use ovni.Body.Execute.{execute-IsWell, execute-fresh}
use ovni.Task.{
  Task, Tasks, TaskError, create_body_failed, execute_failed, task_create, create_body,
  find_or_create, task_execute, task_pause, task_resume, task_end,
}
use ovni.Task.Invariant.{
  IsConsistent, create_body-IsConsistent, pause-IsConsistent, resume-IsConsistent, end-IsConsistent,
}

module _ {T : Type 0} (table : HashTable T) {L : Type 0} (dl : LinkedList L) where
  -- The events of a task, on the stack `s` of a thread: `t` is the pointer to the task.
  pub data TaskOp : Type 0 where
    create : (type_id id flags : ℕ) → TaskOp
    execute pause resume finish : (s : ℕ) (t : Option ℕ) (id : ℕ) → TaskOp

  unfoldable pub run : TaskOp → Tasks T L → Result TaskError (Tasks T L)
  run (create type_id id flags) m = task_create table type_id id flags m
  run (execute s t id) m = task_execute table dl s t id m
  run (pause s t id) m = task_pause table dl s t id m
  run (resume s t id) m = task_resume table dl s t id m
  run (finish s t id) m = task_end table dl s t id m

  unfoldable pub run_all : List TaskOp → Tasks T L → Result TaskError (Tasks T L)
  run_all [] m = ok m
  run_all (op ∷ ops) m = run op m >>= run_all ops

  module _ (hash : IsHashTable table) (law : IsLinkedList dl) where
    to_create :
        (t id : ℕ) (m : Tasks T L)
        → table.find_int (m.task_at t).body_info id ≡ none
        → find_or_create table t id m ≡ or_err create_body_failed (create_body table t id m)
    unfolding find_or_create
    to_create t id m e = rw (e, find_or_create)

    to_find :
        (t id p : ℕ) (m : Tasks T L)
        → table.find_int (m.task_at t).body_info id ≡ some p
        → find_or_create table t id m ≡ ok (p, m)
    unfolding find_or_create
    to_find t id p m e = rw (e, find_or_create)

    find_or_create-IsConsistent :
        (t id p : ℕ) (m m' : Tasks T L)
        → IsConsistent table dl m
        → find_or_create table t id m ≡ ok (p, m')
        → IsConsistent table dl m' × (p < m'.bodies.fresh)
    find_or_create-IsConsistent t id p m m' c h =
        elim (Option-cases (table.find_int (m.task_at t).body_info id)) [
          | inl e ↦
              create_body-IsConsistent table dl hash law t id p m m' c
                (or_err-eq-ok create_body_failed _ (sym (to_create t id m e) ∙ h))
          | inr (q, e) ↦
              let (same_p, same_m) = ok_pair (sym (to_find t id q m e) ∙ h) in
              subst (λ m. IsConsistent table dl m × (p < m.bodies.fresh)) (sym same_m)
                (c, c.allocated t id p (e ∙ ap some same_p))
        ]

    execute-IsConsistent :
        (s : ℕ) (t : Option ℕ) (id : ℕ) (m m' : Tasks T L)
        → IsConsistent table dl m
        → task_execute table dl s t id m ≡ ok m'
        → IsConsistent table dl m'
    unfolding task_execute
    execute-IsConsistent s none id m m' c h = cc
    execute-IsConsistent s (some t) id m m' c h =
        let ((p, m1), found, rest) = >>=-eq-ok (find_or_create table t id m) _ h in
        let (bodies, ran, same) =
          >>=-eq-ok (or_err execute_failed (body_execute dl s (some p) m1.bodies)) _ rest in
        let ran' = or_err-eq-ok execute_failed _ ran in
        let (c1, valid) = find_or_create-IsConsistent t id p m m1 c found in
        let e : m' ≡ record m1 { bodies = bodies } = sym (ok_inj same) in
        subst (IsConsistent table dl) (sym e) (record {
          bodies_well = execute-IsWell dl law m1.bodies bodies s p c1.bodies_well valid ran';
          allocated = λ u k q f.
              subst (λ n. q < n) (sym (execute-fresh dl law m1.bodies bodies s p ran'))
                (c1.allocated u k q f);
        })

    new_found :
        (f : ℕ → Task T) (n u k q : ℕ) (task : Task T)
        → task.body_info ≡ table.empty_table
        → table.find_int (update f n task u).body_info k ≡ some q
        → table.find_int (f u).body_info k ≡ some q
    new_found f n u k q task e h = elim (eq-cases u n) [
      | inl same ↦
          let nothing = hash.find-empty k in
          let here =
            ap (λ u. (update f n task u).body_info) same
            ∙ ap (λ t. t.body_info) (update_at f n task)
            ∙ e in
          let found = ap (λ i. table.find_int i k) here in cc
      | inr other ↦ sym (ap (λ t. table.find_int t.body_info k) (update_other f n task u other)) ∙ h
    ]

    create_same :
        (type_id id flags : ℕ) (m m' : Tasks T L)
        → task_create table type_id id flags m ≡ ok m'
        → (m'.bodies ≡ m.bodies)
          × (type : ℕ) × (m'.task_at
              ≡ update m.task_at m.next_task (record {
                id = id;
                type = type;
                nbodies = 0;
                body_info = table.empty_table;
                flags = flags;
              }))
    unfolding task_create
    create_same type_id id flags m m' h = elim (Option-cases (table.find_int m.types type_id)) [
      | inl e ↦ absurd (ground (arith, e, h))
      | inr (type, e) ↦ (ground (arith, e, h), type, ground (arith, e, h))
    ]

    create-IsConsistent :
        (type_id id flags : ℕ) (m m' : Tasks T L)
        → IsConsistent table dl m
        → task_create table type_id id flags m ≡ ok m'
        → IsConsistent table dl m'
    create-IsConsistent type_id id flags m m' c h =
        let (bodies, type, tasks) = create_same type_id id flags m m' h in
        record {
          bodies_well = subst (IsWell dl) (sym bodies) c.bodies_well;
          allocated = λ u k q f.
              subst (λ b. q < b.fresh) (sym bodies)
                (c.allocated u k q (
                  new_found m.task_at m.next_task u k q _ refl
                    (sym (ap (λ t. table.find_int (t u).body_info k) tasks) ∙ f)));
        }

    run-IsConsistent :
        (op : TaskOp) (m m' : Tasks T L)
        → IsConsistent table dl m
        → run op m ≡ ok m'
        → IsConsistent table dl m'
    unfolding run
    run-IsConsistent (create type_id id flags) m m' c h =
        create-IsConsistent type_id id flags m m' c h
    run-IsConsistent (execute s t id) m m' c h = execute-IsConsistent s t id m m' c h
    run-IsConsistent (pause s t id) m m' c h = pause-IsConsistent table dl hash law s t id m m' c h
    run-IsConsistent (resume s t id) m m' c h =
        resume-IsConsistent table dl hash law s t id m m' c h
    run-IsConsistent (finish s t id) m m' c h = end-IsConsistent table dl hash law s t id m m' c h

    -- However the operations on the tasks of a process go on, as long as they succeed: the bodies and
    -- the stacks stay well-formed.
    pub run_all-IsConsistent :
        (ops : List TaskOp) (m m' : Tasks T L)
        → IsConsistent table dl m
        → run_all ops m ≡ ok m'
        → IsConsistent table dl m'
    unfolding run_all
    run_all-IsConsistent [] m m' c h = subst (IsConsistent table dl) (ok_inj h) c
    run_all-IsConsistent (op ∷ ops) m m' c h =
        let (mid, first_run, rest) = >>=-eq-ok (run op m) (run_all ops) h in
        run_all-IsConsistent ops mid m' (run-IsConsistent op m mid c first_run) rest

    two_on :
        (l : List ℕ) (p q : ℕ)
        → Member p l
        → Member q l
        → (p ≡ q) ⊎ (Member p (tail l) ⊎ Member q (tail l))
    two_on [] p q h k = elim h [ ]
    two_on (x ∷ l) p q (inl e) (inl f) = inl (e ∙ sym f)
    two_on (x ∷ l) p q (inr h) k = inr (inl h)
    two_on (x ∷ l) p q (inl e) (inr k) = inr (inr k)

    not_below_running :
        (b : Body) → b.state ≡ running → relaxes_nesting b ≡ false → may_be_below b ≡ true → ⊥
    not_below_running b r n h = ground arith

    -- After any successful operations from a process that is consistent: two bodies that run on the
    -- same stack, and neither of which relaxes the nesting, are one body.
    pub one_running :
        (ops : List TaskOp) (m m' : Tasks T L) (s p q : ℕ)
        → IsConsistent table dl m
        → run_all ops m ≡ ok m'
        → (m'.bodies.at p).stack ≡ some s
        → (m'.bodies.at q).stack ≡ some s
        → (m'.bodies.at p).state ≡ running
        → (m'.bodies.at q).state ≡ running
        → relaxes_nesting (m'.bodies.at p) ≡ false
        → relaxes_nesting (m'.bodies.at q) ≡ false
        → p ≡ q
    one_running ops m m' s p q c h on_p on_q run_p run_q strict_p strict_q =
        let w = (run_all-IsConsistent ops m m' c h).bodies_well in
        elim (two_on (on dl m'.bodies s) p q (w.stack_has p s on_p) (w.stack_has q s on_q)) [
          | inl e ↦ e
          | inr (inl k) ↦ absurd (not_below_running (m'.bodies.at p) run_p strict_p (w.below s p k))
          | inr (inr k) ↦ absurd (not_below_running (m'.bodies.at q) run_q strict_q (w.below s q k))
        ]
