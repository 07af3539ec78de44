-- ===== src/Task/Invariant.antt =====
-- The operations of src/emu/task.c on a whole process: what holds of the bodies after any of them.
use ovni.Prelude.{
  ℕ, ◌+◌, ◌<◌, ◌≡◌, sym, ap, subst, ◌∙◌, false, not, Option, none, some, Result, ok, ◌>>=◌, or_err,
  arith, ◌⊎◌, inl, inr, eq-cases, Option-cases, >>=-eq-ok, or_err-eq-ok, fail_if-eq-ok, ok_pair,
  ◌&&◌, ltb,
}
use ovni.Vendor.{LinkedList, IsLinkedList, HashTable, IsHashTable, update, update_at, update_other}
use ovni.Body.{Bodies, body_create, body_pause, body_resume, body_end}
use ovni.Body.Wellformed.{IsWell}
use ovni.Body.Invariant.{pause-IsWell, resume-IsWell, pause-fresh, resume-fresh}
use ovni.Body.End.{end-IsWell, end-fresh}
use ovni.Body.Create.{create_inv, create-IsWell}
use ovni.Task.{
  Task, Tasks, TaskError, one_body_only, body_create_failed, body_flags, task_is_parallel,
  pause_failed, resume_failed, end_failed, create_body, on_body, task_pause, task_resume, task_end,
}

module _ {T : Type 0} (table : HashTable T) {L : Type 0} (dl : LinkedList L) where
  -- The bodies are well-formed, and each body that a task finds is allocated.
  pub record IsConsistent (m : Tasks T L) : Type 0 where
    pub bodies_well : IsWell dl m.bodies
    pub allocated :
        (t id p : ℕ) → table.find_int (m.task_at t).body_info id ≡ some p → p < m.bodies.fresh

  module _ (hash : IsHashTable table) (law : IsLinkedList dl) where
    on_body_found :
        (step : Option ℕ → Bodies L → Result TaskError (Bodies L)) (t id p : ℕ) (m : Tasks T L)
        → table.find_int (m.task_at t).body_info id ≡ some p
        → on_body table step (some t) id m
          ≡ (step (some p) m.bodies >>= λ bodies. ok (record m { bodies = bodies }))
    unfolding on_body
    on_body_found step t id p m e = rw (e, on_body)

    on_body_inv :
        (step : Option ℕ → Bodies L → Result TaskError (Bodies L)) (t : Option ℕ) (id : ℕ)
        (m m' : Tasks T L)
        → on_body table step t id m ≡ ok m'
        → (p : ℕ) × (bodies : Bodies L) × (step (some p) m.bodies ≡ ok bodies)
          × (m' ≡ record m { bodies = bodies })
    on_body_inv step none id m m' h = unfold on_body in cc
    on_body_inv step (some t) id m m' h =
        elim (Option-cases (table.find_int (m.task_at t).body_info id)) [
          | inl e ↦ absurd (unfold on_body in ground (arith, e, h))
          | inr (p, e) ↦
              let (bodies, r, same) =
                >>=-eq-ok (step (some p) m.bodies) (λ bodies. ok (record m { bodies = bodies }))
                  (sym (on_body_found step t id p m e) ∙ h) in
              (p, bodies, r, cc)
        ]

    -- An operation on one body that keeps the bodies well-formed and allocates none.
    on_body-IsConsistent :
        (step : Option ℕ → Bodies L → Result TaskError (Bodies L)) (t : Option ℕ) (id : ℕ)
        (m m' : Tasks T L)
        → ((p : ℕ) (b : Bodies L)
            → step (some p) m.bodies ≡ ok b
            → IsWell dl b × (b.fresh ≡ m.bodies.fresh))
        → IsConsistent m
        → on_body table step t id m ≡ ok m'
        → IsConsistent m'
    on_body-IsConsistent step t id m m' keeps c h =
        let (p, bodies, r, same) = on_body_inv step t id m m' h in
        let (w, f) = keeps p bodies r in
        subst IsConsistent (sym same) (record {
          bodies_well = w;
          allocated = λ t id p e. subst (λ n. p < n) (sym f) (c.allocated t id p e);
        })

    pub pause-IsConsistent :
        (s : ℕ) (t : Option ℕ) (id : ℕ) (m m' : Tasks T L)
        → IsConsistent m
        → task_pause table dl s t id m ≡ ok m'
        → IsConsistent m'
    unfolding task_pause
    pause-IsConsistent s t id m m' c h =
        on_body-IsConsistent (λ b bodies. or_err pause_failed (body_pause dl s b bodies)) t id m m'
          (λ p b r.
            let r' = or_err-eq-ok pause_failed (body_pause dl s (some p) m.bodies) r in
            (
              pause-IsWell dl law m.bodies b s p c.bodies_well r',
              pause-fresh dl law m.bodies b s p r',
            ))
          c h

    pub resume-IsConsistent :
        (s : ℕ) (t : Option ℕ) (id : ℕ) (m m' : Tasks T L)
        → IsConsistent m
        → task_resume table dl s t id m ≡ ok m'
        → IsConsistent m'
    unfolding task_resume
    resume-IsConsistent s t id m m' c h =
        on_body-IsConsistent (λ b bodies. or_err resume_failed (body_resume dl s b bodies)) t id m
          m'
          (λ p b r.
            let r' = or_err-eq-ok resume_failed (body_resume dl s (some p) m.bodies) r in
            (
              resume-IsWell dl law m.bodies b s p c.bodies_well r',
              resume-fresh dl law m.bodies b s p r',
            ))
          c h

    pub end-IsConsistent :
        (s : ℕ) (t : Option ℕ) (id : ℕ) (m m' : Tasks T L)
        → IsConsistent m
        → task_end table dl s t id m ≡ ok m'
        → IsConsistent m'
    unfolding task_end
    end-IsConsistent s t id m m' c h =
        on_body-IsConsistent (λ b bodies. or_err end_failed (body_end dl s b bodies)) t id m m'
          (λ p b r.
            let r' = or_err-eq-ok end_failed (body_end dl s (some p) m.bodies) r in
            (end-IsWell dl law m.bodies b s p c.bodies_well r', end-fresh dl law m.bodies b s p r'))
          c h

    abbrev grown_task : Task T → T → Task T
    grown_task task info = record task { body_info = info; nbodies = task.nbodies + 1 }

    create_body_inv :
        (t id p : ℕ) (m m' : Tasks T L)
        → create_body table t id m ≡ ok (p, m')
        → (info : T) × (bodies : Bodies L) × (body_create table
              (m.task_at t).body_info
              (some t)
              id
              (body_flags (m.task_at t).flags)
              m.bodies
            ≡ ok (p, info, bodies))
          × (m' ≡ record m {
            task_at = update m.task_at t (grown_task (m.task_at t) info);
            bodies = bodies;
          })
          × (not (task_is_parallel (m.task_at t)) && ltb 0 (m.task_at t).nbodies ≡ false)
    unfolding create_body
    create_body_inv t id p m m' h =
        let (one, rest) = fail_if-eq-ok _ one_body_only _ h in
        let ((q, info, bodies), made, same) =
          >>=-eq-ok
            (or_err body_create_failed (
              body_create table (m.task_at t).body_info (some t) id (body_flags (m.task_at t).flags)
                m.bodies))
            _ rest in
        let made' = or_err-eq-ok body_create_failed _ made in
        let (same_p, same_m) = ok_pair same in
        (info, bodies, made' ∙ ap (λ q. ok (q, info, bodies)) same_p, same_m, one)

    -- The table of the task after the new body.
    found_before :
        (info : T) (id k p n : ℕ)
        → table.find_int info id ≡ none
        → table.find_int (table.add_int id n info) k ≡ some p
        → (p ≡ n) ⊎ (table.find_int info k ≡ some p)
    found_before info id k p n new e = elim (eq-cases k id) [
      | inl same ↦
          let found = subst (λ k. table.find_int (table.add_int id n info) k ≡ some p) same e in
          let added = hash.find-add info id n new in inl cc
      | inr other ↦ inr (sym (hash.find-add_other info id k n new other) ∙ e)
    ]

    pub create_body-IsConsistent :
        (t id p : ℕ) (m m' : Tasks T L)
        → IsConsistent m
        → create_body table t id m ≡ ok (p, m')
        → IsConsistent m' × (p < m'.bodies.fresh)
    create_body-IsConsistent t id p m m' c h =
        let (info, bodies, r, same, one) = create_body_inv t id p m m' h in
        let (at_fresh, added, e, new) = create_inv table dl _ info t p id _ m.bodies bodies r in
        let grown : bodies.fresh ≡ m.bodies.fresh + 1 = ap (λ b. b.fresh) e in
        subst (λ m. IsConsistent m × (p < m.bodies.fresh)) (sym same)
          (
            record {
              bodies_well =
                  create-IsWell table dl law _ info t p id _ m.bodies bodies c.bodies_well r;
              allocated = λ u k q f. elim (eq-cases u t) [
                | inl i ↦
                    let here : (update m.task_at t (grown_task (m.task_at t) info) u).body_info
                        ≡ table.add_int id m.bodies.fresh (m.task_at t).body_info =
                      ap (λ u. (update m.task_at t (grown_task (m.task_at t) info) u).body_info) i
                      ∙ ap (λ t. t.body_info) (update_at m.task_at t _)
                      ∙ added in
                    elim (found_before (m.task_at t).body_info id k q m.bodies.fresh new
                      (sym (ap (λ i. table.find_int i k) here) ∙ f)) [
                        | inl is_new ↦ omega (arith, is_new, grown)
                        | inr old ↦ omega (arith, c.allocated t k q old, grown)
                      ]
                | inr o ↦ omega (
                  arith,
                  grown,
                  c.allocated u k q (
                      sym (ap (λ t. table.find_int t.body_info k) (update_other m.task_at t _ u o))
                      ∙ f),
                )
              ];
            },
            omega (arith, at_fresh, grown),
          )
