-- ===== src/Body/Transitions.antt =====
-- The operations of src/emu/body.c as transitions of one body.
use ovni.Prelude.{
  ℕ, ◌+◌, ◌≡◌, ◌≢◌, sym, ap, subst, ◌∙◌, true, Option, none, some, Result, ok, arith, inl, inr,
  eq-cases,
}
use ovni.Vendor.{LinkedList, update_at, update_other}
use ovni.Body.{
  Body, Bodies, BodyError, created, running, paused, dead, body_can_resurrect, body_can_pause,
  body_get_top, start, set_state, finish, check_top, body_execute, body_pause, body_resume,
  body_end,
}
use ovni.Body.Wellformed.{pause_inv, resume_inv, end_inv, revive_inv, execute_inv}

-- Created, Running, Paused and Dead, and the ways between them, on the stack `s`.
pub data Moves (s : ℕ) : Body → Body → Type 0 where
  executes :
      (b : Body)
      → b.state ≡ created
      → b.stack ≡ none
      → Moves s b (record b { state = running; stack = some s })
  executes_again :
      (b : Body)
      → b.state ≡ dead
      → body_can_resurrect b ≡ true
      → b.stack ≡ none
      → Moves s b (record b { state = running; stack = some s; iteration = b.iteration + 1 })
  pauses :
      (b : Body)
      → b.state ≡ running
      → b.stack ≡ some s
      → body_can_pause b ≡ true
      → Moves s b (record b { state = paused })
  resumes :
      (b : Body) → b.state ≡ paused → b.stack ≡ some s → Moves s b (record b { state = running })
  ends :
      (b : Body)
      → b.state ≡ running
      → b.stack ≡ some s
      → Moves s b (record b { state = dead; stack = none })

pub data BodyOp : Type 0 where
  execute pause resume finishes : BodyOp

module _ {L : Type 0} (dl : LinkedList L) where
  unfoldable pub step : BodyOp → ℕ → Option ℕ → Bodies L → Result BodyError (Bodies L)
  step execute s p m = body_execute dl s p m
  step pause s p m = body_pause dl s p m
  step resume s p m = body_resume dl s p m
  step finishes s p m = body_end dl s p m

  execute-Moves :
      (s p : ℕ) (m m' : Bodies L)
      → body_execute dl s (some p) m ≡ ok m'
      → Moves s (m.at p) (m'.at p) × ((q : ℕ) → q ≢ p → m'.at q ≡ m.at q)
  unfolding start
  execute-Moves s p m m' r =
      let (mid, first_step, same, c, n, k) = execute_inv dl s p m m' r in
      let here : m'.at p ≡ record (mid.at p) { state = running; stack = some s } =
        ap (λ m. m.at p) same ∙ update_at mid.at p _ in
      elim (revive_inv dl p m mid first_step) [
        | inl (e, alive) ↦
            let before : mid.at p ≡ m.at p = ap (λ m. m.at p) e in
            (
              subst (Moves s (m.at p))
                  (sym (
                    here
                    ∙ ap {A = Body} (λ b. record b { state = running; stack = some s }) before))
                  (executes (m.at p) (sym (ap (λ b. b.state) before) ∙ c)
                    (sym (ap (λ b. b.stack) before) ∙ n)),
              λ q o. ap (λ m. m.at q) same ∙ update_other mid.at p _ q o ∙ ap (λ m. m.at q) e,
            )
        | inr (e, d, can) ↦
            let before : mid.at p
                ≡ record (m.at p) { state = created; iteration = (m.at p).iteration + 1 } =
              ap (λ m. m.at p) e ∙ update_at m.at p _ in
            (
              subst (Moves s (m.at p))
                  (sym (
                    here
                    ∙ ap {A = Body} (λ b. record b { state = running; stack = some s }) before))
                  (executes_again (m.at p) d can (sym (ap (λ b. b.stack) before) ∙ n)),
              λ q o.
                  ap (λ m. m.at q) same
                  ∙ update_other mid.at p _ q o
                  ∙ ap (λ m. m.at q) e
                  ∙ update_other m.at p _ q o,
            )
      ]

  -- An operation that succeeds takes its body along the state machine, and changes no other body.
  pub step-Moves :
      (op : BodyOp) (s p : ℕ) (m m' : Bodies L)
      → step op s (some p) m ≡ ok m'
      → Moves s (m.at p) (m'.at p) × ((q : ℕ) → q ≢ p → m'.at q ≡ m.at q)
  unfolding step set_state finish
  step-Moves execute s p m m' r = execute-Moves s p m m' r
  step-Moves pause s p m m' r =
      let (e, a, on_s, h, can) = pause_inv dl s p m m' r in
      (
        subst (Moves s (m.at p)) (sym (ap (λ m. m.at p) e ∙ update_at m.at p _))
            (pauses (m.at p) a on_s can),
        λ q n. ap (λ m. m.at q) e ∙ update_other m.at p _ q n,
      )
  step-Moves resume s p m m' r =
      let (e, a, on_s, h) = resume_inv dl s p m m' r in
      (
        subst (Moves s (m.at p)) (sym (ap (λ m. m.at p) e ∙ update_at m.at p _))
            (resumes (m.at p) a on_s),
        λ q n. ap (λ m. m.at q) e ∙ update_other m.at p _ q n,
      )
  step-Moves finishes s p m m' r =
      let (e, a, on_s, h) = end_inv dl s p m m' r in
      (
        subst (Moves s (m.at p)) (sym (ap (λ m. m.at p) e ∙ update_at m.at p _))
            (ends (m.at p) a on_s),
        λ q n. ap (λ m. m.at q) e ∙ update_other m.at p _ q n,
      )

  resume_runs :
      (s p : ℕ) (m : Bodies L)
      → (m.at p).state ≡ paused
      → (m.at p).stack ≡ some s
      → body_get_top dl m s ≡ some p
      → body_resume dl s (some p) m ≡ ok (set_state p running m)
  unfolding body_resume check_top
  resume_runs s p m a on_s h = ground arith

  -- A body that was paused can be resumed at once, and then every body is as before the pause and
  -- every stack as well.
  pub resume-pause :
      (s p : ℕ) (m m' : Bodies L)
      → body_pause dl s (some p) m ≡ ok m'
      → (m'' : Bodies L) × (body_resume dl s (some p) m' ≡ ok m'')
        × ((q : ℕ) → m''.at q ≡ m.at q)
        × (m''.stacks ≡ m.stacks)
  unfolding set_state
  resume-pause s p m m' r =
      let (e, a, on_s, h, can) = pause_inv dl s p m m' r in
      let here : m'.at p ≡ record (m.at p) { state = paused } =
        ap (λ m. m.at p) e ∙ update_at m.at p _ in
      (
        set_state p running m',
        resume_runs s p m' (ap (λ b. b.state) here) (ap (λ b. b.stack) here ∙ on_s)
            (ap (λ m. dl.head (m.stacks s)) e ∙ h),
        λ q. elim (eq-cases q p) [
          | inl i ↦
              ap (set_state p running m').at i
              ∙ update_at m'.at p _
              ∙ ap {A = Body} (λ b. record b { state = running }) here
              ∙ ap (λ x. record (m.at p) { state = x }) (sym a)
              ∙ ap m.at (sym i)
          | inr o ↦ update_other m'.at p _ q o ∙ ap (λ m. m.at q) e ∙ update_other m.at p _ q o
        ],
        ap (λ m. m.stacks) e,
      )
