-- ===== src/Body/Wellformed.antt =====
-- The invariant of the bodies and of the stacks of src/emu/body.c, and what each operation does where it
-- succeeds.
use ovni.Prelude.{
  ℕ, ◌+◌, ◌≤◌, ◌≡◌, ◌≢◌, Bool, true, false, not, ◌||◌, none, some, List, [], ◌∷◌, ok, arith, ◌⊎◌,
  is_none, >>=-eq-ok, fail_if, ◌>>◌,
}
use ovni.Vendor.{LinkedList, update, Member, Distinct}
use ovni.Body.{
  Body, Bodies, BodyState, is_in_pause, wrong_state, stack_already_set, created, running, paused,
  dead, is_created, is_paused, relaxes_nesting, body_can_resurrect, body_can_pause, body_get_top,
  body_get_running, revive, check_nesting, check_top, start, set_state, finish, body_execute,
  body_pause, body_resume, body_end,
}

-- Running or paused.
abbrev pub is_active : BodyState → Bool
is_active created = false
is_active running = true
is_active paused = true
is_active dead = false

-- A body that another one may be above.
abbrev pub may_be_below : Body → Bool
may_be_below b = is_paused b.state || relaxes_nesting b

abbrev pub tail : List ℕ → List ℕ
tail [] = []
tail (p ∷ ps) = ps

module _ {L : Type 0} (dl : LinkedList L) where
  abbrev pub on : Bodies L → ℕ → List ℕ
  on m s = dl.elems (m.stacks s)

  -- A body has a stack exactly while it runs or is paused, is on that stack once and on no other, and
  -- below the top of a stack no body runs, unless it relaxes the nesting.
  pub record IsWell (m : Bodies L) : Type 0 where
    pub active_on_stack : (p : ℕ) → is_active (m.at p).state ≡ not (is_none (m.at p).stack)
    pub stack_has : (p s : ℕ) → (m.at p).stack ≡ some s → Member p (on m s)
    pub has_stack : (p s : ℕ) → Member p (on m s) → (m.at p).stack ≡ some s
    pub once : (s : ℕ) → Distinct (on m s)
    pub below : (s p : ℕ) → Member p (tail (on m s)) → may_be_below (m.at p) ≡ true
    pub not_yet : (p : ℕ) → m.fresh ≤ p → (m.at p).stack ≡ none

  pub pause_inv :
      (s p : ℕ) (m m' : Bodies L)
      → body_pause dl s (some p) m ≡ ok m'
      → (m' ≡ set_state p paused m)
        × ((m.at p).state ≡ running)
        × ((m.at p).stack ≡ some s)
        × (body_get_top dl m s ≡ some p)
        × (body_can_pause (m.at p) ≡ true)
  unfolding body_pause check_top
  pause_inv s p m m' h = ground arith

  pub resume_inv :
      (s p : ℕ) (m m' : Bodies L)
      → body_resume dl s (some p) m ≡ ok m'
      → (m' ≡ set_state p running m)
        × ((m.at p).state ≡ paused)
        × ((m.at p).stack ≡ some s)
        × (body_get_top dl m s ≡ some p)
  unfolding body_resume check_top
  resume_inv s p m m' h = ground arith

  pub end_inv :
      (s p : ℕ) (m m' : Bodies L)
      → body_end dl s (some p) m ≡ ok m'
      → (m' ≡ finish dl s p m)
        × ((m.at p).state ≡ running)
        × ((m.at p).stack ≡ some s)
        × (body_get_top dl m s ≡ some p)
  unfolding body_end check_top
  end_inv s p m m' h = ground arith

  pub revive_inv :
      (p : ℕ) (m m' : Bodies L)
      → revive p m ≡ ok m'
      → (m' ≡ m × ((m.at p).state ≢ dead))
        ⊎ ((m' ≡ record m {
          at =
              update m.at p
                (record (m.at p) { state = created; iteration = (m.at p).iteration + 1 });
        })
            × ((m.at p).state ≡ dead)
            × (body_can_resurrect (m.at p) ≡ true))
  unfolding revive
  revive_inv p m m' h = ground arith

  start_inv :
      (s p : ℕ) (mid m' : Bodies L)
      → (do
        fail_if (is_paused (mid.at p).state) is_in_pause
        fail_if (not (is_created (mid.at p).state)) wrong_state
        fail_if (not (is_none (mid.at p).stack)) stack_already_set
        check_nesting mid (body_get_running dl mid s)
        ok (start dl s p mid))
        ≡ ok m'
      → (m' ≡ start dl s p mid)
        × ((mid.at p).state ≡ created)
        × ((mid.at p).stack ≡ none)
        × (check_nesting mid (body_get_running dl mid s) ≡ ok tt)
  start_inv s p mid m' h = ground arith

  pub execute_inv :
      (s p : ℕ) (m m' : Bodies L)
      → body_execute dl s (some p) m ≡ ok m'
      → (mid : Bodies L) × (revive p m ≡ ok mid)
        × (m' ≡ start dl s p mid)
        × ((mid.at p).state ≡ created)
        × ((mid.at p).stack ≡ none)
        × (check_nesting mid (body_get_running dl mid s) ≡ ok tt)
  unfolding body_execute
  execute_inv s p m m' h =
      let (mid, first_step, rest) = >>=-eq-ok (revive p m) _ h in
      let (same, c, n, k) = start_inv s p mid m' rest in (mid, first_step, same, c, n, k)
