-- ===== src/Body.antt =====
-- src/emu/body.c: the bodies of a task, which run, pause and end on the stack of a thread.
pub mod Wellformed
pub mod Invariant
pub mod Start
pub mod Execute
pub mod End
pub mod Create
pub mod Transitions
use ovni.Prelude.{
  ℕ, ◌+◌, ◌/◌, ◌%◌, ◌≡◌, Bool, true, false, not, ◌&&◌, ◌||◌, Option, none, some, if◌then◌else◌,
  ◌==◌, Result, ok, err, ◌>>=◌, ◌>>◌, fail_if, or_err, is_none,
}
use ovni.Vendor.{LinkedList, HashTable, update}

pub data BodyState : Type 0 where
  created running paused dead : BodyState

-- `struct body`, without its name; `stack` and `task` are pointers.
pub record Body : Type 0 where
  pub id : ℕ
  pub flags : ℕ
  pub state : BodyState
  pub stack : Option ℕ
  pub iteration : ℕ
  pub task : ℕ

-- BODY_FLAG_PAUSE, BODY_FLAG_RESURRECT and BODY_FLAG_RELAX_NESTING.
abbrev pub body_can_pause : Body → Bool
body_can_pause b = b.flags % 2 == 1

abbrev pub body_can_resurrect : Body → Bool
body_can_resurrect b = b.flags / 2 % 2 == 1

abbrev pub relaxes_nesting : Body → Bool
relaxes_nesting b = b.flags / 4 % 2 == 1

abbrev pub is_created : BodyState → Bool
is_created created = true
is_created _ = false

abbrev pub is_running : BodyState → Bool
is_running running = true
is_running _ = false

abbrev pub is_paused : BodyState → Bool
is_paused paused = true
is_paused _ = false

abbrev pub is_dead : BodyState → Bool
is_dead dead = true
is_dead _ = false

pub data BodyError : Type 0 where
  null_body null_task zero_id already_exists : BodyError
  cannot_run_again is_in_pause wrong_state stack_already_set cannot_nest : BodyError
  cannot_pause stack_not_set another_stack not_on_top : BodyError

-- The bodies by their address, the stacks by theirs, and the address that the next `calloc` returns.
pub record Bodies (L : Type 0) : Type 0 where
  pub at : ℕ → Body
  pub stacks : ℕ → L
  pub fresh : ℕ

abbrev pub is_ptr : Option ℕ → ℕ → Bool
is_ptr none p = false
is_ptr (some q) p = q == p

module _ {T : Type 0} (table : HashTable T) where
  abbrev pub body_find : T → ℕ → Option ℕ
  body_find info id = table.find_int info id

  -- The table of the task and the memory, and the new body. (`calloc` is taken to succeed.)
  unfoldable pub body_create :
      {L : Type 0} → T → Option ℕ → ℕ → ℕ → Bodies L → Result BodyError (ℕ × T × Bodies L)
  body_create info task id flags m = do
    fail_if (id == 0) zero_id
    fail_if (not (is_none (body_find info id))) already_exists
    elim task [
      | none ↦ err null_task
      | some t ↦ ok (
        m.fresh,
        table.add_int id m.fresh info,
        record m {
          at = update m.at m.fresh (record {
            id = id;
            flags = flags;
            state = created;
            stack = none;
            iteration = 0;
            task = t;
          });
          fresh = m.fresh + 1;
        },
      )
    ]

module _ {L : Type 0} where
  -- A dead body that may run again is created anew.
  unfoldable pub revive : ℕ → Bodies L → Result BodyError (Bodies L)
  revive p m =
      let b = m.at p in
      if is_dead b.state
      then (if body_can_resurrect b
          then ok (record m {
            at = update m.at p (record b { state = created; iteration = b.iteration + 1 });
          })
          else err cannot_run_again)
      else ok m

  -- The running body on top of the stack allows another one above it.
  unfoldable pub check_nesting : Bodies L → Option ℕ → Result BodyError (Unit {0})
  check_nesting m none = ok tt
  check_nesting m (some top) = fail_if (not (relaxes_nesting (m.at top))) cannot_nest

  unfoldable pub set_state : ℕ → BodyState → Bodies L → Bodies L
  set_state p state m = record m { at = update m.at p (record (m.at p) { state = state }) }

module _ {L : Type 0} (dl : LinkedList L) where
  abbrev pub body_get_top : Bodies L → ℕ → Option ℕ
  body_get_top m s = dl.head (m.stacks s)

  unfoldable pub body_get_running : Bodies L → ℕ → Option ℕ
  body_get_running m s = elim (body_get_top m s) [
    | none ↦ none
    | some p ↦ if is_running (m.at p).state then some p else none
  ]

  unfoldable pub start : ℕ → ℕ → Bodies L → Bodies L
  start s p m = record m {
    at = update m.at p (record (m.at p) { stack = some s; state = running });
    stacks = update m.stacks s (dl.prepend p (m.stacks s));
  }

  unfoldable pub body_execute : ℕ → Option ℕ → Bodies L → Result BodyError (Bodies L)
  body_execute s none m = err null_body
  body_execute s (some p) m = do
    m1 ← revive p m
    fail_if (is_paused (m1.at p).state) is_in_pause
    fail_if (not (is_created (m1.at p).state)) wrong_state
    fail_if (not (is_none (m1.at p).stack)) stack_already_set
    check_nesting m1 (body_get_running m1 s)
    ok (start s p m1)

  -- The three tests that pause, resume and end share.
  unfoldable pub check_top : ℕ → ℕ → Bodies L → Result BodyError (Unit {0})
  check_top s p m = do
    fail_if (is_none (m.at p).stack) stack_not_set
    fail_if (not (is_ptr (m.at p).stack s)) another_stack
    fail_if (not (is_ptr (body_get_top m s) p)) not_on_top

  unfoldable pub body_pause : ℕ → Option ℕ → Bodies L → Result BodyError (Bodies L)
  body_pause s none m = err null_body
  body_pause s (some p) m = do
    fail_if (not (body_can_pause (m.at p))) cannot_pause
    fail_if (not (is_running (m.at p).state)) wrong_state
    check_top s p m
    ok (set_state p paused m)

  unfoldable pub body_resume : ℕ → Option ℕ → Bodies L → Result BodyError (Bodies L)
  body_resume s none m = err null_body
  body_resume s (some p) m = do
    fail_if (not (is_paused (m.at p).state)) wrong_state
    check_top s p m
    ok (set_state p running m)

  unfoldable pub finish : ℕ → ℕ → Bodies L → Bodies L
  finish s p m = record m {
    at = update m.at p (record (m.at p) { state = dead; stack = none });
    stacks = update m.stacks s (dl.delete p (m.stacks s));
  }

  unfoldable pub body_end : ℕ → Option ℕ → Bodies L → Result BodyError (Bodies L)
  body_end s none m = err null_body
  body_end s (some p) m = do
    fail_if (not (is_running (m.at p).state)) wrong_state
    check_top s p m
    ok (finish s p m)
