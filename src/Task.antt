-- ===== src/Task.antt =====
-- src/emu/task.c: the tasks of a process, their types, and the bodies that run them.
pub mod Invariant
pub mod Runs
mod Tests
use ovni.Prelude.{
  ℕ, ◌+◌, ◌*◌, ◌/◌, ◌%◌, ◌^◌, ◌≡◌, Bool, true, false, not, ◌&&◌, Option, none, some, List, [], ◌∷◌,
  length, if◌then◌else◌, ltb, leb, ◌==◌, Result, ok, err, ◌>>=◌, ◌>>◌, fail_if, or_err, is_none,
}
use ovni.Vendor.{LinkedList, HashTable, update}
use ovni.Body.{
  Bodies, Body, body_find, body_create, body_execute, body_pause, body_resume, body_end,
}

pub record TaskType : Type 0 where
  pub id : ℕ
  pub gid : ℕ
  pub label : List ℕ

pub record Task (T : Type 0) : Type 0 where
  pub id : ℕ
  pub type : ℕ
  pub nbodies : ℕ
  pub body_info : T
  pub flags : ℕ

-- TASK_FLAG_PARALLEL, TASK_FLAG_RESURRECT, TASK_FLAG_PAUSE and TASK_FLAG_RELAX_NESTING.
abbrev pub task_is_parallel : {T : Type 0} → Task T → Bool
task_is_parallel task = task.flags % 2 == 1

abbrev pub may_resurrect : ℕ → Bool
may_resurrect flags = flags / 2 % 2 == 1

abbrev pub may_pause : ℕ → Bool
may_pause flags = flags / 4 % 2 == 1

abbrev pub may_relax : ℕ → Bool
may_relax flags = flags / 8 % 2 == 1

pub data TaskError : Type 0 where
  task_exists unknown_type null_task one_body_only body_create_failed : TaskError
  create_body_failed no_such_body : TaskError
  execute_failed pause_failed resume_failed end_failed : TaskError
  type_exists invalid_type_id label_too_long : TaskError

-- `struct task_info`, the tasks and types by their address, the bodies and the stacks of the threads.
-- The address of the next task and of the next type stand beside them.
pub record Tasks (T L : Type 0) : Type 0 where
  pub tasks : T
  pub types : T
  pub task_at : ℕ → Task T
  pub type_at : ℕ → TaskType
  pub next_task : ℕ
  pub next_type : ℕ
  pub bodies : Bodies L

-- MAX_PCF_LABEL and PCF_RESERVED.
abbrev pub max_pcf_label : ℕ
max_pcf_label = 512

abbrev pub pcf_reserved : ℕ
pcf_reserved = 1000

-- The flags of a body from those of its task.
unfoldable pub body_flags : ℕ → ℕ
body_flags flags =
    (if may_relax flags then 4 else 0)
    + (if may_resurrect flags then 2 else 0)
    + (if may_pause flags then 1 else 0)

-- `HASH_VALUE` and the text of `snprintf` for a type without a label are parameters.
module _ (hash_value : List ℕ → ℕ) (unlabeled : ℕ → List ℕ) where
  unfoldable pub task_get_type_gid : List ℕ → ℕ
  task_get_type_gid label =
      let gid = (hash_value label + 666) % 2 ^ 32 % 2 ^ 31 in
      if ltb gid pcf_reserved then gid + pcf_reserved else gid

  abbrev pub type_label : ℕ → List ℕ → List ℕ
  type_label id [] = unlabeled id
  type_label id (c ∷ label) = c ∷ label

  unfoldable pub task_type_create :
      {T L : Type 0} → HashTable T → ℕ → List ℕ → Tasks T L → Result TaskError (Tasks T L)
  unfolding task_get_type_gid
  task_type_create table id label m = do
    fail_if (not (is_none (table.find_int m.types id))) type_exists
    fail_if (id == 0) invalid_type_id
    let text = type_label id label
    fail_if (leb max_pcf_label (length text)) label_too_long
    ok (record m {
      types = table.add_int id m.next_type m.types;
      type_at =
          update m.type_at m.next_type
            (record { id = id; gid = task_get_type_gid text; label = text });
      next_type = m.next_type + 1;
    })

module _ {T : Type 0} (table : HashTable T) where
  abbrev pub task_find : T → ℕ → Option ℕ
  task_find tasks id = table.find_int tasks id

  abbrev pub task_type_find : T → ℕ → Option ℕ
  task_type_find types id = table.find_int types id

module _ {T : Type 0} (table : HashTable T) {L : Type 0} where
  unfoldable pub task_create : ℕ → ℕ → ℕ → Tasks T L → Result TaskError (Tasks T L)
  task_create type_id id flags m = do
    fail_if (not (is_none (task_find table m.tasks id))) task_exists
    elim (task_type_find table m.types type_id) [
      | none ↦ err unknown_type
      | some type ↦ ok (record m {
        tasks = table.add_int id m.next_task m.tasks;
        task_at = update m.task_at m.next_task (record {
          id = id;
          type = type;
          nbodies = 0;
          body_info = table.empty_table;
          flags = flags;
        });
        next_task = m.next_task + 1;
      })
    ]

  -- The new body and the memory, for the task at `t`.
  unfoldable pub create_body : ℕ → ℕ → Tasks T L → Result TaskError (ℕ × Tasks T L)
  unfolding body_flags
  create_body t id m = do
    let task = m.task_at t
    fail_if (not (task_is_parallel task) && ltb 0 task.nbodies) one_body_only
    (p, info, bodies) ←
        or_err body_create_failed
          (body_create table task.body_info (some t) id (body_flags task.flags) m.bodies)
    ok (
      p,
      record m {
        task_at = update m.task_at t (record task { body_info = info; nbodies = task.nbodies + 1 });
        bodies = bodies;
      },
    )

  unfoldable pub find_or_create : ℕ → ℕ → Tasks T L → Result TaskError (ℕ × Tasks T L)
  find_or_create t id m = elim (body_find table (m.task_at t).body_info id) [
    | none ↦ or_err create_body_failed (create_body t id m)
    | some p ↦ ok (p, m)
  ]

  -- What pause, resume and end share: find the body, and run the operation on it.
  unfoldable pub on_body :
      (Option ℕ → Bodies L → Result TaskError (Bodies L))
      → Option ℕ
      → ℕ
      → Tasks T L
      → Result TaskError (Tasks T L)
  on_body run none id m = err null_task
  on_body run (some t) id m = elim (body_find table (m.task_at t).body_info id) [
    | none ↦ err no_such_body
    | some p ↦ run (some p) m.bodies >>= λ bodies. ok (record m { bodies = bodies })
  ]

  module _ (dl : LinkedList L) where
    unfoldable pub task_execute : ℕ → Option ℕ → ℕ → Tasks T L → Result TaskError (Tasks T L)
    task_execute s none id m = err null_task
    task_execute s (some t) id m = do
      (p, m1) ← find_or_create t id m
      bodies ← or_err execute_failed (body_execute dl s (some p) m1.bodies)
      ok (record m1 { bodies = bodies })

    unfoldable pub task_pause : ℕ → Option ℕ → ℕ → Tasks T L → Result TaskError (Tasks T L)
    unfolding on_body
    task_pause s task id m =
        on_body (λ b bodies. or_err pause_failed (body_pause dl s b bodies)) task id m

    unfoldable pub task_resume : ℕ → Option ℕ → ℕ → Tasks T L → Result TaskError (Tasks T L)
    unfolding on_body
    task_resume s task id m =
        on_body (λ b bodies. or_err resume_failed (body_resume dl s b bodies)) task id m

    unfoldable pub task_end : ℕ → Option ℕ → ℕ → Tasks T L → Result TaskError (Tasks T L)
    unfolding on_body
    task_end s task id m =
        on_body (λ b bodies. or_err end_failed (body_end dl s b bodies)) task id m
