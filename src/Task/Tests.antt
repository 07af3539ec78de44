-- ===== src/Task/Tests.antt =====
-- The theorems on src/emu/body.c and src/emu/task.c in a small process, with a function for the hash table and
-- a list for the linked list.
use ovni.Prelude.{ℕ, ◌≡◌, ◌≢◌, refl, ap, Option, none, some, List, [], ◌∷◌, Result, ok, err}
use ovni.Vendor.{update}
use ovni.Vendor.Samples.{table, table-IsHashTable, list, list-IsLinkedList}
use ovni.Body.{
  Body, Bodies, created, running, body_create, body_execute, revive, check_nesting,
  body_get_running, start, check_top, set_state, body_pause, body_resume, relaxes_nesting,
}
use ovni.Body.Transitions.{Moves, pause, step, step-Moves, resume-pause}
use ovni.Task.{Tasks, task_create, task_execute, find_or_create, create_body, body_flags}
use ovni.Task.Invariant.{IsConsistent}
use ovni.Task.Runs.{TaskOp, run, create, execute, run_all, one_running, run_all-IsConsistent}

abbrev blank : Body
blank = record { id = 0; flags = 0; state = created; stack = none; iteration = 0; task = 0 }

-- A process with the type 1 and no task.
abbrev process : Tasks (ℕ → Option ℕ) (List ℕ)
process = record {
  tasks = table.empty_table;
  types = update table.empty_table 1 (some 0);
  task_at = λ t. record { id = 0; type = 0; nbodies = 0; body_info = table.empty_table; flags = 0 };
  type_at = λ t. record { id = 1; gid = 1000; label = b't' ∷ [] };
  next_task = 0;
  next_type = 1;
  bodies = record { at = λ p. blank; stacks = λ s. []; fresh = 0 };
}

process-IsConsistent : IsConsistent table list process
process-IsConsistent = record {
  bodies_well = record {
    active_on_stack = λ p. refl;
    stack_has = λ p s h. absurd cc;
    has_stack = λ p s h. elim h [ ];
    once = λ s. tt;
    below = λ s p h. elim h [ ];
    not_yet = λ p h. refl;
  };
  allocated = λ t id p h. absurd cc;
}

-- The task 5, which may pause, runs on the stack 9.
abbrev ops : List (TaskOp table list)
ops = create 1 5 4 ∷ execute 9 (some 0) 1 ∷ []

value_or {ℓ} : {E : Type 0} {A : Type ℓ} → A → Result E A → A
value_or a (ok b) = b
value_or a (err e) = a

busy : Tasks (ℕ → Option ℕ) (List ℕ)
busy = value_or process (run_all table list ops process)

ran : run_all table list ops process ≡ ok busy
unfolding busy value_or run_all run task_create task_execute find_or_create create_body body_create
    body_flags body_execute revive check_nesting body_get_running start update
ran = refl

run_all-IsConsistent_example : IsConsistent table list busy
run_all-IsConsistent_example =
    run_all-IsConsistent table list table-IsHashTable list-IsLinkedList ops process busy
      process-IsConsistent ran

busy_body : busy.bodies.at 0 ≡ record blank { id = 1; flags = 1; state = running; stack = some 9 }
unfolding busy value_or run_all run task_create task_execute find_or_create create_body body_create
    body_flags body_execute revive check_nesting body_get_running start update
busy_body = refl

one_running_example : ◌≡◌ {A = ℕ} 0 0
one_running_example =
    let on_stack = ap (λ b. b.stack) busy_body in
    let runs = ap (λ b. b.state) busy_body in
    let strict = ap relaxes_nesting busy_body in
    one_running table list table-IsHashTable list-IsLinkedList ops process busy 9 0 0
      process-IsConsistent ran on_stack on_stack runs runs strict strict

-- The body pauses.
idle : Bodies (List ℕ)
idle = value_or busy.bodies (body_pause list 9 (some 0) busy.bodies)

paused_lem : body_pause list 9 (some 0) busy.bodies ≡ ok idle
unfolding idle busy value_or run_all run task_create task_execute find_or_create create_body
    body_create body_flags body_execute revive check_nesting body_get_running start update
    body_pause check_top set_state
paused_lem = refl

step-Moves_example :
    Moves 9 (busy.bodies.at 0) (idle.at 0) × ((q : ℕ) → q ≢ 0 → idle.at q ≡ busy.bodies.at q)
step-Moves_example = step-Moves list pause 9 0 busy.bodies idle (unfold step in paused_lem)

resume-pause_example :
    (last : Bodies (List ℕ)) × (body_resume list 9 (some 0) idle ≡ ok last)
    × ((q : ℕ) → last.at q ≡ busy.bodies.at q)
    × (last.stacks ≡ busy.bodies.stacks)
resume-pause_example = resume-pause list 9 0 busy.bodies idle paused_lem
