-- ===== src/Models/Nosv/Tasks.antt =====
-- The task and type events of src/emu/nosv/event.c, on the tasks of src/emu/task.c and the channels of the thread.
use ovni.Prelude.{
  ℕ, Bool, not, ◌&&◌, ◌||◌, Option, none, some, List, [], ◌∷◌, if◌then◌else◌, ltb, ◌==◌, Result, ok,
  err, ◌>>=◌, ◌>>◌, fail_if, or_err, is_none, drop,
}
use ovni.Prelude.Int.{ℤ, pos, ◌+ℤ◌, ltb_ℤ, eq_ℤ}
use ovni.Rt.Bytes.{le_value}
use ovni.Value.{Value, value_int64, value_null, eq_type, int64}
use ovni.Chan.{Chan, chan_read, chan_set, chan_push, chan_pop}
use ovni.Vendor.{LinkedList, HashTable, update}
use ovni.Body.{is_running, body_get_running}
use ovni.Task.{
  Task, Tasks, task_is_parallel, task_find, task_type_create, task_create, task_execute, task_pause,
  task_resume, task_end,
}
use ovni.Emu.Event.{EmuEv}
use ovni.Models.Strings.{c_string}
use ovni.Models.Nosv.{nosv_number, task_body}

pub data NosvError : Type 0 where
  chan_failed null_body same_body zero_id zero_gid no_appid crash : NosvError
  missing_payload no_such_task wrong_body_id unknown_value change_failed : NosvError
  wrong_subsystem not_in_running_state create_failed not_jumbo : NosvError

-- CH_BODYID, CH_TASKID, CH_TYPE, CH_APPID, CH_SUBSYSTEM and CH_RANK
abbrev pub ch_bodyid : ℕ
ch_bodyid = 0

abbrev pub ch_taskid : ℕ
ch_taskid = 1

abbrev pub ch_type : ℕ
ch_type = 2

abbrev pub ch_appid : ℕ
ch_appid = 3

abbrev pub ch_subsystem : ℕ
ch_subsystem = 4

abbrev pub ch_rank : ℕ
ch_rank = 5

-- `struct proc`: what the channels show of the process.
pub record Proc : Type 0 where
  pub appid : ℤ
  pub rank : ℤ

abbrev pub has_rank : Proc → Bool
has_rank proc = not (ltb_ℤ proc.rank (pos 0))

-- What the channels of a thread show while no body runs.
abbrev pub stopped_values : Proc → List (ℕ × Value)
stopped_values proc =
    (ch_bodyid, value_null)
    ∷ (ch_taskid, value_null)
    ∷ (ch_type, value_null)
    ∷ (ch_appid, value_null)
    ∷ (if has_rank proc then (ch_rank, value_null) ∷ [] else [])

module _ {T L : Type 0} (m : Tasks T L) (proc : Proc) where
  -- What they show while the body at `p` runs.
  abbrev pub running_values : ℕ → List (ℕ × Value)
  running_values p =
      let b = m.bodies.at p in
      let task = m.task_at b.task in
      (ch_bodyid, value_int64 (pos b.id))
      ∷ (ch_taskid, value_int64 (pos task.id))
      ∷ (ch_type, value_int64 (pos (m.type_at task.type).gid))
      ∷ (ch_appid, value_int64 proc.appid)
      ∷ (if has_rank proc then (ch_rank, value_int64 (proc.rank +ℤ pos 1)) ∷ [] else [])

abbrev pub expand_transition_value : ℕ → Bool → Bool → Result NosvError ℕ
expand_transition_value v was_running runs_now =
    if (v == b'X') || (v == b'E')
    then err unknown_value
    else ok
        (if (v == b'x') && was_running then b'X' else if (v == b'e') && runs_now then b'E' else v)

module _ {S : Type 0} (cb : ℕ → S → Option S) where
  -- Calls of chan_set, one after the other, on the channels of the thread.
  unfoldable pub set_all : List (ℕ × Value) → (ℕ → Chan) → S → Result NosvError ((ℕ → Chan) × S)
  set_all [] ch s = ok (ch, s)
  set_all ((k, v) ∷ ws) ch s =
      or_err chan_failed (chan_set cb (ch k) v s) >>= λ (c, s'). set_all ws (update ch k c) s'

  unfoldable pub chan_body_stopped : Proc → (ℕ → Chan) → S → Result NosvError ((ℕ → Chan) × S)
  unfolding set_all
  chan_body_stopped proc ch s = set_all (stopped_values proc) ch s

  module _ {T L : Type 0} (m : Tasks T L) (proc : Proc) where
    unfoldable pub chan_body_running : Option ℕ → (ℕ → Chan) → S → Result NosvError ((ℕ → Chan) × S)
    unfolding set_all
    chan_body_running none ch s = err crash
    chan_body_running (some p) ch s = do
      let task = m.task_at (m.bodies.at p).task
      fail_if (task.id == 0) zero_id
      fail_if ((m.type_at task.type).gid == 0) zero_gid
      fail_if (not (ltb_ℤ (pos 0) proc.appid)) no_appid
      set_all (running_values m proc p) ch s

    unfoldable pub chan_body_switch :
        Option ℕ → Option ℕ → (ℕ → Chan) → S → Result NosvError ((ℕ → Chan) × S)
    unfolding set_all
    chan_body_switch (some prev) (some next) ch s = do
      fail_if (prev == next) same_body
      let task = m.task_at (m.bodies.at next).task
      fail_if (task.id == 0) zero_id
      fail_if ((m.type_at task.type).gid == 0) zero_gid
      set_all (running_values m proc next) ch s
    chan_body_switch _ _ ch s = err null_body

    unfoldable pub update_task_channels :
        ℕ → Option ℕ → Option ℕ → (ℕ → Chan) → S → Result NosvError ((ℕ → Chan) × S)
    unfolding chan_body_running chan_body_stopped chan_body_switch
    update_task_channels tr prev next ch s =
        if (tr == b'x') || (tr == b'r')
        then chan_body_running next ch s
        else if (tr == b'e') || (tr == b'p')
        then chan_body_stopped proc ch s
        else if (tr == b'X') || (tr == b'E')
        then chan_body_switch prev next ch s
        else err unknown_value

    -- The subsystem of a task that begins must be the body of the task.
    unfoldable pub enforce_task_rules : ℕ → Option ℕ → (ℕ → Chan) → Result NosvError (Unit {0})
    enforce_task_rules tr next ch =
        if not ((tr == b'x') || (tr == b'X')) then ok tt else elim next [
          | none ↦ err crash
          | some p ↦ do
            fail_if (not (is_running (m.bodies.at p).state)) not_in_running_state
            let ss = chan_read (ch ch_subsystem)
            fail_if (eq_type ss.type int64 && not (eq_ℤ ss.i (pos (nosv_number task_body))))
                wrong_subsystem
        ]

  unfoldable pub update_task_ss_channel : ℕ → (ℕ → Chan) → S → Result NosvError ((ℕ → Chan) × S)
  update_task_ss_channel v ch s =
      let value = value_int64 (pos (nosv_number task_body)) in
      if v == b'x'
      then (or_err chan_failed (chan_push cb (ch ch_subsystem) value s) >>= λ (c, s').
          ok (update ch ch_subsystem c, s'))
      else if v == b'e'
      then (or_err chan_failed (chan_pop cb (ch ch_subsystem) value s) >>= λ (c, s').
          ok (update ch ch_subsystem c, s'))
      else ok (ch, s)

module _ {T L : Type 0} (table : HashTable T) (dl : LinkedList L) where
  abbrev pub body_id_of : Task T → ℕ → Result NosvError ℕ
  body_id_of task body_id =
      if task_is_parallel task
      then (if body_id == 0 then err wrong_body_id else ok body_id)
      else if not (body_id == 0)
      then err wrong_body_id
      else ok 1

  abbrev pub change : ℕ → ℕ → ℕ → ℕ → Tasks T L → Result NosvError (Tasks T L)
  change v stack t id m =
      if v == b'x'
      then or_err change_failed (task_execute table dl stack (some t) id m)
      else if v == b'e'
      then or_err change_failed (task_end table dl stack (some t) id m)
      else if v == b'p'
      then or_err change_failed (task_pause table dl stack (some t) id m)
      else if v == b'r'
      then or_err change_failed (task_resume table dl stack (some t) id m)
      else err unknown_value

  -- The tasks of the process, with the stack of the thread.
  unfoldable pub update_task_state : EmuEv → ℕ → Tasks T L → Result NosvError (Tasks T L)
  update_task_state ev stack m = do
    fail_if (ltb ev.payload_size 4) missing_payload
    fail_if (ltb ev.payload_size 8) missing_payload
    elim (task_find table m.tasks (le_value 4 ev.payload)) [
      | none ↦ err no_such_task
      | some t ↦ do
        id ← body_id_of (m.task_at t) (le_value 4 (drop 4 ev.payload))
        change ev.v stack t id m
    ]

  unfoldable pub create_task : EmuEv → Tasks T L → Result NosvError (Tasks T L)
  create_task ev m = do
    fail_if (ltb ev.payload_size 8) missing_payload
    let task_id = le_value 4 ev.payload
    let type_id = le_value 4 (drop 4 ev.payload)
    let flags = if ev.v == b'C' then 1 else 6
    or_err create_failed (task_create table type_id task_id flags m)

  unfoldable pub pre_type :
      (List ℕ → ℕ) → (ℕ → List ℕ) → EmuEv → Tasks T L → Result NosvError (Tasks T L)
  unfolding c_string
  pre_type hash_value unlabeled ev m = do
    fail_if (not (ev.v == b'c')) unknown_value
    fail_if (not ev.jumbo) not_jumbo
    let data_ = drop 4 ev.payload
    elim (c_string (drop 4 data_)) [
      | none ↦ err crash
      | some label ↦
          or_err create_failed
            (task_type_create hash_value unlabeled table (le_value 4 data_) label m)
    ]

  module _ {S : Type 0} (cb : ℕ → S → Option S) (proc : Proc) (stack : ℕ) where
    unfoldable pub update_task :
        EmuEv → Tasks T L → (ℕ → Chan) → S → Result NosvError (Tasks T L × (ℕ → Chan) × S)
    unfolding update_task_state update_task_ss_channel update_task_channels enforce_task_rules
    update_task ev m ch s = do
      let prev = body_get_running dl m.bodies stack
      m1 ← update_task_state ev stack m
      let next = body_get_running dl m1.bodies stack
      (ch1, s1) ← update_task_ss_channel cb ev.v ch s
      tr ← expand_transition_value ev.v (not (is_none prev)) (not (is_none next))
      (ch2, s2) ← update_task_channels cb m1 proc tr prev next ch1 s1
      enforce_task_rules cb m1 proc tr next ch2
      ok (m1, ch2, s2)

    unfoldable pub pre_task :
        EmuEv → Tasks T L → (ℕ → Chan) → S → Result NosvError (Tasks T L × (ℕ → Chan) × S)
    unfolding create_task update_task
    pre_task ev m ch s =
        if (ev.v == b'C') || (ev.v == b'c')
        then (create_task ev m >>= λ m1. ok (m1, ch, s))
        else if (ev.v == b'x') || (ev.v == b'e') || (ev.v == b'r') || (ev.v == b'p')
        then update_task ev m ch s
        else err unknown_value
