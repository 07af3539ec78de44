-- ===== src/Models/Nanos6/Tasks.antt =====
-- The task and type events of src/emu/nanos6/event.c, and the events of the nanos6 model. The functions that are
-- the same code as in src/emu/nosv/event.c are those of the nosv model.
use ovni.Prelude.{
  ℕ, Bool, not, ◌&&◌, ◌||◌, Option, none, some, List, [], ◌∷◌, if◌then◌else◌, ltb, ◌==◌, Result, ok,
  err, ◌>>=◌, ◌>>◌, fail_if, or_err, is_none, drop,
}
use ovni.Prelude.Int.{pos, ◌+ℤ◌, eq_ℤ}
use ovni.Rt.Bytes.{le_value}
use ovni.Value.{Value, value_int64, value_null, eq_type, int64}
use ovni.Chan.{Chan, chan_read, chan_push, chan_pop}
use ovni.Vendor.{LinkedList, HashTable, update}
use ovni.Thread.{Thread}
use ovni.Body.{is_running, body_get_running}
use ovni.Task.{Tasks, task_find, task_create}
use ovni.Emu.Event.{EmuEv}
use ovni.Models.{simple}
use ovni.Models.Nosv.Tasks.{
  NosvError, Proc, has_rank, set_all, expand_transition_value, change, pre_type, chan_failed,
  null_body, same_body, zero_id, zero_gid, crash, missing_payload, no_such_task, unknown_value,
  wrong_subsystem, not_in_running_state, create_failed,
}
use ovni.Models.Nanos6.{nanos6_number, nanos6_table, task_body}

pub data Nanos6Error : Type 0 where
  wrong_model not_active unknown_category simple_failed task_failed type_failed : Nanos6Error

-- CH_TASKID, CH_TYPE, CH_SUBSYSTEM and CH_RANK
abbrev pub task_chan : ℕ
task_chan = 0

abbrev pub type_chan : ℕ
type_chan = 1

abbrev pub subsystem_chan : ℕ
subsystem_chan = 2

abbrev pub rank_chan : ℕ
rank_chan = 3

-- What the channels of a thread show while no task runs.
abbrev pub stopped_task : Proc → List (ℕ × Value)
stopped_task proc =
    (task_chan, value_null)
    ∷ (type_chan, value_null)
    ∷ (if has_rank proc then (rank_chan, value_null) ∷ [] else [])

-- What they show while the task at `t` runs.
abbrev pub running_task : {T L : Type 0} → Tasks T L → Proc → ℕ → List (ℕ × Value)
running_task m proc t =
    (task_chan, value_int64 (pos (m.task_at t).id))
    ∷ (type_chan, value_int64 (pos (m.type_at (m.task_at t).type).gid))
    ∷ (if has_rank proc then (rank_chan, value_int64 (proc.rank +ℤ pos 1)) ∷ [] else [])

-- `bprev == NULL ? NULL : body_get_task(bprev)`
abbrev pub task_of : {T L : Type 0} → Tasks T L → Option ℕ → Option ℕ
task_of m none = none
task_of m (some p) = some (m.bodies.at p).task

module _ {S : Type 0} (cb : ℕ → S → Option S) where
  unfoldable pub chan_task_stopped : Proc → (ℕ → Chan) → S → Result NosvError ((ℕ → Chan) × S)
  unfolding set_all
  chan_task_stopped proc ch s = set_all cb (stopped_task proc) ch s

  module _ {T L : Type 0} (m : Tasks T L) (proc : Proc) where
    unfoldable pub chan_task_running : Option ℕ → (ℕ → Chan) → S → Result NosvError ((ℕ → Chan) × S)
    unfolding set_all
    chan_task_running none ch s = err crash
    chan_task_running (some t) ch s = do
      fail_if ((m.task_at t).id == 0) zero_id
      fail_if ((m.type_at (m.task_at t).type).gid == 0) zero_gid
      set_all cb (running_task m proc t) ch s

    unfoldable pub chan_task_switch :
        Option ℕ → Option ℕ → (ℕ → Chan) → S → Result NosvError ((ℕ → Chan) × S)
    unfolding set_all
    chan_task_switch (some prev) (some next) ch s = do
      fail_if (prev == next) same_body
      fail_if ((m.task_at next).id == 0) zero_id
      fail_if ((m.type_at (m.task_at next).type).gid == 0) zero_gid
      set_all cb (running_task m proc next) ch s
    chan_task_switch _ _ ch s = err null_body

    unfoldable pub update_task_channels :
        ℕ → Option ℕ → Option ℕ → (ℕ → Chan) → S → Result NosvError ((ℕ → Chan) × S)
    unfolding chan_task_running chan_task_stopped chan_task_switch
    update_task_channels tr prev next ch s =
        if (tr == b'x') || (tr == b'r')
        then chan_task_running next ch s
        else if (tr == b'e') || (tr == b'p')
        then chan_task_stopped proc ch s
        else if (tr == b'X') || (tr == b'E')
        then chan_task_switch prev next ch s
        else err unknown_value

    -- The subsystem of a task that begins must be the body of the task.
    unfoldable pub enforce_task_rules : ℕ → Option ℕ → (ℕ → Chan) → Result NosvError (Unit {0})
    enforce_task_rules tr next ch =
        if not ((tr == b'x') || (tr == b'X')) then ok tt else elim next [
          | none ↦ err crash
          | some p ↦ do
            fail_if (not (is_running (m.bodies.at p).state)) not_in_running_state
            let ss = chan_read (ch subsystem_chan)
            fail_if (eq_type ss.type int64 && not (eq_ℤ ss.i (pos (nanos6_number task_body))))
                wrong_subsystem
        ]

  unfoldable pub update_task_ss_channel : ℕ → (ℕ → Chan) → S → Result NosvError ((ℕ → Chan) × S)
  update_task_ss_channel v ch s =
      let value = value_int64 (pos (nanos6_number task_body)) in
      if v == b'x'
      then (or_err chan_failed (chan_push cb (ch subsystem_chan) value s) >>= λ (c, s').
          ok (update ch subsystem_chan c, s'))
      else if v == b'e'
      then (or_err chan_failed (chan_pop cb (ch subsystem_chan) value s) >>= λ (c, s').
          ok (update ch subsystem_chan c, s'))
      else ok (ch, s)

module _ {T L : Type 0} (table : HashTable T) (dl : LinkedList L) where
  -- The tasks of the process, with the stack of the thread.
  unfoldable pub update_task_state : EmuEv → ℕ → Tasks T L → Result NosvError (Tasks T L)
  update_task_state ev stack m = do
    fail_if (ltb ev.payload_size 4) missing_payload
    elim (task_find table m.tasks (le_value 4 ev.payload)) [
      | none ↦ err no_such_task
      | some t ↦ change table dl ev.v stack t 1 m
    ]

  unfoldable pub create_task : EmuEv → Tasks T L → Result NosvError (Tasks T L)
  create_task ev m = do
    fail_if (not (ev.payload_size == 8)) missing_payload
    let task_id = le_value 4 ev.payload
    let type_id = le_value 4 (drop 4 ev.payload)
    or_err create_failed (task_create table type_id task_id 12 m)

  abbrev pub nanos6_category : ℕ → Bool
  nanos6_category c =
      c == b'C'
      || c == b'S'
      || c == b'U'
      || c == b'F'
      || c == b'O'
      || c == b't'
      || c == b'H'
      || c == b'D'
      || c == b'B'
      || c == b'W'
      || c == b'M'
      || c == b'P'

  module _ {S : Type 0} (cb : ℕ → S → Option S) (proc : Proc) (stack : ℕ) where
    unfoldable pub update_task :
        EmuEv → Tasks T L → (ℕ → Chan) → S → Result NosvError (Tasks T L × (ℕ → Chan) × S)
    unfolding update_task_state update_task_ss_channel update_task_channels enforce_task_rules
    update_task ev m ch s = do
      let prev = task_of m (body_get_running dl m.bodies stack)
      m1 ← update_task_state ev stack m
      let bnext = body_get_running dl m1.bodies stack
      let next = task_of m1 bnext
      (ch1, s1) ← update_task_ss_channel cb ev.v ch s
      tr ← expand_transition_value ev.v (not (is_none prev)) (not (is_none next))
      (ch2, s2) ← update_task_channels cb m1 proc tr prev next ch1 s1
      enforce_task_rules cb m1 proc tr bnext ch2
      ok (m1, ch2, s2)

    -- An event TC of old traces is ignored.
    unfoldable pub pre_task :
        EmuEv → Tasks T L → (ℕ → Chan) → S → Result NosvError (Tasks T L × (ℕ → Chan) × S)
    unfolding create_task update_task
    pre_task ev m ch s =
        if ev.v == b'C'
        then ok (m, ch, s)
        else if ev.v == b'c'
        then (create_task ev m >>= λ m1. ok (m1, ch, s))
        else if (ev.v == b'x') || (ev.v == b'e') || (ev.v == b'r') || (ev.v == b'p')
        then update_task ev m ch s
        else err unknown_value

    unfoldable pub model_nanos6_event :
        (List ℕ → ℕ)
        → (ℕ → List ℕ)
        → Thread
        → EmuEv
        → Tasks T L
        → (ℕ → Chan)
        → S
        → Result Nanos6Error (Tasks T L × (ℕ → Chan) × S)
    unfolding simple pre_task pre_type
    model_nanos6_event hash_value unlabeled th ev m ch s = do
      fail_if (not (ev.m == b'6')) wrong_model
      fail_if (not th.is_active) not_active
      if nanos6_category ev.c
          then (or_err simple_failed (simple cb nanos6_table ev.c ev.v ch s) >>= λ (ch1, s1).
              ok (m, ch1, s1))
          else if ev.c == b'T'
          then or_err task_failed (pre_task ev m ch s)
          else if ev.c == b'Y'
          then (or_err type_failed (pre_type table dl hash_value unlabeled ev m) >>= λ m1.
              ok (m1, ch, s))
          else err unknown_category
