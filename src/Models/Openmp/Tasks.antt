-- ===== src/Models/Openmp/Tasks.antt =====
-- The tasks, types and worksharings of src/emu/openmp/event.c, and the events of the openmp model.
use ovni.Prelude.{
  ℕ, Bool, not, ◌||◌, Option, none, some, List, if◌then◌else◌, ltb, ◌==◌, Result, ok, err, ◌>>=◌,
  ◌>>◌, fail_if, or_err, drop,
}
use ovni.Prelude.Int.{pos}
use ovni.Rt.Bytes.{le_value}
use ovni.Value.{value_int64}
use ovni.Chan.{Chan, chan_push, chan_pop}
use ovni.Vendor.{LinkedList, HashTable, update}
use ovni.Thread.{Thread}
use ovni.Task.{
  Tasks, task_find, task_type_find, task_type_create, task_create, task_execute, task_end,
}
use ovni.Emu.Event.{EmuEv}
use ovni.Models.{simple}
use ovni.Models.Strings.{c_string}
use ovni.Models.Openmp.{openmp_table}

pub data OpenmpError : Type 0 where
  missing_payload wrong_payload_size zero_id zero_type no_such_task no_such_type : OpenmpError
  change_failed chan_failed create_failed unknown_value not_jumbo crash : OpenmpError
  wrong_model not_running unknown_category simple_failed : OpenmpError

-- CH_LABEL and CH_TASKID
abbrev pub ch_label : ℕ
ch_label = 1

abbrev pub ch_taskid : ℕ
ch_taskid = 2

module _ {T L : Type 0} (table : HashTable T) where
  unfoldable pub create_task : EmuEv → Tasks T L → Result OpenmpError (Tasks T L)
  create_task ev m = do
    fail_if (not (ev.payload_size == 8)) wrong_payload_size
    let task_id = le_value 4 ev.payload
    let type_id = le_value 4 (drop 4 ev.payload)
    fail_if (task_id == 0) zero_id
    fail_if (type_id == 0) zero_type
    or_err create_failed (task_create table type_id task_id 10 m)

  unfoldable pub pre_type :
      (List ℕ → ℕ) → (ℕ → List ℕ) → EmuEv → Tasks T L → Result OpenmpError (Tasks T L)
  unfolding c_string
  pre_type hash_value unlabeled ev m = do
    fail_if (not (ev.v == b'c')) unknown_value
    fail_if (not ev.jumbo) not_jumbo
    let data_ = drop 4 ev.payload
    elim (c_string (drop 4 data_)) [
      | none ↦ err crash
      | some label ↦
          or_err create_failed
            (task_type_create hash_value unlabeled table (le_value 4 data_) label m)
    ]

module _ {S : Type 0} (cb : ℕ → S → Option S) where
  unfoldable pub push_at : ℕ → ℕ → (ℕ → Chan) → S → Result OpenmpError ((ℕ → Chan) × S)
  push_at k n ch s = or_err chan_failed (chan_push cb (ch k) (value_int64 (pos n)) s) >>= λ (c, s').
      ok (update ch k c, s')

  unfoldable pub pop_at : ℕ → ℕ → (ℕ → Chan) → S → Result OpenmpError ((ℕ → Chan) × S)
  pop_at k n ch s = or_err chan_failed (chan_pop cb (ch k) (value_int64 (pos n)) s) >>= λ (c, s').
      ok (update ch k c, s')

  module _ {T L : Type 0} (table : HashTable T) (dl : LinkedList L) (stack : ℕ) where
    abbrev pub change_task :
        ℕ → ℕ → Tasks T L → (ℕ → Chan) → S → Result OpenmpError (Tasks T L × (ℕ → Chan) × S)
    change_task v t m ch s =
        let task = m.task_at t in
        let gid = (m.type_at task.type).gid in
        if v == b'x'
        then (do
          m1 ← or_err change_failed (task_execute table dl stack (some t) 1 m)
          (ch1, s1) ← push_at ch_taskid task.id ch s
          (ch2, s2) ← push_at ch_label gid ch1 s1
          ok (m1, ch2, s2))
        else if v == b'e'
        then (do
          m1 ← or_err change_failed (task_end table dl stack (some t) 1 m)
          (ch1, s1) ← pop_at ch_taskid task.id ch s
          (ch2, s2) ← pop_at ch_label gid ch1 s1
          ok (m1, ch2, s2))
        else err unknown_value

    unfoldable pub update_task :
        EmuEv → Tasks T L → (ℕ → Chan) → S → Result OpenmpError (Tasks T L × (ℕ → Chan) × S)
    unfolding push_at pop_at
    update_task ev m ch s = do
      fail_if (ltb ev.payload_size 4) missing_payload
      let task_id = le_value 4 ev.payload
      fail_if (task_id == 0) zero_id
      elim (task_find table m.tasks task_id) [
        | none ↦ err no_such_task
        | some t ↦ change_task ev.v t m ch s
      ]

    unfoldable pub pre_task :
        EmuEv → Tasks T L → (ℕ → Chan) → S → Result OpenmpError (Tasks T L × (ℕ → Chan) × S)
    unfolding create_task update_task
    pre_task ev m ch s =
        if ev.v == b'c'
        then (create_task table ev m >>= λ m1. ok (m1, ch, s))
        else if (ev.v == b'x') || (ev.v == b'e')
        then update_task ev m ch s
        else err unknown_value

    -- The worksharings have the types of the tasks.
    unfoldable pub update_ws_state :
        EmuEv → ℕ → Tasks T L → (ℕ → Chan) → S → Result OpenmpError ((ℕ → Chan) × S)
    unfolding push_at pop_at
    update_ws_state ev action m ch s = do
      fail_if (ltb ev.payload_size 4) missing_payload
      let type_id = le_value 4 ev.payload
      fail_if (type_id == 0) zero_type
      elim (task_type_find table m.types type_id) [
        | none ↦ err no_such_type
        | some type ↦
            let gid = (m.type_at type).gid in
            if action == b'x' then push_at ch_label gid ch s else pop_at ch_label gid ch s
      ]

    unfoldable pub pre_worksharing :
        EmuEv → Tasks T L → (ℕ → Chan) → S → Result OpenmpError ((ℕ → Chan) × S)
    unfolding update_ws_state
    pre_worksharing ev m ch s =
        if (ev.v == b'x') || (ev.v == b'e')
        then update_ws_state ev ev.v m ch s
        else err unknown_value

    abbrev pub openmp_category : ℕ → Bool
    openmp_category c =
        c == b'B'
        || c == b'I'
        || c == b'W'
        || c == b'T'
        || c == b'A'
        || c == b'M'
        || c == b'H'
        || c == b'C'

    unfoldable pub model_openmp_event :
        (List ℕ → ℕ)
        → (ℕ → List ℕ)
        → Thread
        → EmuEv
        → Tasks T L
        → (ℕ → Chan)
        → S
        → Result OpenmpError (Tasks T L × (ℕ → Chan) × S)
    unfolding simple pre_task pre_type pre_worksharing
    model_openmp_event hash_value unlabeled th ev m ch s = do
      fail_if (not (ev.m == b'P')) wrong_model
      fail_if (not th.is_running) not_running
      if openmp_category ev.c
          then (or_err simple_failed (simple cb openmp_table ev.c ev.v ch s) >>= λ (ch1, s1).
              ok (m, ch1, s1))
          else if ev.c == b'P'
          then pre_task ev m ch s
          else if ev.c == b'O'
          then (pre_type table hash_value unlabeled ev m >>= λ m1. ok (m1, ch, s))
          else if ev.c == b'Q'
          then (pre_worksharing ev m ch s >>= λ (ch1, s1). ok (m, ch1, s1))
          else err unknown_category
