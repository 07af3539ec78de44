-- ===== src/Models/Nanos6/Tests.antt =====
-- The theorem on the channels of nanos6 at a task that begins to run.
use ovni.Prelude.{ℕ, ◌≡◌, refl, Option, some, List, [], ok}
use ovni.Prelude.Int.{pos}
use ovni.Value.{value_int64}
use ovni.Chan.{Chan, chan_init, chan_read, chan_set, chan_push, set_dirty, call_dirty}
use ovni.Vendor.{update}
use ovni.Vendor.Samples.{table, list}
use ovni.Body.{body_create, body_execute, revive, check_nesting, body_get_running, start}
use ovni.Task.{Tasks, task_execute, find_or_create, create_body, body_flags}
use ovni.Models.Samples.{log, process, app, channels, channels-TakesValue, begin, after}
use ovni.Models.Nosv.Tasks.{set_all}
use ovni.Models.Nanos6.Tasks.{
  task_of, chan_task_running, update_task_channels, update_task_ss_channel, update_task_state,
  update_task, enforce_task_rules,
}
use ovni.Models.Nosv.Writes.{Shows}
use ovni.Models.Nanos6.Shown.{shown_task, running_task-Shows}

last : Tasks (ℕ → Option ℕ) (List ℕ) × (ℕ → Chan) × List ℕ
last =
    after (process 12, channels 2, [])
      (update_task table list log app 9 (begin b'6' b'T') (process 12) (channels 2) [])

begun : update_task table list log app 9 (begin b'6' b'T') (process 12) (channels 2) [] ≡ ok last
unfolding last update_task update_task_state update_task_ss_channel update_task_channels
    chan_task_running set_all enforce_task_rules task_execute find_or_create create_body body_create
    body_flags body_execute revive check_nesting body_get_running start update chan_set chan_push
    chan_read set_dirty call_dirty chan_init ovni.Rt.Bytes.le_value
begun = refl

running_task-Shows_example :
    Shows (shown_task last.0 app (task_of last.0 (body_get_running list last.0.bodies 9))) last.1
running_task-Shows_example =
    running_task-Shows table list log app 9 (begin b'6' b'T') (process 12) last.0 (channels 2)
      last.1 [] last.2 (channels-TakesValue 2) begun

shown_values :
    (body_get_running list last.0.bodies 9 ≡ some 0)
    × (chan_read (last.1 0) ≡ value_int64 (pos 5))
    × (chan_read (last.1 1) ≡ value_int64 (pos 1000))
unfolding last update_task update_task_state update_task_ss_channel update_task_channels
    chan_task_running set_all enforce_task_rules task_execute find_or_create create_body body_create
    body_flags body_execute revive check_nesting body_get_running start update chan_set chan_push
    chan_read set_dirty call_dirty chan_init ovni.Rt.Bytes.le_value
shown_values = (refl, refl, refl)
