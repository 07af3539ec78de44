-- ===== src/Models/Openmp/Tests.antt =====
-- The theorem on the labels of openmp at a task that begins to run.
use ovni.Prelude.{ℕ, ◌≡◌, ◌⊎◌, refl, Option, some, List, [], ok}
use ovni.Rt.Bytes.{le_value}
use ovni.Chan.{Chan, stack, chan_init, chan_push, set_dirty, call_dirty}
use ovni.Vendor.{update}
use ovni.Vendor.Samples.{table, list}
use ovni.Body.{body_create, body_execute, revive, check_nesting, body_get_running, start}
use ovni.Task.{Tasks, task_find, task_execute, find_or_create, create_body, body_flags}
use ovni.Models.Samples.{log, process, begin, after}
use ovni.Models.Openmp.Tasks.{push_at, update_task}
use ovni.Models.Openmp.Labels.{IsOnTop, update_task_lem}

abbrev labels : ℕ → Chan
labels j = chan_init stack

last : Tasks (ℕ → Option ℕ) (List ℕ) × (ℕ → Chan) × List ℕ
last =
    after (process 10, labels, [])
      (update_task log table list 9 (begin b'P' b'P') (process 10) labels [])

begun : update_task log table list 9 (begin b'P' b'P') (process 10) labels [] ≡ ok last
unfolding last update_task push_at task_execute find_or_create create_body body_create body_flags
    body_execute revive check_nesting body_get_running start update chan_push set_dirty call_dirty
    chan_init ovni.Rt.Bytes.le_value
begun = refl

update_task_lem_example :
    (t : ℕ) × (task_find table (process 10).tasks (le_value 4 (begin b'P' b'P').payload) ≡ some t)
    × ((((begin b'P' b'P').v ≡ b'x') × IsOnTop (process 10) ((process 10).task_at t) last.1 labels)
        ⊎ (((begin b'P' b'P').v ≡ b'e')
            × IsOnTop (process 10) ((process 10).task_at t) labels last.1))
unfolding chan_init
update_task_lem_example =
    update_task_lem log table list 9 (begin b'P' b'P') (process 10) last.0 labels last.1 [] last.2
      (λ j. refl) begun
