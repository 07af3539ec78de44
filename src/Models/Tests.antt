-- ===== src/Models/Tests.antt =====
-- The theorems on the models of src/emu at an event of the mpi model and at a switch of the kernel model.
use ovni.Prelude.{ℕ, ◌≡◌, refl, true, Option, some, List, [], ◌∷◌, ok}
use ovni.Prelude.Int.{pos}
use ovni.Value.{value_int64}
use ovni.Chan.{Chan, stack, chan_init, chan_flush, chan_push, set_dirty, call_dirty}
use ovni.Vendor.{update}
use ovni.Models.{Row, row, find_row, do_push, simple}
use ovni.Models.Mpi.{mpi_table}
use ovni.Models.Pairs.{mpi}
use ovni.Models.Begin.{begin_end}
use ovni.Models.Kernel.{switch_out_lem}
use ovni.Models.{model_kernel_event, context_switch}
use ovni.Vendor.Samples.{table, list}
use ovni.Emu.{Emu, out_of_cpu}
use ovni.Prelude.{err}
use ovni.Ovni.Event.{model_ovni_event}
use ovni.Ovni.Samples.{emu, idle, event}

abbrev log : ℕ → List ℕ → Option (List ℕ)
log arg l = some (arg ∷ l)

-- The channel of the functions, with its owner.
abbrev channels : ℕ → Chan
channels k = record (chan_init stack) { dirty_cb = some 6 }

-- MPI_Init, whose state has the number 1.
abbrev init : Row
init = row b'U' b'i' 0 do_push 1

init_found : find_row mpi_table b'U' b'i' ≡ some init
unfolding find_row
init_found = refl

abbrev in_init : ℕ → Chan
in_init =
    update channels 0 (record (channels 0) { is_dirty = true; values = value_int64 (pos 1) ∷ [] })

begun : simple log mpi_table b'U' b'i' channels [] ≡ ok (in_init, 6 ∷ [])
unfolding simple find_row chan_push set_dirty call_dirty chan_init update
begun = refl

begin_end_example :
    (v' : ℕ) × (d : Chan) × (ch2 : ℕ → Chan) × (s2 : List ℕ) × (chan_flush (in_init 0) ≡ ok d)
    × (simple log mpi_table b'U' v' (update in_init 0 d) (6 ∷ []) ≡ ok (ch2, s2))
    × ((ch2 0).values ≡ [])
unfolding chan_init
begin_end_example =
    begin_end log mpi b'U' b'i' init channels in_init [] (6 ∷ []) (λ arg s. (arg ∷ s, refl))
      init_found refl refl begun

abbrev cs_channel : Chan
cs_channel = chan_init stack

abbrev switched_out : Emu (List ℕ) (ℕ → Option ℕ) (List ℕ)
switched_out = record emu { threads = λ p. record idle { is_out_of_cpu = true } }

switched :
    model_kernel_event log (record (event b'C' b'O' []) { m = b'K' }) idle cs_channel []
    ≡ ok (
      record idle { is_out_of_cpu = true },
      record cs_channel { is_dirty = true; values = value_int64 (pos 3) ∷ [] },
      [],
    )
unfolding model_kernel_event context_switch chan_push set_dirty call_dirty chan_init
switched = refl

switch_out_lem_example : model_ovni_event list table (λ p. pos 9) log switched_out ≡ err out_of_cpu
switch_out_lem_example =
    switch_out_lem list table (λ p. pos 9) log log (record (event b'C' b'O' []) { m = b'K' }) idle
      cs_channel (record cs_channel { is_dirty = true; values = value_int64 (pos 3) ∷ [] }) [] []
      switched_out refl switched refl
