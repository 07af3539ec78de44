-- ===== src/Models/Samples.antt =====
-- A process with one task, the event that executes it, and channels, for the tests of the models with tasks.
use ovni.Prelude.{ℕ, refl, inl, true, false, Option, none, some, List, [], ◌∷◌, Result, ok, err}
use ovni.Prelude.Int.{pos, negsuc}
use ovni.Chan.{Chan, single, stack, chan_init}
use ovni.Chan.Contents.{init-IsSettled}
use ovni.Vendor.{update, at_place}
use ovni.Vendor.Samples.{table}
use ovni.Body.{created}
use ovni.Task.{Tasks}
use ovni.Emu.Event.{EmuEv}
use ovni.Models.Nosv.Tasks.{Proc}
use ovni.Models.Nosv.Writes.{TakesValue}

abbrev pub log : ℕ → List ℕ → Option (List ℕ)
log arg l = some (arg ∷ l)

-- A process with the type 1 and the task 5.
abbrev pub process : ℕ → Tasks (ℕ → Option ℕ) (List ℕ)
process flags = record {
  tasks = update table.empty_table 5 (some 0);
  types = update table.empty_table 1 (some 0);
  task_at =
      λ t. record { id = 5; type = 0; nbodies = 0; body_info = table.empty_table; flags = flags };
  type_at = λ t. record { id = 1; gid = 1000; label = b't' ∷ [] };
  next_task = 1;
  next_type = 1;
  bodies = record {
    at = λ p. record { id = 0; flags = 0; state = created; stack = none; iteration = 0; task = 0 };
    stacks = λ s. [];
    fresh = 0;
  };
}

-- A process without a rank.
abbrev pub app : Proc
app = record { appid = pos 3; rank = negsuc 0 }

-- Only the channel k is a stack.
abbrev pub channels : ℕ → ℕ → Chan
channels k = update (λ j. chan_init single) k (chan_init stack)

pub channels-TakesValue : (k j : ℕ) → TakesValue (channels k j)
unfolding chan_init
channels-TakesValue k j =
    at_place TakesValue (λ j. chan_init single) k (chan_init stack) j
      (λ _. record { settled = init-IsSettled stack; strict = inl refl })
      (λ _. record { settled = init-IsSettled single; strict = inl refl })

-- The task 5 is executed.
abbrev pub begin : ℕ → ℕ → EmuEv
begin m c = record {
  m = m;
  c = c;
  v = b'x';
  rclock = pos 0;
  sclock = pos 0;
  dclock = pos 5;
  has_payload = true;
  payload_size = 8;
  jumbo = false;
  payload = 5 ∷ 0 ∷ 0 ∷ 0 ∷ 0 ∷ 0 ∷ 0 ∷ 0 ∷ [];
}

abbrev pub after : {E A : Type 0} → A → Result E A → A
after a (ok b) = b
after a (err e) = a
