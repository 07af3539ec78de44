-- ===== src/Models/Nanos6/Shown.antt =====
-- The task events of src/emu/nanos6/event.c and the channels that show the running task.
use ovni.Prelude.{
  >>-eq-ok, ℕ, ◌≡◌, refl, sym, ap, ◌∙◌, subst, inl, inr, true, not, ◌||◌, Option, none, some, List,
  arith, ◌==◌, ltb, ok, err, >>=-eq-ok, or_err-eq-ok, fail_if-eq-ok, ok_inj, if-cases, Bool-cases,
  is_none,
}
use ovni.Rt.Bytes.{le_value}
use ovni.Value.{Value}
use ovni.Chan.{Chan}
use ovni.Vendor.{LinkedList, HashTable}
use ovni.Body.{body_get_running}
use ovni.Task.{Tasks, task_find}
use ovni.Emu.Event.{EmuEv}
use ovni.Models.Nosv.Tasks.{
  Proc, has_rank, set_all, expand_transition_value, change, change_failed, missing_payload,
  no_such_task,
}
use ovni.Models.Nosv.Writes.{Shows, TakesValue, are_distinct, set_all-Shows, ss_takes, ss_takes}
use ovni.Models.Nosv.Shown.{stops, expand_lem, pause_stops}
use ovni.Models.Nanos6.{nanos6_number, task_body}
use ovni.Models.Nanos6.Tasks.{
  stopped_task, running_task, task_of, subsystem_chan, chan_task_running, chan_task_stopped,
  chan_task_switch, update_task_channels, update_task_ss_channel, update_task_state, update_task,
  enforce_task_rules,
}

-- What the channels of a thread show with the running task of its stack, or without one.
abbrev pub shown_task : {T L : Type 0} → Tasks T L → Proc → Option ℕ → List (ℕ × Value)
shown_task m proc none = stopped_task proc
shown_task m proc (some t) = running_task m proc t

shown_distinct :
    {T L : Type 0} (m : Tasks T L) (proc : Proc) (next : Option ℕ)
    → are_distinct (shown_task m proc next) ≡ true
shown_distinct m proc none = elim (Bool-cases (has_rank proc)) [
  | inl h ↦ rw h refl
  | inr h ↦ rw h refl
]
shown_distinct m proc (some t) = elim (Bool-cases (has_rank proc)) [
  | inl h ↦ rw h refl
  | inr h ↦ rw h refl
]

module _ {S : Type 0} (cb : ℕ → S → Option S) where
  module _ {T L : Type 0} (m : Tasks T L) (proc : Proc) where
    channels_set :
        (t : ℕ) (prev next : Option ℕ) (ch ch' : ℕ → Chan) (s s' : S)
        → update_task_channels cb m proc t prev next ch s ≡ ok (ch', s')
        → (stops t ≡ true → next ≡ none)
        → set_all cb (shown_task m proc next) ch s ≡ ok (ch', s')
    unfolding update_task_channels chan_task_running chan_task_stopped chan_task_switch
    channels_set t prev next ch ch' s s' h stop =
        elim (if-cases ((t == b'x') || (t == b'r')) _ _ h) [
          | inl (hit, h) ↦ runs next h
          | inr (miss, h) ↦ elim (if-cases (stops t) _ _ h) [
            | inl (hit, h) ↦
                subst (λ o. set_all cb (shown_task m proc o) ch s ≡ ok (ch', s')) (sym (stop hit)) h
            | inr (miss, h) ↦ elim (if-cases ((t == b'X') || (t == b'E')) _ _ h) [
              | inl (hit, h) ↦ switches prev next h
              | inr (miss, h) ↦ cc
            ]
          ]
        ]
      where
        runs :
            (next : Option ℕ)
            → chan_task_running cb m proc next ch s ≡ ok (ch', s')
            → set_all cb (shown_task m proc next) ch s ≡ ok (ch', s')
        runs none h = cc
        runs (some p) h = ground arith

        switches :
            (prev next : Option ℕ)
            → chan_task_switch cb m proc prev next ch s ≡ ok (ch', s')
            → set_all cb (shown_task m proc next) ch s ≡ ok (ch', s')
        switches none none h = cc
        switches none (some p) h = cc
        switches (some q) none h = cc
        switches (some q) (some p) h = ground arith

module _ {T L : Type 0} (table : HashTable T) (dl : LinkedList L) where
  state_stops :
      (ev : EmuEv) (stack : ℕ) (m m1 : Tasks T L)
      → update_task_state table dl ev stack m ≡ ok m1
      → ev.v ≡ b'p'
      → body_get_running dl m1.bodies stack ≡ none
  unfolding update_task_state
  state_stops ev stack m m1 h v =
      let (a, h1) = fail_if-eq-ok (ltb ev.payload_size 4) missing_payload _ h in
      go (task_find table m.tasks (le_value 4 ev.payload)) h1
    where
      go :
          (o : Option ℕ)
          → elim o [ none ↦ err no_such_task | some t ↦ change table dl ev.v stack t 1 m ] ≡ ok m1
          → body_get_running dl m1.bodies stack ≡ none
      go none h = cc
      go (some t) h =
          pause_stops table dl stack t 1 m m1
            (or_err-eq-ok change_failed _ (ap (λ n. change table dl n stack t 1 m) (sym v) ∙ h))

  -- After a task event of nanos6 that is taken without an error, where the channels of the thread are settled
  -- and allow no dirty writes or take duplicates, they show the task of the body that runs on the stack of the
  -- thread, with its type and the rank of the process, or null if none runs.
  pub running_task-Shows :
      {S : Type 0} (cb : ℕ → S → Option S) (proc : Proc) (stack : ℕ) (ev : EmuEv) (m m' : Tasks T L)
      (ch ch' : ℕ → Chan) (s s' : S)
      → ((j : ℕ) → TakesValue (ch j))
      → update_task table dl cb proc stack ev m ch s ≡ ok (m', ch', s')
      → Shows (shown_task m' proc (task_of m' (body_get_running dl m'.bodies stack))) ch'
  unfolding update_task
  running_task-Shows cb proc stack ev m m' ch ch' s s' takes h =
      let prev = task_of m (body_get_running dl m.bodies stack) in
      let (m1, state, h1) = >>=-eq-ok (update_task_state table dl ev stack m) _ h in
      let bnext = body_get_running dl m1.bodies stack in
      let next = task_of m1 bnext in
      let ((ch1, s1), ss, h2) = >>=-eq-ok (update_task_ss_channel cb ev.v ch s) _ h1 in
      let (t, expand, h3) =
        >>=-eq-ok (expand_transition_value ev.v (not (is_none prev)) (not (is_none next))) _ h2 in
      let ((ch2, s2), channels, h4) =
        >>=-eq-ok (update_task_channels cb m1 proc t prev next ch1 s1) _ h3 in
      let last = ok_inj (>>-eq-ok (enforce_task_rules cb m1 proc t bnext ch2) _ h4) in
      let stop : stops t ≡ true → next ≡ none = λ k.
        elim (expand_lem cb ev.v t (not (is_none prev)) next expand k) [
          | inl v ↦ ap (task_of m1) (state_stops ev stack m m1 state v)
          | inr e ↦ e
        ] in
      subst
        (λ (u, f, z). Shows (shown_task u proc (task_of u (body_get_running dl u.bodies stack))) f)
        last
        (set_all-Shows cb (shown_task m1 proc next) ch1 ch2 s1 s2
          (channels_set cb m1 proc t prev next ch1 ch2 s1 s2 channels stop)
          (shown_distinct m1 proc next)
          (ss_takes cb subsystem_chan (nanos6_number task_body) ev.v ch ch1 s s1
            (unfold update_task_ss_channel in ss) takes))
