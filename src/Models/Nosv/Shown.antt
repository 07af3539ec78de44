-- ===== src/Models/Nosv/Shown.antt =====
-- The task events of src/emu/nosv/event.c and the channels that show the running body.
use ovni.Prelude.{
  >>-eq-ok, ℕ, ◌≡◌, refl, sym, ap, ◌∙◌, ◌⊎◌, subst, inl, inr, Bool, true, not, ◌||◌, Option, none,
  some, List, arith, if◌then◌else◌, ◌==◌, ltb, ok, err, or_err, ◌>>=◌, >>=-eq-ok, or_err-eq-ok,
  fail_if-eq-ok, ok_inj, if-cases, Bool-cases, is_none, drop,
}
use ovni.Rt.Bytes.{le_value}
use ovni.Value.{Value}
use ovni.Chan.{Chan}
use ovni.Vendor.{LinkedList, HashTable, update_at}
use ovni.Body.{Bodies, is_running, paused, body_get_running, body_pause, set_state}
use ovni.Body.{body_find}
use ovni.Body.Wellformed.{pause_inv}
use ovni.Task.{Tasks, task_find, task_pause, on_body, pause_failed, no_such_body}
use ovni.Emu.Event.{EmuEv}
use ovni.Models.Nosv.{nosv_number, task_body}
use ovni.Models.Nosv.Tasks.{
  Proc, has_rank, stopped_values, running_values, ch_subsystem, set_all, chan_body_running,
  chan_body_stopped, chan_body_switch, update_task_channels, update_task_ss_channel,
  update_task_state, update_task, expand_transition_value, enforce_task_rules, body_id_of, change,
  change_failed, missing_payload, no_such_task,
}
use ovni.Models.Nosv.Writes.{Shows, TakesValue, are_distinct, set_all-Shows, ss_takes, ss_takes}

-- What the channels of a thread show with the running body of its stack, or without one.
abbrev pub shown_values : {T L : Type 0} → Tasks T L → Proc → Option ℕ → List (ℕ × Value)
shown_values m proc none = stopped_values proc
shown_values m proc (some p) = running_values m proc p

shown_distinct :
    {T L : Type 0} (m : Tasks T L) (proc : Proc) (next : Option ℕ)
    → are_distinct (shown_values m proc next) ≡ true
shown_distinct m proc none = elim (Bool-cases (has_rank proc)) [
  | inl h ↦ rw h refl
  | inr h ↦ rw h refl
]
shown_distinct m proc (some p) = elim (Bool-cases (has_rank proc)) [
  | inl h ↦ rw h refl
  | inr h ↦ rw h refl
]

-- The transitions after which no body runs.
abbrev pub stops : ℕ → Bool
stops t = (t == b'e') || (t == b'p')

module _ {S : Type 0} (cb : ℕ → S → Option S) where
  module _ {T L : Type 0} (m : Tasks T L) (proc : Proc) where
    -- Each of the three handlers that succeeds has called chan_set for the values to show.
    channels_set :
        (t : ℕ) (prev next : Option ℕ) (ch ch' : ℕ → Chan) (s s' : S)
        → update_task_channels cb m proc t prev next ch s ≡ ok (ch', s')
        → (stops t ≡ true → next ≡ none)
        → set_all cb (shown_values m proc next) ch s ≡ ok (ch', s')
    unfolding update_task_channels chan_body_running chan_body_stopped chan_body_switch
    channels_set t prev next ch ch' s s' h stop =
        elim (if-cases ((t == b'x') || (t == b'r')) _ _ h) [
          | inl (hit, h) ↦ runs next h
          | inr (miss, h) ↦ elim (if-cases ((t == b'e') || (t == b'p')) _ _ h) [
            | inl (hit, h) ↦
                subst (λ o. set_all cb (shown_values m proc o) ch s ≡ ok (ch', s')) (sym (stop hit))
                  h
            | inr (miss, h) ↦ elim (if-cases ((t == b'X') || (t == b'E')) _ _ h) [
              | inl (hit, h) ↦ switches prev next h
              | inr (miss, h) ↦ cc
            ]
          ]
        ]
      where
        runs :
            (next : Option ℕ)
            → chan_body_running cb m proc next ch s ≡ ok (ch', s')
            → set_all cb (shown_values m proc next) ch s ≡ ok (ch', s')
        runs none h = cc
        runs (some p) h = ground arith

        switches :
            (prev next : Option ℕ)
            → chan_body_switch cb m proc prev next ch s ≡ ok (ch', s')
            → set_all cb (shown_values m proc next) ch s ≡ ok (ch', s')
        switches none none h = cc
        switches none (some p) h = cc
        switches (some q) none h = cc
        switches (some q) (some p) h = ground arith

  -- The code of a transition that ends a body or pauses it is that of the event, and the latter is not nested.
  pub expand_lem :
      (v t : ℕ) (was : Bool) (next : Option ℕ)
      → expand_transition_value v was (not (is_none next)) ≡ ok t
      → stops t ≡ true
      → ((v ≡ b'p') ⊎ (next ≡ none))
  expand_lem v t was none h k = inr refl
  expand_lem v t was (some p) h k = ground arith

module _ {T L : Type 0} (table : HashTable T) (dl : LinkedList L) where
  paused_top :
      (stack p : ℕ) (m m1 : Bodies L)
      → body_pause dl stack (some p) m ≡ ok m1
      → body_get_running dl m1 stack ≡ none
  unfolding body_get_running set_state
  paused_top stack p m m1 h =
      let (is, _, _, top, _) = pause_inv dl stack p m m1 h in
      ap (λ u. body_get_running dl u stack) is
      ∙ ap
          (λ o. elim o [
            | none ↦ none
            | some q ↦ if is_running ((set_state p paused m).at q).state then some q else none
          ])
          top
      ∙ ap (λ b. if is_running b.state then some p else none)
          (update_at m.at p (record (m.at p) { state = paused }))

  pub pause_stops :
      (stack t id : ℕ) (m m1 : Tasks T L)
      → task_pause table dl stack (some t) id m ≡ ok m1
      → body_get_running dl m1.bodies stack ≡ none
  unfolding task_pause on_body
  pause_stops stack t id m m1 h = go (body_find table (m.task_at t).body_info id) h
    where
      go :
          (o : Option ℕ)
          → elim o [
            | none ↦ err no_such_body
            | some p ↦ or_err pause_failed (body_pause dl stack (some p) m.bodies) >>= λ bodies.
                ok (record m { bodies = bodies })
          ]
            ≡ ok m1
          → body_get_running dl m1.bodies stack ≡ none
      go none h = cc
      go (some p) h =
          let (bodies, e, last) =
            >>=-eq-ok (or_err pause_failed (body_pause dl stack (some p) m.bodies)) _ h in
          ap (λ u. body_get_running dl u.bodies stack) (sym (ok_inj last))
          ∙ paused_top stack p m.bodies bodies (or_err-eq-ok pause_failed _ e)

  state_stops :
      (ev : EmuEv) (stack : ℕ) (m m1 : Tasks T L)
      → update_task_state table dl ev stack m ≡ ok m1
      → ev.v ≡ b'p'
      → body_get_running dl m1.bodies stack ≡ none
  unfolding update_task_state
  state_stops ev stack m m1 h v =
      let (a, h1) = fail_if-eq-ok (ltb ev.payload_size 4) missing_payload _ h in
      let (b, h2) = fail_if-eq-ok (ltb ev.payload_size 8) missing_payload _ h1 in
      go (task_find table m.tasks (le_value 4 ev.payload)) h2
    where
      go :
          (o : Option ℕ)
          → elim o [
            | none ↦ err no_such_task
            | some t ↦ do
              id ← body_id_of table dl (m.task_at t) (le_value 4 (drop 4 ev.payload))
              change table dl ev.v stack t id m
          ]
            ≡ ok m1
          → body_get_running dl m1.bodies stack ≡ none
      go none h = cc
      go (some t) h =
          let (id, e, last) =
            >>=-eq-ok (body_id_of table dl (m.task_at t) (le_value 4 (drop 4 ev.payload))) _ h in
          pause_stops stack t id m m1
            (or_err-eq-ok change_failed _ (ap (λ n. change table dl n stack t id m) (sym v) ∙ last))

  -- After a task event of nosv that is taken without an error, where the channels of the thread are settled
  -- and allow no dirty writes or take duplicates, they show the body that runs on the stack of the thread, with
  -- its task, its type and the process, or null if none runs.
  pub update_task-Shows :
      {S : Type 0} (cb : ℕ → S → Option S) (proc : Proc) (stack : ℕ) (ev : EmuEv) (m m' : Tasks T L)
      (ch ch' : ℕ → Chan) (s s' : S)
      → ((j : ℕ) → TakesValue (ch j))
      → update_task table dl cb proc stack ev m ch s ≡ ok (m', ch', s')
      → Shows (shown_values m' proc (body_get_running dl m'.bodies stack)) ch'
  unfolding update_task
  update_task-Shows cb proc stack ev m m' ch ch' s s' takes h =
      let prev = body_get_running dl m.bodies stack in
      let (m1, state, h1) = >>=-eq-ok (update_task_state table dl ev stack m) _ h in
      let next = body_get_running dl m1.bodies stack in
      let ((ch1, s1), ss, h2) = >>=-eq-ok (update_task_ss_channel cb ev.v ch s) _ h1 in
      let (t, expand, h3) =
        >>=-eq-ok (expand_transition_value ev.v (not (is_none prev)) (not (is_none next))) _ h2 in
      let ((ch2, s2), channels, h4) =
        >>=-eq-ok (update_task_channels cb m1 proc t prev next ch1 s1) _ h3 in
      let last = ok_inj (>>-eq-ok (enforce_task_rules cb m1 proc t next ch2) _ h4) in
      let stop : stops t ≡ true → next ≡ none = λ k.
        elim (expand_lem cb ev.v t (not (is_none prev)) next expand k) [
          | inl v ↦ state_stops ev stack m m1 state v
          | inr e ↦ e
        ] in
      subst (λ (u, f, z). Shows (shown_values u proc (body_get_running dl u.bodies stack)) f) last
        (set_all-Shows cb (shown_values m1 proc next) ch1 ch2 s1 s2
          (channels_set cb m1 proc t prev next ch1 ch2 s1 s2 channels stop)
          (shown_distinct m1 proc next)
          (ss_takes cb ch_subsystem (nosv_number task_body) ev.v ch ch1 s s1
            (unfold update_task_ss_channel in ss) takes))
