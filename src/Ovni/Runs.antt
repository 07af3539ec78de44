-- ===== src/Ovni/Runs.antt =====
-- Each event that model_ovni_event of src/emu/ovni/event.c takes keeps the threads and the CPUs in order.
use ovni.Prelude.{
  ℕ, suc, ◌^◌, ◌<◌, ◌≡◌, refl, subst, not, ◌||◌, ◌==◌, Option, ok, or_err, fail_if-eq-ok, >>=-eq-ok,
  ok_inj, if-cases, inl, inr,
}
use ovni.Prelude.Int.{ℤ, pos, eq_ℤ}
use ovni.Value.{Value, value_int64, value_null}
use ovni.Chan.{chan_set}
use ovni.Vendor.{LinkedList, IsLinkedList, HashTable}
use ovni.Thread.{running, paused, cooling, warming, is_running_state}
use ovni.Emu.Event.{payload_i32, payload_i64}
use ovni.Emu.{
  Emu, from_option, chan_failed, find_mark_type, wrong_payload_size, not_on_cpu, not_active,
  is_dead, is_unknown, too_many_bursts, no_such_mark, zero_mark, wrong_model, out_of_cpu,
}
use ovni.Ovni.Handlers.{
  get_cpu, pre_thread, pre_affinity, pre_affinity_set, pre_affinity_remote, find_remote,
  pre_thread_pause, pre_thread_resume, pre_thread_cool, pre_thread_warm, is_cooling_state,
  is_paused_state, is_warming_state, is_dead_state, is_unknown_state,
}
use ovni.Ovni.Data.{pre_burst, pre_flush, set_flush, start_flush, mark_event, mark_chan, current}
use ovni.Ovni.Event.{model_ovni_event, pre_cpu}
use ovni.Ovni.Moves.{more}
use ovni.Ovni.Invariant.{
  Ordered, from_option-eq-ok, execute-Ordered, end-Ordered, change-Ordered, migrate-Ordered,
}

module _ {L T S : Type 0} (dl : LinkedList L) (law : IsLinkedList dl) (pid_of : ℕ → ℤ) (gi : ℕ → ℤ)
    (cb : ℕ → S → Option S) where
  abbrev Good : ℕ → Emu L T S → Type 0
  Good k emu = Ordered dl law pid_of gi cb k emu

  module _ (k : ℕ) (emu out : Emu L T S) (small : k < 2 ^ 64) (i : Good k emu) where
    later : Good k out → Good (suc k) out
    later g = more dl pid_of gi k out.threads out.cpus g

    thread-Ordered : pre_thread dl pid_of cb emu ≡ ok out → Good (suc k) out
    unfolding pre_thread pre_thread_pause pre_thread_resume pre_thread_cool pre_thread_warm
    thread-Ordered h =
        let p = emu.thread in
        let changes = change-Ordered dl law pid_of gi cb k emu out small i in
        elim (if-cases (emu.ev.v == b'C') _ _ h) [
          | inl (hit, a) ↦ later (subst (Good k) (ok_inj a) i)
          | inr (miss, h) ↦ elim (if-cases (emu.ev.v == b'x') _ _ h) [
            | inl (hit, a) ↦ execute-Ordered dl law pid_of gi cb k emu out small i p a
            | inr (miss, h) ↦ elim (if-cases (emu.ev.v == b'e') _ _ h) [
              | inl (hit, a) ↦ later (end-Ordered dl law pid_of gi cb k emu out small i p a)
              | inr (miss, h) ↦ elim (if-cases (emu.ev.v == b'p') _ _ h) [
                | inl (hit, a) ↦
                    later
                      (changes (λ st. is_running_state st || is_cooling_state st) paused p refl a)
                | inr (miss, h) ↦ elim (if-cases (emu.ev.v == b'r') _ _ h) [
                  | inl (hit, a) ↦
                      later
                        (changes (λ st. is_paused_state st || is_warming_state st) running p refl a)
                  | inr (miss, h) ↦ elim (if-cases (emu.ev.v == b'c') _ _ h) [
                    | inl (hit, a) ↦ later (changes is_running_state cooling p refl a)
                    | inr (miss, h) ↦ elim (if-cases (emu.ev.v == b'w') _ _ h) [
                      | inl (hit, a) ↦ later (changes is_paused_state warming p refl a)
                      | inr (miss, h) ↦ cc
                    ]
                  ]
                ]
              ]
            ]
          ]
        ]

    set-Ordered : pre_affinity_set dl pid_of cb emu ≡ ok out → Good (suc k) out
    unfolding pre_affinity_set
    set-Ordered h =
        let th = emu.threads emu.thread in
        let (c, points, h1) = >>=-eq-ok (from_option not_on_cpu th.cpu) _ h in
        let (active, h2) = fail_if-eq-ok (not th.is_active) not_active _ h1 in
        let (sized, h3) = fail_if-eq-ok (not (emu.ev.payload_size == 4)) wrong_payload_size _ h2 in
        let (new, found, h4) = >>=-eq-ok (get_cpu dl pid_of cb emu (payload_i32 emu.ev 0)) _ h3 in
        elim (if-cases (c == new) _ _ h4) [
          | inl (hit, a) ↦ later (subst (Good k) (ok_inj a) i)
          | inr (miss, a) ↦
              migrate-Ordered dl law pid_of gi cb k emu out small i c emu.thread new
                (from_option-eq-ok not_on_cpu th.cpu points) a
        ]

    remote-Ordered :
        (h : HashTable T) → pre_affinity_remote dl pid_of cb h emu ≡ ok out → Good (suc k) out
    unfolding pre_affinity_remote
    remote-Ordered t h =
        let (sized, h1) = fail_if-eq-ok (not (emu.ev.payload_size == 8)) wrong_payload_size _ h in
        let (p, found, h2) =
          >>=-eq-ok (find_remote dl pid_of cb t emu (payload_i32 emu.ev 1)) _ h1 in
        let th = emu.threads p in
        let (alive, h3) = fail_if-eq-ok (is_dead_state th.state) is_dead _ h2 in
        let (known, h4) = fail_if-eq-ok (is_unknown_state th.state) is_unknown _ h3 in
        let (c, points, h5) = >>=-eq-ok (from_option not_on_cpu th.cpu) _ h4 in
        let (new, cpu, h6) = >>=-eq-ok (get_cpu dl pid_of cb emu (payload_i32 emu.ev 0)) _ h5 in
        migrate-Ordered dl law pid_of gi cb k emu out small i c p new
          (from_option-eq-ok not_on_cpu th.cpu points) h6

    affinity-Ordered :
        (h : HashTable T) → pre_affinity dl pid_of cb h emu ≡ ok out → Good (suc k) out
    unfolding pre_affinity
    affinity-Ordered t h = elim (if-cases (emu.ev.v == b's') _ _ h) [
      | inl (hit, a) ↦ set-Ordered a
      | inr (miss, h) ↦ elim (if-cases (emu.ev.v == b'r') _ _ h) [
        | inl (hit, a) ↦ remote-Ordered t a
        | inr (miss, h) ↦ cc
      ]
    ]

    burst-Ordered : pre_burst emu ≡ ok out → Good k out
    unfolding pre_burst
    burst-Ordered h =
        let (room, last) = fail_if-eq-ok _ too_many_bursts _ h in subst (Good k) (ok_inj last) i

    set_flush-Ordered : (v : Value) (o : Emu L T S) → set_flush cb v emu ≡ ok o → Good k o
    unfolding set_flush
    set_flush-Ordered v o h =
        let ((c, s), first, last) =
          >>=-eq-ok (or_err chan_failed (chan_set cb (current emu).flush v emu.bay)) _ h in
        subst (Good k) (ok_inj last) i

    flush-Ordered : pre_flush cb emu ≡ ok out → Good k out
    unfolding pre_flush start_flush
    flush-Ordered h = elim (if-cases (emu.ev.v == b'[') _ _ h) [
      | inl (hit, a) ↦
          let (o, first, last) = >>=-eq-ok (set_flush cb (value_int64 (pos 1)) emu) _ a in
          subst (Good k) (ok_inj last) (set_flush-Ordered (value_int64 (pos 1)) o first)
      | inr (miss, h) ↦ elim (if-cases (emu.ev.v == b']') _ _ h) [
        | inl (hit, a) ↦ set_flush-Ordered value_null out a
        | inr (miss, h) ↦ cc
      ]
    ]

    mark-Ordered : (h : HashTable T) → mark_event cb h emu ≡ ok out → Good k out
    unfolding mark_event
    mark-Ordered t h =
        let (sized, h1) = fail_if-eq-ok (not (emu.ev.payload_size == 12)) wrong_payload_size _ h in
        let (mc, found, h2) =
          >>=-eq-ok (from_option no_such_mark (find_mark_type t emu.types (payload_i32 emu.ev 2))) _
            h1 in
        let value = payload_i64 emu.ev 0 in
        let (nonzero, h3) = fail_if-eq-ok (eq_ℤ value (pos 0)) zero_mark _ h2 in
        let chan = (current emu).channels (emu.mark_types mc).index in
        let ((c, s), first, last) =
          >>=-eq-ok (mark_chan cb emu.ev.v chan (value_int64 value) emu.bay) _ h3 in
        subst (Good k) (ok_inj last) i

    cpu-Ordered : pre_cpu emu ≡ ok out → Good k out
    unfolding pre_cpu
    cpu-Ordered h = elim (if-cases (emu.ev.v == b'n') _ _ h) [
      | inl (hit, a) ↦ subst (Good k) (ok_inj a) i
      | inr (miss, a) ↦ cc
    ]

    pub event-Ordered :
        (h : HashTable T) → model_ovni_event dl h pid_of cb emu ≡ ok out → Good (suc k) out
    unfolding model_ovni_event
    event-Ordered t h =
        let (model, h1) = fail_if-eq-ok (not (emu.ev.m == b'O')) wrong_model _ h in
        let (in_cpu, h2) = fail_if-eq-ok (emu.threads emu.thread).is_out_of_cpu out_of_cpu _ h1 in
        let c = emu.ev.c in
        elim (if-cases (c == b'H') _ _ h2) [
          | inl (hit, a) ↦ thread-Ordered a
          | inr (miss, h) ↦ elim (if-cases (c == b'A') _ _ h) [
            | inl (hit, a) ↦ affinity-Ordered t a
            | inr (miss, h) ↦ elim (if-cases (c == b'B') _ _ h) [
              | inl (hit, a) ↦ later (burst-Ordered a)
              | inr (miss, h) ↦ elim (if-cases (c == b'C') _ _ h) [
                | inl (hit, a) ↦ later (cpu-Ordered a)
                | inr (miss, h) ↦ elim (if-cases (c == b'F') _ _ h) [
                  | inl (hit, a) ↦ later (flush-Ordered a)
                  | inr (miss, h) ↦ elim (if-cases (c == b'U') _ _ h) [
                    | inl (hit, a) ↦ later (subst (Good k) (ok_inj a) i)
                    | inr (miss, h) ↦ elim (if-cases (c == b'M') _ _ h) [
                      | inl (hit, a) ↦ later (mark-Ordered t a)
                      | inr (miss, h) ↦ cc
                    ]
                  ]
                ]
              ]
            ]
          ]
        ]
