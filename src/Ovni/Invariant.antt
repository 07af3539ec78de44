-- ===== src/Ovni/Invariant.antt =====
-- The handlers of src/emu/ovni/event.c keep the threads and the CPUs in order.
use ovni.Prelude.{
  ℕ, suc, ◌^◌, ◌<◌, ◌≡◌, sym, subst, ap, ◌∙◌, Bool, false, not, ◌||◌, ltb, Option, none, some, ok,
  or_err, fail_if-eq-ok, >>=-eq-ok, or_err-eq-ok, ok_inj,
}
use ovni.Prelude.Int.{ℤ}
use ovni.Vendor.{LinkedList, IsLinkedList, update, update_at}
use ovni.Thread.{
  ThreadState, running, dead, thread_set_cpu, thread_set_state, thread_unset_cpu,
  thread_migrate_cpu, is_running_state,
}
use ovni.Cpu.{cpu_update, cpu_add_thread, cpu_remove_thread, cpu_migrate_thread}
use ovni.Emu.Event.{payload_i32}
use ovni.Emu.{
  Emu, EmuError, on_thread, from_option, cpu_failed, crash, wrong_state, missing_payload,
}
use ovni.Ovni.Handlers.{
  get_cpu, gindex_of, update_cpu_of, pre_thread_execute, pre_thread_end, change_state,
  is_cooling_state, migrate,
}
use ovni.Ovni.Shown.{
  IsInOrder, is_away, execute-IsInOrder, end-IsInOrder, change-IsInOrder, migrate-IsInOrder,
}
use ovni.Ovni.Moves.{
  IsOrdered, update-OnlyAt, then-OnlyAt, with_thread, on_thread-then, on_cpu-then, last_call,
  add-IsOrdered, update-IsOrdered,
}
use ovni.Ovni.Leaving.{end-IsOrdered, migrate-IsOrdered}

-- A pointer that is not null.
pub from_option-eq-ok {ℓ} :
    {A : Type ℓ} (e : EmuError) (o : Option A) {a : A} → from_option e o ≡ ok a → o ≡ some a
from_option-eq-ok e none h = cc
from_option-eq-ok e (some a) h = ap some (ok_inj h)

module _ {L T S : Type 0} (dl : LinkedList L) (law : IsLinkedList dl) (pid_of : ℕ → ℤ) (gi : ℕ → ℤ)
    (cb : ℕ → S → Option S) where
  -- The state of the emulator, after at most `k` events.
  abbrev pub Ordered : ℕ → Emu L T S → Type 0
  Ordered k emu = IsOrdered dl pid_of gi k emu.threads emu.cpus

  module _ (k : ℕ) (emu out : Emu L T S) (small : k < 2 ^ 64) (i : Ordered k emu) where
    pub execute-Ordered :
        (p : ℕ) → pre_thread_execute dl pid_of cb emu p ≡ ok out → Ordered (suc k) out
    unfolding pre_thread_execute
    execute-Ordered p h =
        let (idle, h1) = fail_if-eq-ok (is_running_state (emu.threads p).state) wrong_state _ h in
        let (sized, h2) = fail_if-eq-ok (ltb emu.ev.payload_size 4) missing_payload _ h1 in
        let (c, found, h3) = >>=-eq-ok (get_cpu dl pid_of cb emu (payload_i32 emu.ev 0)) _ h2 in
        let (th1, s1, set, h4) =
          on_thread-then p (λ th s. thread_set_cpu cb (gindex_of dl pid_of cb emu) th (some c) s)
            emu _ h3 in
        let (th2, s2, run, h5) =
          on_thread-then p (λ th s. thread_set_state cb th running s) (with_thread emu p th1 s1) _
            h4 in
        let at2 = update (update emu.threads p th1) p th2 in
        let (cpu, s3, added, last) =
          on_cpu-then c (λ u s. cpu_add_thread dl at2 pid_of cb u p s) _ ok (last_call _ h5) in
        let ran =
          subst (λ u. thread_set_state cb u running s1 ≡ ok (th2, s2)) (update_at _ p th1) run in
        let (now, was, is) =
          execute-IsInOrder cb (gindex_of dl pid_of cb emu) gi i.numbers c (emu.threads p) th1 th2
            emu.bay s1 s2 (IsInOrder.channels (i.threads p)) set ran in
        subst (Ordered (suc k)) (ok_inj last) (
          add-IsOrdered dl pid_of gi law cb k p th2 emu.threads at2 emu.cpus
            (then-OnlyAt p th1 th2 emu.threads _ (update-OnlyAt p th1 emu.threads)) now i c cpu s2
            s3 was is added)

    pub end-Ordered : (p : ℕ) → pre_thread_end dl pid_of cb emu p ≡ ok out → Ordered k out
    unfolding pre_thread_end
    end-Ordered p h =
        let (busy, h1) =
          fail_if-eq-ok
            (not (is_running_state (emu.threads p).state || is_cooling_state (emu.threads p).state))
            wrong_state _ h in
        let (th1, s1, stop, h2) =
          on_thread-then p (λ th s. thread_set_state cb th dead s) emu _ h1 in
        let at1 = update emu.threads p th1 in
        let (c, points, h3) = >>=-eq-ok (from_option crash (at1 p).cpu) _ h2 in
        let (cpu, s2, removed, h4) =
          on_cpu-then c (λ u s. cpu_remove_thread dl at1 pid_of cb u p s) (with_thread emu p th1 s1)
            (on_thread p (thread_unset_cpu cb)) h3 in
        let (th2, s3, unset, last) = on_thread-then p (thread_unset_cpu cb) _ ok (last_call _ h4) in
        let unset' =
          subst (λ u. thread_unset_cpu cb u s2 ≡ ok (th2, s3)) (update_at emu.threads p th1)
            unset in
        let (now, kept, gone) =
          end-IsInOrder cb (gindex_of dl pid_of cb emu) gi i.numbers (emu.threads p) th1 th2 emu.bay
            s1 s2 s3 (IsInOrder.channels (i.threads p)) stop unset' in
        let was =
          sym kept
          ∙ ap (λ u. u.cpu) (sym (update_at emu.threads p th1))
          ∙ from_option-eq-ok crash (at1 p).cpu points in
        subst (Ordered k) (ok_inj last) (
          end-IsOrdered dl law pid_of gi cb k p emu.threads emu.cpus small i c was th1 th2 cpu s1 s2
            now gone removed)

    pub change-Ordered :
        (allowed : ThreadState → Bool) (state : ThreadState) (p : ℕ)
        → is_away state ≡ false
        → change_state dl pid_of cb allowed state emu p ≡ ok out
        → Ordered k out
    unfolding change_state update_cpu_of
    change-Ordered allowed state p stays h =
        let (may, h1) = fail_if-eq-ok (not (allowed (emu.threads p).state)) wrong_state _ h in
        let (th, s1, set, h2) =
          on_thread-then p (λ th s. thread_set_state cb th state s) emu _ h1 in
        let at1 = update emu.threads p th in
        let (c, points, h3) = >>=-eq-ok (from_option crash (at1 p).cpu) _ h2 in
        let (cpu, s2, updated, last) =
          on_cpu-then c (cpu_update dl at1 pid_of cb) _ ok (last_call _ h3) in
        let (now, kept, same) =
          change-IsInOrder cb (gindex_of dl pid_of cb emu) gi i.numbers state (emu.threads p) th
            emu.bay s1 (i.threads p) stays set in
        let is =
          ap (λ u. u.cpu) (sym (update_at emu.threads p th))
          ∙ from_option-eq-ok crash (at1 p).cpu points in
        subst (Ordered k) (ok_inj last) (
          update-IsOrdered dl pid_of gi law cb k p th emu.threads at1 emu.cpus
            (update-OnlyAt p th emu.threads) now i c cpu s1 s2 (sym kept ∙ is) is updated)

    pub migrate-Ordered :
        (c p new : ℕ)
        → (emu.threads p).cpu ≡ some c
        → migrate dl pid_of cb emu c p new ≡ ok out
        → Ordered (suc k) out
    unfolding migrate
    migrate-Ordered c p new was h =
        let ((cpus, s1), moved, h1) =
          >>=-eq-ok
            (or_err cpu_failed
              (cpu_migrate_thread dl emu.threads pid_of cb emu.cpus c p new emu.bay))
            _ h in
        let (th, s2, follows, last) =
          on_thread-then p (λ th s. thread_migrate_cpu cb (gindex_of dl pid_of cb emu) th new s)
            (record emu { cpus = cpus; bay = s1 }) ok (last_call _ h1) in
        let (now, is, alike) =
          migrate-IsInOrder cb (gindex_of dl pid_of cb emu) gi i.numbers new (emu.threads p) th s1
            s2 (i.threads p) follows in
        subst (Ordered (suc k)) (ok_inj last) (
          migrate-IsOrdered dl law pid_of gi cb k p emu.threads emu.cpus small i c was new th cpus
            emu.bay s1 now is alike (or_err-eq-ok cpu_failed _ moved))
