-- ===== src/Cpu/Numbers.antt =====
-- The number of a CPU stays under the calls of src/emu/cpu.c.
use ovni.Prelude.{
  ℕ, ◌≡◌, sym, ap, Option, ok, or_err, >>=-eq-ok, or_err-eq-ok, fail_if-eq-ok, ok_pair, not, ◌&&◌,
  ltb,
}
use ovni.Prelude.Int.{ℤ}
use ovni.Vendor.{LinkedList}
use ovni.Thread.{Thread}
use ovni.Chan.{chan_set}
use ovni.Cpu.{
  Cpu, cpu_update, cpu_add_thread, cpu_remove_thread, find_thread, scan, no_threads, oversubscribed,
  chan_set_failed, already_assigned, missing_thread, update_failed,
}

module _ {L : Type 0} (dl : LinkedList L) (at : ℕ → Thread) (pid_of : ℕ → ℤ) {S : Type 0}
    (cb : ℕ → S → Option S) where
  pub cpu_update-gindex :
      (cpu cpu' : Cpu L) (s s' : S)
      → cpu_update dl at pid_of cb cpu s ≡ ok (cpu', s')
      → cpu'.gindex ≡ cpu.gindex
  unfolding cpu_update
  cpu_update-gindex cpu cpu' s s' h =
      let c = scan at (dl.elems cpu.threads) no_threads in
      let (allowed, rest) =
        fail_if-eq-ok (ltb 1 c.running && not cpu.is_virtual) oversubscribed _ h in
      let ((tid, s1), r1, rest1) =
        >>=-eq-ok (or_err chan_set_failed (chan_set cb cpu.chan_tid _ s)) _ rest in
      let ((pid, s2), r2, rest2) =
        >>=-eq-ok (or_err chan_set_failed (chan_set cb cpu.chan_pid _ s1)) _ rest1 in
      let ((thrun, s3), r3, rest3) =
        >>=-eq-ok (or_err chan_set_failed (chan_set cb cpu.chan_thrun _ s2)) _ rest2 in
      let ((nrun, s4), r4, rest4) =
        >>=-eq-ok (or_err chan_set_failed (chan_set cb cpu.chan_nrun _ s3)) _ rest3 in
      let ((thact, s5), r5, last) =
        >>=-eq-ok (or_err chan_set_failed (chan_set cb cpu.chan_thact _ s4)) _ rest4 in
      ap (λ u. u.gindex) (sym ((ok_pair last).0))

  pub add_thread-gindex :
      (cpu cpu' : Cpu L) (t : ℕ) (s s' : S)
      → cpu_add_thread dl at pid_of cb cpu t s ≡ ok (cpu', s')
      → cpu'.gindex ≡ cpu.gindex
  unfolding cpu_add_thread
  add_thread-gindex cpu cpu' t s s' h =
      let (absent, rest) =
        fail_if-eq-ok (find_thread (dl.elems cpu.threads) t) already_assigned _ h in
      cpu_update-gindex _ cpu' s s' (or_err-eq-ok update_failed _ rest)

  pub remove_thread-gindex :
      (cpu cpu' : Cpu L) (t : ℕ) (s s' : S)
      → cpu_remove_thread dl at pid_of cb cpu t s ≡ ok (cpu', s')
      → cpu'.gindex ≡ cpu.gindex
  unfolding cpu_remove_thread
  remove_thread-gindex cpu cpu' t s s' h =
      let (there, rest) =
        fail_if-eq-ok (not (find_thread (dl.elems cpu.threads) t)) missing_thread _ h in
      cpu_update-gindex _ cpu' s s' (or_err-eq-ok update_failed _ rest)
