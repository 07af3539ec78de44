-- ===== src/Ovni/Leaving.antt =====
-- A thread that leaves its CPU, for good or for another one, in the handlers of src/emu/ovni/event.c.
use ovni.Prelude.{
  ℕ, suc, ◌^◌, ◌<◌, ◌≡◌, refl, sym, subst, ap, ◌∙◌, Option, none, some, ok, or_err, arith, inl, inr,
  eq-cases, >>=-eq-ok, or_err-eq-ok, ok_pair,
}
use ovni.Prelude.Int.{ℤ}
use ovni.Vendor.{LinkedList, IsLinkedList, update, update_at, update_other}
use ovni.Thread.{Thread}
use ovni.Cpu.{Cpu, cpu_add_thread, cpu_remove_thread, cpu_migrate_thread, remove_failed, add_failed}
use ovni.Cpu.Alike.{Alike, same-Alike}
use ovni.Cpu.Numbers.{add_thread-gindex, remove_thread-gindex}
use ovni.Ovni.Places.{InPlace, Alike-InPlace, add-InPlace, remove-InPlace}
use ovni.Ovni.Shown.{IsInOrder}
use ovni.Ovni.Moves.{IsOrdered, threads_after, numbers_after, update-OnlyAt, then-OnlyAt}

itself : (th : Thread) → Alike th th
itself th = same-Alike refl

module _ {L : Type 0} (dl : LinkedList L) (law : IsLinkedList dl) (pid_of : ℕ → ℤ) (gi : ℕ → ℤ)
    {S : Type 0} (cb : ℕ → S → Option S) (k p : ℕ) (at : ℕ → Thread) (cpus : ℕ → Cpu L)
    (small : k < 2 ^ 64) (i : IsOrdered dl pid_of gi k at cpus) (c : ℕ)
    (was : (at p).cpu ≡ some c) where
  -- The thread is `th1` while the CPU forgets it, and `th2` at the end, when it points to no CPU.
  pub end-IsOrdered :
      (th1 th2 : Thread) (cpu : Cpu L) (s s' : S)
      → IsInOrder gi th2
      → th2.cpu ≡ none
      → cpu_remove_thread dl (update at p th1) pid_of cb (cpus c) p s ≡ ok (cpu, s')
      → IsOrdered dl pid_of gi k (update (update at p th1) p th2) (update cpus c cpu)
  end-IsOrdered th1 th2 cpu s s' now is h =
      let at1 = update at p th1 in
      let at2 = update at1 p th2 in
      let o1 = update-OnlyAt p th1 at in
      let o2 = update-OnlyAt p th2 at1 in
      let o = then-OnlyAt p th1 th2 at at1 o1 in
      record {
        threads = threads_after dl pid_of gi p th2 at at2 o now i.threads;
        numbers =
            numbers_after dl pid_of gi cpus c cpu i.numbers
              (remove_thread-gindex dl at1 pid_of cb _ cpu p s s' h);
        places =
            Alike-InPlace dl pid_of k (λ q. (at2 q).cpu) (λ q. (at2 q).cpu) at1 at2
              (update cpus c cpu) (λ q. refl)
              (λ q d e. elim (eq-cases q p) [
                | inl s ↦
                    let gone : (at2 q).cpu ≡ none =
                      ap (λ r. (at2 r).cpu) s ∙ ap (λ u. u.cpu) o2.it ∙ is in
                    ground (arith, gone, e)
                | inr n ↦ same-Alike (o2.rest q n)
              ])
              (remove-InPlace dl pid_of law cb k (λ q. (at q).cpu) (λ q. (at2 q).cpu) at at1 cpus c
                p (λ q n. ap (λ u. u.cpu) (o.rest q n)) (λ q n. same-Alike (o1.rest q n)) i.places
                was cpu s s' small (ap (λ u. u.cpu) o2.it ∙ is) h);
      }

  -- The CPU lets the thread go and the other one, or the same, takes it; then the thread follows.
  pub migrate-IsOrdered :
      (n : ℕ) (th : Thread) (cpus' : ℕ → Cpu L) (s s' : S)
      → IsInOrder gi th
      → th.cpu ≡ some n
      → Alike (at p) th
      → cpu_migrate_thread dl at pid_of cb cpus c p n s ≡ ok (cpus', s')
      → IsOrdered dl pid_of gi (suc k) (update at p th) cpus'
  unfolding cpu_migrate_thread
  migrate-IsOrdered n th cpus' s s' now is alike h =
      let ((old, s1), left, rest) =
        >>=-eq-ok (or_err remove_failed (cpu_remove_thread dl at pid_of cb (cpus c) p s)) _ h in
      let cpus1 = update cpus c old in
      let ((new, s2), entered, last) =
        >>=-eq-ok (or_err add_failed (cpu_add_thread dl at pid_of cb (cpus1 n) p s1)) _ rest in
      let removed = or_err-eq-ok remove_failed _ left in
      let added = or_err-eq-ok add_failed _ entered in
      let at' = update at p th in
      let o = update-OnlyAt p th at in
      let loc : ℕ → Option ℕ = λ q. (at q).cpu in
      let loc1 = update loc p none in
      let loc2 : ℕ → Option ℕ = λ q. (at' q).cpu in
      let places1 : InPlace dl pid_of k loc1 at cpus1 =
        remove-InPlace dl pid_of law cb k loc loc1 at at cpus c p (update_other loc p none)
          (λ q m. itself (at q)) i.places was old s s1 small (update_at loc p none) removed in
      let places2 : InPlace dl pid_of (suc k) loc2 at (update cpus1 n new) =
        add-InPlace dl pid_of law cb k loc1 loc2 at at cpus1 n p
          (λ q m. ap (λ u. u.cpu) (o.rest q m) ∙ sym (update_other loc p none q m))
          (λ q m. itself (at q)) new s1 s2 places1 (update_at loc p none)
          (ap (λ u. u.cpu) o.it ∙ is) added in
      let numbers1 =
        numbers_after dl pid_of gi cpus c old i.numbers
          (remove_thread-gindex dl at pid_of cb _ old p s s1 removed) in
      subst (IsOrdered dl pid_of gi (suc k) at') ((ok_pair last).0) (record {
        threads = threads_after dl pid_of gi p th at at' o now i.threads;
        numbers =
            numbers_after dl pid_of gi cpus1 n new numbers1
              (add_thread-gindex dl at pid_of cb _ new p s1 s2 added);
        places =
            Alike-InPlace dl pid_of (suc k) loc2 loc2 at at' (update cpus1 n new) (λ q. refl)
              (λ q d e. elim (eq-cases q p) [
                | inl s ↦
                    subst (Alike (at q)) (sym (ap at' s ∙ o.it))
                      (subst (λ r. Alike (at r) th) (sym s) alike)
                | inr m ↦ same-Alike (o.rest q m)
              ])
              places2;
      })
