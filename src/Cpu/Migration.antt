-- ===== src/Cpu/Migration.antt =====
-- `cpu_migrate_thread` of src/emu/cpu.c between two CPUs.
use ovni.Prelude.{
  ℕ, ◌^◌, ◌<◌, ◌≡◌, ◌≢◌, sym, subst, ap, ◌∙◌, Option, [], ◌∷◌, ◌++◌, length, ok, or_err,
  or_err-eq-ok, >>=-eq-ok, ok_pair,
}
use ovni.Prelude.Int.{ℤ}
use ovni.Vendor.{LinkedList, IsLinkedList, Member, remove, update, update_at, update_other}
use ovni.Thread.{Thread}
use ovni.Cpu.{Cpu, cpu_add_thread, cpu_remove_thread, cpu_migrate_thread, remove_failed, add_failed}
use ovni.Cpu.Shown.{ShowsThreads, HasPlainChans}
use ovni.Cpu.Threads.{IsListed, on, add_lem, remove_lem}

module _ {L : Type 0} (dl : LinkedList L) where
  -- A CPU whose list and channels are in order.
  pub record IsReady (cpu : Cpu L) : Type 0 where
    pub listed : IsListed dl cpu
    pub plain : HasPlainChans cpu
    pub small : length (on dl cpu) < 2 ^ 64

  module _ (law : IsLinkedList dl) (at : ℕ → Thread) (pid_of : ℕ → ℤ) {S : Type 0}
      (cb : ℕ → S → Option S) where
    -- A thread that migrates with success between two different CPUs was on the first and not on the
    -- second one. It leaves the list of the first for the end of the list of the second, both show the
    -- threads that run on them then, and no other CPU changes.
    pub migrate_lem :
        (cpus cpus' : ℕ → Cpu L) (c t n : ℕ) (s s' : S)
        → c ≢ n
        → IsReady (cpus c)
        → IsReady (cpus n)
        → cpu_migrate_thread dl at pid_of cb cpus c t n s ≡ ok (cpus', s')
        → Member t (on dl (cpus c))
          × ¬ (Member t (on dl (cpus n)))
          × (on dl (cpus' c) ≡ remove t (on dl (cpus c)))
          × (on dl (cpus' n) ≡ on dl (cpus n) ++ (t ∷ []))
          × ShowsThreads dl at pid_of (cpus' c)
          × ShowsThreads dl at pid_of (cpus' n)
          × ((k : ℕ) → k ≢ c → k ≢ n → cpus' k ≡ cpus k)
    unfolding cpu_migrate_thread
    migrate_lem cpus cpus' c t n s s' apart first second h =
        let ((old, s1), left, rest) =
          >>=-eq-ok (or_err remove_failed (cpu_remove_thread dl at pid_of cb (cpus c) t s)) _ h in
        let ((new, s2), entered, last) =
          >>=-eq-ok (or_err add_failed (cpu_add_thread dl at pid_of cb (update cpus c old n) t s1))
            _ rest in
        let (same, out) = ok_pair last in
        let there : update cpus c old n ≡ cpus n = update_other cpus c old n (λ e. apart (sym e)) in
        let (was_on, shorter, listed, shows, plain) =
          remove_lem dl law at pid_of cb (cpus c) old t s s1 first.listed first.small first.plain
            (or_err-eq-ok remove_failed _ left) in
        let (was_off, longer, listed', shows', plain') =
          add_lem dl law at pid_of cb (cpus n) new t s1 s2 second.listed second.plain (
            ap (λ u. cpu_add_thread dl at pid_of cb u t s1) (sym there)
            ∙ or_err-eq-ok add_failed _ entered) in
        let at_c : cpus' c ≡ old =
          ap (λ f. f c) (sym same)
          ∙ update_other (update cpus c old) n new c apart
          ∙ update_at cpus c old in
        let at_n : cpus' n ≡ new = ap (λ f. f n) (sym same) ∙ update_at (update cpus c old) n new in
        (
          was_on,
          was_off,
          ap (on dl) at_c ∙ shorter,
          ap (on dl) at_n ∙ longer,
          subst (ShowsThreads dl at pid_of) (sym at_c) shows,
          subst (ShowsThreads dl at pid_of) (sym at_n) shows',
          λ k o o'.
              ap (λ f. f k) (sym same)
              ∙ update_other (update cpus c old) n new k o'
              ∙ update_other cpus c old k o,
        )
