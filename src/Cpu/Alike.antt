-- ===== src/Cpu/Alike.antt =====
-- What a CPU of src/emu/cpu.c shows depends on the states and the numbers of the threads of its list.
use ovni.Prelude.{
  ℕ, ◌≡◌, refl, ap, ◌∙◌, subst, sym, Bool, Option, none, some, List, [], ◌∷◌, length, inl, inr, ◌≤◌,
  Bool-cases,
}
use ovni.Prelude.Int.{ℤ, pos}
use ovni.Value.{value_int64}
use ovni.Vendor.{LinkedList, Member}
use ovni.Thread.{Thread, ThreadState, is_running_state, is_active_state}
use ovni.Cpu.{Cpu, thread_value}
use ovni.Cpu.Shown.{those, only, ShowsThreads}

pub record Alike (th th' : Thread) : Type 0 where
  pub state_same : th.state ≡ th'.state
  pub tid_same : th.tid ≡ th'.tid
  pub gindex_same : th.gindex ≡ th'.gindex

pub same-Alike : {th th' : Thread} → th' ≡ th → Alike th th'
same-Alike e = record {
  state_same = ap (λ u. u.state) (sym e);
  tid_same = ap (λ u. u.tid) (sym e);
  gindex_same = ap (λ u. u.gindex) (sym e);
}

those-Alike :
    (wanted : ThreadState → Bool) (at at' : ℕ → Thread) (l : List ℕ)
    → ((q : ℕ) → Member q l → Alike (at q) (at' q))
    → those wanted at l ≡ those wanted at' l
those-Alike wanted at at' [] a = refl
those-Alike wanted at at' (p ∷ ps) a =
    rw (Alike.state_same (a p (inl refl)), those-Alike wanted at at' ps (λ q k. a q (inr k))) refl

those-Member :
    (wanted : ThreadState → Bool) (at : ℕ → Thread) (l : List ℕ) (q : ℕ)
    → Member q (those wanted at l)
    → Member q l
those-Member wanted at [] q k = k
those-Member wanted at (p ∷ ps) q k = elim (Bool-cases (wanted (at p).state)) [
  | inl e ↦ elim (rw e at k) [ inl i ↦ inl i | inr m ↦ inr (those-Member wanted at ps q m) ]
  | inr e ↦ inr (those-Member wanted at ps q (rw e at k))
]

only-Member : (l : List ℕ) (q : ℕ) → only l ≡ some q → Member q l
only-Member [] q e = cc
only-Member (p ∷ []) q e = inl cc
only-Member (p ∷ r ∷ ps) q e = cc

value-Alike :
    (f g : ℕ → ℤ) (o o' : Option ℕ)
    → o ≡ o'
    → ((q : ℕ) → o ≡ some q → f q ≡ g q)
    → thread_value f o ≡ thread_value g o'
value-Alike f g none o' e a = ap (thread_value g) e
value-Alike f g (some q) o' e a = ap value_int64 (a q refl) ∙ ap (thread_value g) e

module _ {L : Type 0} (dl : LinkedList L) (at at' : ℕ → Thread) (pid_of : ℕ → ℤ) where
  -- Threads that are alike are shown alike.
  pub ShowsThreads-Alike :
      (cpu : Cpu L)
      → ((q : ℕ) → Member q (dl.elems cpu.threads) → Alike (at q) (at' q))
      → ShowsThreads dl at pid_of cpu
      → ShowsThreads dl at' pid_of cpu
  ShowsThreads-Alike cpu a s =
      let l = dl.elems cpu.threads in
      let runs = those-Alike is_running_state at at' l a in
      let acts = those-Alike is_active_state at at' l a in
      let run : (q : ℕ) → only (those is_running_state at l) ≡ some q → Alike (at q) (at' q) =
        λ q e. a q (those-Member is_running_state at l q (only-Member _ q e)) in
      let act : (q : ℕ) → only (those is_active_state at l) ≡ some q → Alike (at q) (at' q) =
        λ q e. a q (those-Member is_active_state at l q (only-Member _ q e)) in
      record {
        number_running = s.number_running ∙ ap length runs;
        number_active = s.number_active ∙ ap length acts;
        the_running = s.the_running ∙ ap only runs;
        the_active = s.the_active ∙ ap only acts;
        number_shown = s.number_shown ∙ ap (λ r. value_int64 (pos (length r))) runs;
        tid_shown =
            s.tid_shown ∙ value-Alike _ _ _ _ (ap only runs) (λ q e. Alike.tid_same (run q e));
        pid_shown = s.pid_shown ∙ ap (thread_value pid_of) (ap only runs);
        running_shown =
            s.running_shown
            ∙ value-Alike _ _ _ _ (ap only runs) (λ q e. Alike.gindex_same (run q e));
        active_shown =
            s.active_shown
            ∙ value-Alike _ _ _ _ (ap only acts) (λ q e. Alike.gindex_same (act q e));
        physical = λ real. subst (λ r. length r ≤ 1) runs (s.physical real);
      }
