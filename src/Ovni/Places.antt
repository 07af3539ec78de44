-- ===== src/Ovni/Places.antt =====
-- Where the threads are: the pointer of each thread to its CPU, and the lists of the CPUs, under the
-- calls of src/emu/cpu.c that the handlers of src/emu/ovni/event.c make.
use ovni.Prelude.{
  ℕ, suc, ◌^◌, ◌≤◌, ◌<◌, ◌≡◌, ◌≢◌, sym, subst, ap, ◌∙◌, Option, none, some, [], ◌∷◌, length,
  length-append, ok, arith, inl, inr, eq-cases,
}
use ovni.Prelude.Int.{ℤ}
use ovni.Vendor.{LinkedList, IsLinkedList, Member, Distinct, update, at_place}
use ovni.Thread.{Thread}
use ovni.Cpu.{Cpu, cpu_update, cpu_add_thread, cpu_remove_thread}
use ovni.Cpu.Shown.{ShowsThreads, HasPlainChans, update-ShowsThreads}
use ovni.Cpu.Threads.{
  IsListed, on, add_lem, remove_lem, Member-end, Member-append, Member-last, Member-remove,
  Member-remove_other, remove-gone, length-remove,
}
use ovni.Cpu.Alike.{Alike, ShowsThreads-Alike}

some_inj {ℓ} : {A : Type ℓ} {a b : A} → some a ≡ some b → a ≡ b
some_inj h = cc

module _ {L : Type 0} (dl : LinkedList L) (pid_of : ℕ → ℤ) where
  -- Each thread is in the list of the CPU that it points to, once, and in no other; a CPU with a thread
  -- shows the threads that run on it; no list has more than `k` threads.
  pub record InPlace (k : ℕ) (loc : ℕ → Option ℕ) (at : ℕ → Thread) (cpus : ℕ → Cpu L)
      : Type 0 where
    pub listed : (c : ℕ) → IsListed dl (cpus c)
    pub plain : (c : ℕ) → HasPlainChans (cpus c)
    pub few : (c : ℕ) → length (on dl (cpus c)) ≤ k
    pub placed : (p c : ℕ) → loc p ≡ some c → Member p (on dl (cpus c))
    pub found : (p c : ℕ) → Member p (on dl (cpus c)) → loc p ≡ some c
    pub shows : (p c : ℕ) → Member p (on dl (cpus c)) → ShowsThreads dl at pid_of (cpus c)

  -- What a call on the CPU `c` does when only the thread `p` has changed.
  record Changes (k : ℕ) (loc loc' : ℕ → Option ℕ) (at at' : ℕ → Thread) (cpus : ℕ → Cpu L)
      (c p : ℕ) (cpu : Cpu L) : Type 0 where
    now_listed : IsListed dl cpu
    now_plain : HasPlainChans cpu
    now_shows : ShowsThreads dl at' pid_of cpu
    now_few : length (on dl cpu) ≤ k
    nowhere_else : (d : ℕ) → d ≢ c → ¬ (Member p (on dl (cpus d)))
    others_stay : (q : ℕ) → q ≢ p → Member q (on dl (cpus c)) → Member q (on dl cpu)
    others_were : (q : ℕ) → q ≢ p → Member q (on dl cpu) → Member q (on dl (cpus c))
    others_alike : (q : ℕ) → q ≢ p → Alike (at q) (at' q)
    others_there : (q : ℕ) → q ≢ p → loc' q ≡ loc q
    it_is_there : (d : ℕ) → loc' p ≡ some d → (d ≡ c) × Member p (on dl cpu)
    it_points : Member p (on dl cpu) → loc' p ≡ some c

  Changes-InPlace :
      (k k' : ℕ) (loc loc' : ℕ → Option ℕ) (at at' : ℕ → Thread) (cpus : ℕ → Cpu L) (c p : ℕ)
      (cpu : Cpu L)
      → k ≤ k'
      → InPlace k loc at cpus
      → Changes k' loc loc' at at' cpus c p cpu
      → InPlace k' loc' at' (update cpus c cpu)
  Changes-InPlace k k' loc loc' at at' cpus c p cpu le i ch = record {
    listed = λ d. at_place (IsListed dl) cpus c cpu d (λ e. ch.now_listed) (λ n. i.listed d);
    plain = λ d. at_place HasPlainChans cpus c cpu d (λ e. ch.now_plain) (λ n. i.plain d);
    few = λ d.
        at_place (λ u. length (on dl u) ≤ k') cpus c cpu d (λ e. ch.now_few)
          (λ n. omega (arith, i.few d, le));
    placed = λ q d h.
        at_place (λ u. Member q (on dl u)) cpus c cpu d
          (λ e. elim (eq-cases q p) [
            | inl s ↦
                subst (λ r. Member r (on dl cpu)) (sym s)
                  ((ch.it_is_there d (ap loc' (sym s) ∙ h)).1)
            | inr o ↦ ch.others_stay q o (i.placed q c (sym (ch.others_there q o) ∙ h ∙ ap some e))
          ])
          (λ n. elim (eq-cases q p) [
            | inl s ↦ absurd (n ((ch.it_is_there d (ap loc' (sym s) ∙ h)).0))
            | inr o ↦ i.placed q d (sym (ch.others_there q o) ∙ h)
          ]);
    found = λ q d.
        at_place (λ u. Member q (on dl u) → loc' q ≡ some d) cpus c cpu d
          (λ e m. elim (eq-cases q p) [
            | inl s ↦
                ap loc' s ∙ ch.it_points (subst (λ r. Member r (on dl cpu)) s m) ∙ ap some (sym e)
            | inr o ↦ ch.others_there q o ∙ i.found q c (ch.others_were q o m) ∙ ap some (sym e)
          ])
          (λ n m. elim (eq-cases q p) [
            | inl s ↦ absurd (ch.nowhere_else d n (subst (λ r. Member r (on dl (cpus d))) s m))
            | inr o ↦ ch.others_there q o ∙ i.found q d m
          ]);
    shows = λ q d.
        at_place (λ u. Member q (on dl u) → ShowsThreads dl at' pid_of u) cpus c cpu d
          (λ e m. ch.now_shows)
          (λ n m.
            ShowsThreads-Alike dl at at' pid_of (cpus d)
              (λ r k.
                ch.others_alike r
                  (λ s. ch.nowhere_else d n (subst (λ t. Member t (on dl (cpus d))) s k)))
              (i.shows q d m));
  }

  -- A thread that changes without a call on a CPU.
  pub Alike-InPlace :
      (k : ℕ) (loc loc' : ℕ → Option ℕ) (at at' : ℕ → Thread) (cpus : ℕ → Cpu L)
      → ((q : ℕ) → loc' q ≡ loc q)
      → ((q c : ℕ) → loc q ≡ some c → Alike (at q) (at' q))
      → InPlace k loc at cpus
      → InPlace k loc' at' cpus
  Alike-InPlace k loc loc' at at' cpus same alike i = record {
    listed = i.listed;
    plain = i.plain;
    few = i.few;
    placed = λ p c h. i.placed p c (sym (same p) ∙ h);
    found = λ p c m. same p ∙ i.found p c m;
    shows = λ p c m.
        ShowsThreads-Alike dl at at' pid_of (cpus c) (λ q l. alike q c (i.found q c l))
          (i.shows p c m);
  }

  module _ (law : IsLinkedList dl) {S : Type 0} (cb : ℕ → S → Option S) (k : ℕ)
      (loc loc' : ℕ → Option ℕ) (at at' : ℕ → Thread) (cpus : ℕ → Cpu L) (c p : ℕ)
      (same_loc : (q : ℕ) → q ≢ p → loc' q ≡ loc q)
      (alike : (q : ℕ) → q ≢ p → Alike (at q) (at' q)) where
    pub add-InPlace :
        (cpu : Cpu L) (s s' : S)
        → InPlace k loc at cpus
        → loc p ≡ none
        → loc' p ≡ some c
        → cpu_add_thread dl at' pid_of cb (cpus c) p s ≡ ok (cpu, s')
        → InPlace (suc k) loc' at' (update cpus c cpu)
    add-InPlace cpu s s' i was is h =
        let (absent, longer, listed, shown, plain) =
          add_lem dl law at' pid_of cb (cpus c) cpu p s s' (i.listed c) (i.plain c) h in
        let last : Member p (on dl cpu) =
          subst (Member p) (sym longer) (Member-last p (on dl (cpus c))) in
        Changes-InPlace k (suc k) loc loc' at at' cpus c p cpu (omega arith) i (record {
          now_listed = listed;
          now_plain = plain;
          now_shows = shown;
          now_few =
              omega (arith, ap length longer, length-append (on dl (cpus c)) (p ∷ []), i.few c);
          nowhere_else = λ d n m. ground (arith, was, i.found p d m);
          others_stay = λ q n m. subst (Member q) (sym longer) (Member-append q _ _ m);
          others_were = λ q n m.
              elim (Member-end (on dl (cpus c)) p q (subst (Member q) longer m)) [
                | inl k ↦ k
                | inr e ↦ absurd (n e)
              ];
          others_alike = alike;
          others_there = same_loc;
          it_is_there = λ d e. (some_inj (sym e ∙ is), last);
          it_points = λ m. is;
        })

    module _ (i : InPlace k loc at cpus) (was : loc p ≡ some c) where
      elsewhere : (d : ℕ) → d ≢ c → ¬ (Member p (on dl (cpus d)))
      elsewhere d n m = n (some_inj (sym (i.found p d m) ∙ was))

      pub remove-InPlace :
          (cpu : Cpu L) (s s' : S)
          → k < 2 ^ 64
          → loc' p ≡ none
          → cpu_remove_thread dl at' pid_of cb (cpus c) p s ≡ ok (cpu, s')
          → InPlace k loc' at' (update cpus c cpu)
      remove-InPlace cpu s s' small is h =
          let (there, shorter, listed, shown, plain) =
            remove_lem dl law at' pid_of cb (cpus c) cpu p s s' (i.listed c)
              (omega (arith, i.few c, small)) (i.plain c) h in
          let gone : ¬ (Member p (on dl cpu)) =
            λ m. remove-gone p _ (IsListed.once (i.listed c)) (subst (Member p) shorter m) in
          Changes-InPlace k k loc loc' at at' cpus c p cpu (omega arith) i (record {
            now_listed = listed;
            now_plain = plain;
            now_shows = shown;
            now_few =
                omega (arith, ap length shorter, length-remove p (on dl (cpus c)) there, i.few c);
            nowhere_else = elsewhere;
            others_stay = λ q n m. subst (Member q) (sym shorter) (Member-remove_other p q _ n m);
            others_were = λ q n m. Member-remove p q _ (subst (Member q) shorter m);
            others_alike = alike;
            others_there = same_loc;
            it_is_there = λ d e. ground (arith, is, e);
            it_points = λ m. absurd (gone m);
          })

      pub update-InPlace :
          (cpu : Cpu L) (s s' : S)
          → loc' p ≡ some c
          → cpu_update dl at' pid_of cb (cpus c) s ≡ ok (cpu, s')
          → InPlace k loc' at' (update cpus c cpu)
      update-InPlace cpu s s' is h =
          let (shown, plain, same, number) =
            update-ShowsThreads dl at' pid_of cb (cpus c) cpu s s' (i.plain c) h in
          let listing : on dl cpu ≡ on dl (cpus c) = ap dl.elems same in
          Changes-InPlace k k loc loc' at at' cpus c p cpu (omega arith) i (record {
            now_listed = record {
              once = subst Distinct (sym listing) (IsListed.once (i.listed c));
              number = number ∙ IsListed.number (i.listed c) ∙ ap length (sym listing);
            };
            now_plain = plain;
            now_shows = shown;
            now_few = subst (λ l. length l ≤ k) (sym listing) (i.few c);
            nowhere_else = elsewhere;
            others_stay = λ q n m. subst (Member q) (sym listing) m;
            others_were = λ q n m. subst (Member q) listing m;
            others_alike = alike;
            others_there = same_loc;
            it_is_there =
                λ d e. (some_inj (sym e ∙ is), subst (Member p) (sym listing) (i.placed p c was));
            it_points = λ m. is;
          })
