-- ===== src/Cpu/Threads.antt =====
-- The list of the threads of a CPU, under `cpu_add_thread` and `cpu_remove_thread` of src/emu/cpu.c.
use ovni.Prelude.{
  was_not, ℕ, ◌+◌, ◌-◌, ◌%◌, ◌^◌, ◌<◌, ◌≡◌, refl, sym, subst, ap, ◌∙◌, true, false, not, Option,
  List, [], ◌∷◌, ◌++◌, length, ◌==◌, ok, or_err-eq-ok, fail_if-eq-ok, arith, ◌⊎◌, inl, inr,
  Bool-cases, eq-cases, length-append, ◌≢◌,
}
use ovni.Prelude.Int.{ℤ}
use ovni.Vendor.{LinkedList, IsLinkedList, Member, Distinct, remove}
use ovni.Thread.{Thread}
use ovni.Cpu.{
  Cpu, cpu_add_thread, cpu_remove_thread, find_thread, already_assigned, missing_thread,
  update_failed,
}
use ovni.Cpu.Shown.{ShowsThreads, HasPlainChans, update-ShowsThreads}

pub Member-end : (l : List ℕ) (t q : ℕ) → Member q (l ++ (t ∷ [])) → Member q l ⊎ (q ≡ t)
Member-end [] t q (inl e) = inr e
Member-end [] t q (inr k) = elim k [ ]
Member-end (x ∷ l) t q (inl e) = inl (inl e)
Member-end (x ∷ l) t q (inr k) = elim (Member-end l t q k) [ inl m ↦ inl (inr m) | inr e ↦ inr e ]

pub Distinct-end : (l : List ℕ) (t : ℕ) → Distinct l → ¬ (Member t l) → Distinct (l ++ (t ∷ []))
Distinct-end [] t d n = (λ q k. elim k [ ], tt)
Distinct-end (x ∷ l) t d n = (
  λ q k. elim (Member-end l t q k) [ inl m ↦ d.0 q m | inr e ↦ λ same. n (inl (sym e ∙ same)) ],
  Distinct-end l t d.1 (λ m. n (inr m)),
)

Member-skip :
    (p q x : ℕ) (l : List ℕ)
    → (x == p) ≡ false
    → Member q (remove p (x ∷ l))
    → (q ≡ x) ⊎ Member q (remove p l)
Member-skip p q x l e k = rw e at k

pub Member-remove : (p q : ℕ) (l : List ℕ) → Member q (remove p l) → Member q l
Member-remove p q [] k = k
Member-remove p q (x ∷ l) k = elim (Bool-cases (x == p)) [
  | inl e ↦ inr (rw e at k)
  | inr e ↦ elim (Member-skip p q x l e k) [ inl i ↦ inl i | inr m ↦ inr (Member-remove p q l m) ]
]

pub Member-append : (q : ℕ) (l m : List ℕ) → Member q l → Member q (l ++ m)
Member-append q [] m k = elim k [ ]
Member-append q (x ∷ l) m (inl e) = inl e
Member-append q (x ∷ l) m (inr k) = inr (Member-append q l m k)

pub Member-last : (t : ℕ) (l : List ℕ) → Member t (l ++ (t ∷ []))
Member-last t [] = inl refl
Member-last t (x ∷ l) = inr (Member-last t l)

pub Member-remove_other : (p q : ℕ) (l : List ℕ) → q ≢ p → Member q l → Member q (remove p l)
Member-remove_other p q [] n k = k
Member-remove_other p q (x ∷ l) n (inl e) = ground arith
Member-remove_other p q (x ∷ l) n (inr k) = elim (Bool-cases (x == p)) [
  | inl e ↦ rw e k
  | inr e ↦ rw e (inr (Member-remove_other p q l n k))
]

pub remove-gone : (p : ℕ) (l : List ℕ) → Distinct l → ¬ (Member p (remove p l))
remove-gone p [] d k = k
remove-gone p (x ∷ l) d k = elim (Bool-cases (x == p)) [
  | inl e ↦ d.0 p (rw e at k) (ground arith)
  | inr e ↦ elim (Member-skip p p x l e k) [ inl i ↦ ground arith | inr m ↦ remove-gone p l d.1 m ]
]

pub Distinct-remove : (p : ℕ) (l : List ℕ) → Distinct l → Distinct (remove p l)
Distinct-remove p [] d = d
Distinct-remove p (x ∷ l) d = elim (Bool-cases (x == p)) [
  | inl e ↦ rw e d.1
  | inr e ↦ rw e (λ q k. d.0 q (Member-remove p q l k), Distinct-remove p l d.1)
]

pub length-remove : (p : ℕ) (l : List ℕ) → Member p l → length l ≡ 1 + length (remove p l)
length-remove p [] k = elim k [ ]
length-remove p (x ∷ l) (inl e) = ground (arith, e)
length-remove p (x ∷ l) (inr k) = elim (Bool-cases (x == p)) [
  | inl e ↦ rw e (omega arith)
  | inr e ↦ rw e (omega (arith, length-remove p l k))
]

found_lem : (l : List ℕ) (t : ℕ) → find_thread l t ≡ true → Member t l
unfolding find_thread
found_lem [] t h = cc
found_lem (x ∷ l) t h = elim (eq-cases t x) [
  | inl e ↦ inl e
  | inr n ↦ inr (found_lem l t (ground (arith, n, h)))
]

missing_lem : (l : List ℕ) (t : ℕ) → find_thread l t ≡ false → ¬ (Member t l)
unfolding find_thread
missing_lem [] t h k = k
missing_lem (x ∷ l) t h (inl e) = ground (arith, e)
missing_lem (x ∷ l) t h (inr k) = missing_lem l t (ground (arith, h)) k

module _ {L : Type 0} (dl : LinkedList L) where
  abbrev pub on : Cpu L → List ℕ
  on cpu = dl.elems cpu.threads

  -- Each thread is in the list once, and `nthreads` is their number.
  pub record IsListed (cpu : Cpu L) : Type 0 where
    pub once : Distinct (on cpu)
    pub number : cpu.nthreads ≡ length (on cpu)

  module _ (law : IsLinkedList dl) (at : ℕ → Thread) (pid_of : ℕ → ℤ) {S : Type 0}
      (cb : ℕ → S → Option S) where
    -- A thread that is added was not on the CPU; it is then the last one of the list, and the CPU shows
    -- the threads of the list, with each of them in it once.
    pub add_lem :
        (cpu cpu' : Cpu L) (t : ℕ) (s s' : S)
        → IsListed cpu
        → HasPlainChans cpu
        → cpu_add_thread dl at pid_of cb cpu t s ≡ ok (cpu', s')
        → ¬ (Member t (on cpu))
          × (on cpu' ≡ on cpu ++ (t ∷ []))
          × IsListed cpu'
          × ShowsThreads dl at pid_of cpu'
          × HasPlainChans cpu'
    unfolding cpu_add_thread
    add_lem cpu cpu' t s s' i p h =
        let (absent, rest) = fail_if-eq-ok (find_thread (on cpu) t) already_assigned _ h in
        let missing = missing_lem (on cpu) t absent in
        let grown = record cpu { threads = dl.append t cpu.threads; nthreads = cpu.nthreads + 1 } in
        let plain : HasPlainChans grown = record {
          tid_plain = p.tid_plain;
          pid_plain = p.pid_plain;
          thrun_plain = p.thrun_plain;
          nrun_plain = p.nrun_plain;
          thact_plain = p.thact_plain;
        } in
        let (shows, plain', same, number) =
          update-ShowsThreads dl at pid_of cb grown cpu' s s' plain
            (or_err-eq-ok update_failed _ rest) in
        let longer : on cpu' ≡ on cpu ++ (t ∷ []) =
          ap dl.elems same ∙ law.elems-append t cpu.threads in
        (
          missing,
          longer,
          record {
            once = subst Distinct (sym longer) (Distinct-end (on cpu) t i.once missing);
            number =
                number
                ∙ omega (arith, i.number, length-append (on cpu) (t ∷ []))
                ∙ ap length (sym longer);
          },
          shows,
          plain',
        )

    -- A thread that is removed was on the CPU; it is then out of the list, and the CPU shows the other
    -- threads, with each of them in the list once.
    pub remove_lem :
        (cpu cpu' : Cpu L) (t : ℕ) (s s' : S)
        → IsListed cpu
        → length (on cpu) < 2 ^ 64
        → HasPlainChans cpu
        → cpu_remove_thread dl at pid_of cb cpu t s ≡ ok (cpu', s')
        → Member t (on cpu)
          × (on cpu' ≡ remove t (on cpu))
          × IsListed cpu'
          × ShowsThreads dl at pid_of cpu'
          × HasPlainChans cpu'
    unfolding cpu_remove_thread
    remove_lem cpu cpu' t s s' i small p h =
        let (there, rest) = fail_if-eq-ok (not (find_thread (on cpu) t)) missing_thread _ h in
        let member = found_lem (on cpu) t (was_not _ there) in
        let rest_of = record cpu {
          threads = dl.delete t cpu.threads;
          nthreads = (cpu.nthreads + (2 ^ 64 - 1)) % 2 ^ 64;
        } in
        let plain : HasPlainChans rest_of = record {
          tid_plain = p.tid_plain;
          pid_plain = p.pid_plain;
          thrun_plain = p.thrun_plain;
          nrun_plain = p.nrun_plain;
          thact_plain = p.thact_plain;
        } in
        let (shows, plain', same, number) =
          update-ShowsThreads dl at pid_of cb rest_of cpu' s s' plain
            (or_err-eq-ok update_failed _ rest) in
        let shorter : on cpu' ≡ remove t (on cpu) =
          ap dl.elems same ∙ law.elems-delete t cpu.threads member in
        (
          member,
          shorter,
          record {
            once = subst Distinct (sym shorter) (Distinct-remove t (on cpu) i.once);
            number =
                number
                ∙ omega (arith, i.number, small, length-remove t (on cpu) member)
                ∙ ap length (sym shorter);
          },
          shows,
          plain',
        )
