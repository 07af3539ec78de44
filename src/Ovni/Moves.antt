-- ===== src/Ovni/Moves.antt =====
-- The calls that the handlers of src/emu/ovni/event.c make on a thread and on a CPU, and that they keep
-- both in order.
use ovni.Prelude.{
  ℕ, suc, ◌≡◌, ◌≢◌, sym, subst, ap, ◌∙◌, Option, none, some, Result, ok, err, ◌>>=◌, arith, inl,
  inr, eq-cases, Result-cases,
}
use ovni.Prelude.Int.{ℤ}
use ovni.Vendor.{LinkedList, IsLinkedList, update, update_at, update_other, at_place}
use ovni.Thread.{Thread, ThreadError}
use ovni.Cpu.{Cpu, CpuError, cpu_update, cpu_add_thread}
use ovni.Cpu.Alike.{Alike, same-Alike}
use ovni.Cpu.Numbers.{cpu_update-gindex, add_thread-gindex}
use ovni.Emu.{Emu, EmuError, on_thread, on_cpu}
use ovni.Ovni.Places.{InPlace, Alike-InPlace, add-InPlace, update-InPlace}
use ovni.Ovni.Shown.{IsInOrder}

-- A memory of threads in which only the thread `p` is another.
pub record OnlyAt (p : ℕ) (th : Thread) (at at' : ℕ → Thread) : Type 0 where
  pub it : at' p ≡ th
  pub rest : (q : ℕ) → q ≢ p → at' q ≡ at q

pub update-OnlyAt : (p : ℕ) (th : Thread) (at : ℕ → Thread) → OnlyAt p th at (update at p th)
update-OnlyAt p th at = record { it = update_at at p th; rest = update_other at p th }

pub then-OnlyAt :
    (p : ℕ) (th th' : Thread) (at at' : ℕ → Thread)
    → OnlyAt p th at at'
    → OnlyAt p th' at (update at' p th')
then-OnlyAt p th th' at at' o = record {
  it = update_at at' p th';
  rest = λ q n. update_other at' p th' q n ∙ o.rest q n;
}

module _ {L T S : Type 0} where
  abbrev pub with_thread : Emu L T S → ℕ → Thread → S → Emu L T S
  with_thread emu p th s = record emu { threads = update emu.threads p th; bay = s }

  abbrev pub with_cpu : Emu L T S → ℕ → Cpu L → S → Emu L T S
  with_cpu emu c cpu s = record emu { cpus = update emu.cpus c cpu; bay = s }

  pub on_thread-then :
      (p : ℕ) (call : Thread → S → Result ThreadError (Thread × S)) (emu : Emu L T S)
      (next : Emu L T S → Result EmuError (Emu L T S)) {out : Emu L T S}
      → (on_thread p call emu >>= next) ≡ ok out
      → (th : Thread) × (s : S) × (call (emu.threads p) emu.bay ≡ ok (th, s))
        × (next (with_thread emu p th s) ≡ ok out)
  unfolding on_thread
  on_thread-then p call emu next h = elim (Result-cases (call (emu.threads p) emu.bay)) [
    | inl ((th, s), e) ↦ (th, s, e, rw e at h)
    | inr (x, e) ↦ cc (rw e at h)
  ]

  pub on_cpu-then :
      (c : ℕ) (call : Cpu L → S → Result CpuError (Cpu L × S)) (emu : Emu L T S)
      (next : Emu L T S → Result EmuError (Emu L T S)) {out : Emu L T S}
      → (on_cpu c call emu >>= next) ≡ ok out
      → (cpu : Cpu L) × (s : S) × (call (emu.cpus c) emu.bay ≡ ok (cpu, s))
        × (next (with_cpu emu c cpu s) ≡ ok out)
  unfolding on_cpu
  on_cpu-then c call emu next h = elim (Result-cases (call (emu.cpus c) emu.bay)) [
    | inl ((cpu, s), e) ↦ (cpu, s, e, rw e at h)
    | inr (x, e) ↦ cc (rw e at h)
  ]

  -- The last call of a handler.
  pub last_call :
      (m : Result EmuError (Emu L T S)) {out : Emu L T S} → m ≡ ok out → (m >>= ok) ≡ ok out
  last_call (ok a) h = h
  last_call (err e) h = h

module _ {L : Type 0} (dl : LinkedList L) (pid_of : ℕ → ℤ) (gi : ℕ → ℤ) where
  -- Each thread is in order, and so are the lists of the CPUs, whose numbers are those of `gi`.
  pub record IsOrdered (k : ℕ) (at : ℕ → Thread) (cpus : ℕ → Cpu L) : Type 0 where
    pub threads : (p : ℕ) → IsInOrder gi (at p)
    pub numbers : (c : ℕ) → (cpus c).gindex ≡ gi c
    pub places : InPlace dl pid_of k (λ p. (at p).cpu) at cpus

  pub threads_after :
      (p : ℕ) (th : Thread) (at at' : ℕ → Thread)
      → OnlyAt p th at at'
      → IsInOrder gi th
      → ((q : ℕ) → IsInOrder gi (at q))
      → (q : ℕ) → IsInOrder gi (at' q)
  threads_after p th at at' o i all q = elim (eq-cases q p) [
    | inl e ↦ subst (IsInOrder gi) (sym (ap at' e ∙ o.it)) i
    | inr n ↦ subst (IsInOrder gi) (sym (o.rest q n)) (all q)
  ]

  pub numbers_after :
      (cpus : ℕ → Cpu L) (c : ℕ) (cpu : Cpu L)
      → ((d : ℕ) → (cpus d).gindex ≡ gi d)
      → cpu.gindex ≡ (cpus c).gindex
      → (d : ℕ) → (update cpus c cpu d).gindex ≡ gi d
  numbers_after cpus c cpu all e d =
      at_place (λ u. u.gindex ≡ gi d) cpus c cpu d (λ s. e ∙ all c ∙ ap gi (sym s)) (λ n. all d)

  pub more :
      (k : ℕ) (at : ℕ → Thread) (cpus : ℕ → Cpu L) → IsOrdered k at cpus → IsOrdered (suc k) at cpus
  more k at cpus i = record {
    threads = i.threads;
    numbers = i.numbers;
    places = record {
      listed = i.places.listed;
      plain = i.places.plain;
      few = λ c. omega (arith, i.places.few c);
      placed = i.places.placed;
      found = i.places.found;
      shows = i.places.shows;
    };
  }

  -- The thread `p` changes, without a call on a CPU.
  pub thread-IsOrdered :
      (k p : ℕ) (th : Thread) (at at' : ℕ → Thread) (cpus : ℕ → Cpu L)
      → OnlyAt p th at at'
      → IsInOrder gi th
      → (th.cpu ≡ (at p).cpu)
      → Alike (at p) th
      → IsOrdered k at cpus
      → IsOrdered k at' cpus
  thread-IsOrdered k p th at at' cpus o now same alike i = record {
    threads = threads_after p th at at' o now i.threads;
    numbers = i.numbers;
    places =
        Alike-InPlace dl pid_of k (λ q. (at q).cpu) (λ q. (at' q).cpu) at at' cpus
          (λ q. elim (eq-cases q p) [
            | inl e ↦
                ap (λ r. (at' r).cpu) e ∙ ap (λ u. u.cpu) o.it ∙ same ∙ ap (λ r. (at r).cpu) (sym e)
            | inr n ↦ ap (λ u. u.cpu) (o.rest q n)
          ])
          (λ q c h. elim (eq-cases q p) [
            | inl e ↦
                subst (Alike (at q)) (sym (ap at' e ∙ o.it))
                  (subst (λ r. Alike (at r) th) (sym e) alike)
            | inr n ↦ same-Alike (o.rest q n)
          ])
          i.places;
  }

  module _ (law : IsLinkedList dl) {S : Type 0} (cb : ℕ → S → Option S) (k p : ℕ) (th : Thread)
      (at at' : ℕ → Thread) (cpus : ℕ → Cpu L) (o : OnlyAt p th at at') (now : IsInOrder gi th)
      (i : IsOrdered k at cpus) (c : ℕ) (cpu : Cpu L) (s s' : S) where
    loc_same : (q : ℕ) → q ≢ p → (at' q).cpu ≡ (at q).cpu
    loc_same q n = ap (λ u. u.cpu) (o.rest q n)

    pub add-IsOrdered :
        (at p).cpu ≡ none
        → th.cpu ≡ some c
        → cpu_add_thread dl at' pid_of cb (cpus c) p s ≡ ok (cpu, s')
        → IsOrdered (suc k) at' (update cpus c cpu)
    add-IsOrdered was is h = record {
      threads = threads_after p th at at' o now i.threads;
      numbers =
          numbers_after cpus c cpu i.numbers (add_thread-gindex dl at' pid_of cb _ cpu p s s' h);
      places =
          add-InPlace dl pid_of law cb k (λ q. (at q).cpu) (λ q. (at' q).cpu) at at' cpus c p
            loc_same (λ q n. same-Alike (o.rest q n)) cpu s s' i.places was
            (ap (λ u. u.cpu) o.it ∙ is) h;
    }

    pub update-IsOrdered :
        (at p).cpu ≡ some c
        → th.cpu ≡ some c
        → cpu_update dl at' pid_of cb (cpus c) s ≡ ok (cpu, s')
        → IsOrdered k at' (update cpus c cpu)
    update-IsOrdered was is h = record {
      threads = threads_after p th at at' o now i.threads;
      numbers =
          numbers_after cpus c cpu i.numbers (cpu_update-gindex dl at' pid_of cb _ cpu s s' h);
      places =
          update-InPlace dl pid_of law cb k (λ q. (at q).cpu) (λ q. (at' q).cpu) at at' cpus c p
            loc_same (λ q n. same-Alike (o.rest q n)) i.places was cpu s s'
            (ap (λ u. u.cpu) o.it ∙ is) h;
    }
