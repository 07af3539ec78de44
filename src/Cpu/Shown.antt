-- ===== src/Cpu/Shown.antt =====
-- What `cpu_update` of src/emu/cpu.c leaves in the CPU and in its channels.
use ovni.Prelude.{
  ℕ, ◌+◌, ◌≤◌, ◌≡◌, refl, subst, ap, ◌∙◌, Bool, false, not, ◌&&◌, Option, none, some, List, [], ◌∷◌,
  length, if◌then◌else◌, ltb, ok, or_err, arith, >>=-eq-ok, or_err-eq-ok, fail_if-eq-ok, ok_pair,
}
use ovni.Prelude.Int.{ℤ, pos}
use ovni.Value.{Value, value_int64}
use ovni.Chan.{Chan, chan_read, chan_set}
use ovni.Vendor.{LinkedList}
use ovni.Thread.{
  Thread, ThreadState, unknown, running, paused, dead, cooling, warming, is_running_state,
  is_active_state,
}
use ovni.Thread.Shown.{IsPlain, set-IsPlain}
use ovni.Cpu.{
  Cpu, Scan, count, scan, no_threads, if_one, thread_value, cpu_update, oversubscribed,
  chan_set_failed,
}

-- The threads in a state.
abbrev pub those : (ThreadState → Bool) → (ℕ → Thread) → List ℕ → List ℕ
those wanted at [] = []
those wanted at (p ∷ ps) =
    if wanted (at p).state then p ∷ those wanted at ps else those wanted at ps

-- The only element of a list that has one.
abbrev pub only : List ℕ → Option ℕ
only [] = none
only (p ∷ []) = some p
only (p ∷ q ∷ ps) = none

abbrev last_or : Option ℕ → List ℕ → Option ℕ
last_or o [] = o
last_or o (p ∷ ps) = last_or (some p) ps

record Counted (rs acts : List ℕ) (c c' : Scan) : Type 0 where
  n_running : c'.running ≡ c.running + length rs
  n_active : c'.active ≡ c.active + length acts
  last_running : c'.th_running ≡ last_or c.th_running rs
  last_active : c'.th_active ≡ last_or c.th_active acts

count-Counted :
    (st : ThreadState) (p : ℕ) (rs acts : List ℕ) (c c' : Scan)
    → Counted rs acts (count st p c) c'
    → Counted
        (if is_running_state st then p ∷ rs else rs)
        (if is_active_state st then p ∷ acts else acts)
        c
        c'
count-Counted unknown p rs acts c c' k = k
count-Counted paused p rs acts c c' k = k
count-Counted dead p rs acts c c' k = k
count-Counted running p rs acts c c' k = ground (arith, k)
count-Counted cooling p rs acts c c' k = ground (arith, k)
count-Counted warming p rs acts c c' k = ground (arith, k)

scan-Counted :
    (at : ℕ → Thread) (l : List ℕ) (c : Scan)
    → Counted (those is_running_state at l) (those is_active_state at l) c (scan at l c)
unfolding scan
scan-Counted at [] c = record {
  n_running = omega arith;
  n_active = omega arith;
  last_running = refl;
  last_active = refl;
}
scan-Counted at (p ∷ ps) c =
    count-Counted (at p).state p (those is_running_state at ps) (those is_active_state at ps) c _
      (scan-Counted at ps (count (at p).state p c))

only_lem : (l : List ℕ) → if_one (length l) (last_or none l) ≡ only l
only_lem [] = refl
only_lem (p ∷ []) = refl
only_lem (p ∷ q ∷ ps) = ground arith

one_of :
    (n : ℕ) (o : Option ℕ) (l : List ℕ)
    → n ≡ 0 + length l
    → o ≡ last_or none l
    → if_one n o ≡ only l
one_of n o l e f = ap (λ n. if_one n o) (e ∙ omega arith) ∙ ap (if_one (length l)) f ∙ only_lem l

from_zero : {n m : ℕ} → n ≡ 0 + m → n ≡ m
from_zero e = omega (arith, e)

not_over : (n m : ℕ) (v : Bool) → (ltb 1 n && not v) ≡ false → v ≡ false → n ≡ m → m ≤ 1
not_over n m v a r e = ground arith

-- The channels of the CPU.
pub record HasPlainChans {L : Type 0} (cpu : Cpu L) : Type 0 where
  pub tid_plain : IsPlain cpu.chan_tid
  pub pid_plain : IsPlain cpu.chan_pid
  pub thrun_plain : IsPlain cpu.chan_thrun
  pub nrun_plain : IsPlain cpu.chan_nrun
  pub thact_plain : IsPlain cpu.chan_thact

module _ {L : Type 0} (dl : LinkedList L) (at : ℕ → Thread) (pid_of : ℕ → ℤ) where
  abbrev pub running_on : Cpu L → List ℕ
  running_on cpu = those is_running_state at (dl.elems cpu.threads)

  abbrev pub active_on : Cpu L → List ℕ
  active_on cpu = those is_active_state at (dl.elems cpu.threads)

  -- The counters, the pointers and the channels show the threads that run or are active.
  pub record ShowsThreads (cpu : Cpu L) : Type 0 where
    pub number_running : cpu.nth_running ≡ length (running_on cpu)
    pub number_active : cpu.nth_active ≡ length (active_on cpu)
    pub the_running : cpu.th_running ≡ only (running_on cpu)
    pub the_active : cpu.th_active ≡ only (active_on cpu)
    pub number_shown : chan_read cpu.chan_nrun ≡ value_int64 (pos (length (running_on cpu)))
    pub tid_shown : chan_read cpu.chan_tid ≡ thread_value (λ p. (at p).tid) (only (running_on cpu))
    pub pid_shown : chan_read cpu.chan_pid ≡ thread_value pid_of (only (running_on cpu))
    pub running_shown :
        chan_read cpu.chan_thrun ≡ thread_value (λ p. (at p).gindex) (only (running_on cpu))
    pub active_shown :
        chan_read cpu.chan_thact ≡ thread_value (λ p. (at p).gindex) (only (active_on cpu))
    pub physical : cpu.is_virtual ≡ false → length (running_on cpu) ≤ 1

  module _ {S : Type 0} (cb : ℕ → S → Option S) where
    set_chan-IsPlain :
        (chan c : Chan) (v : Value) (s s' : S)
        → IsPlain chan
        → or_err chan_set_failed (chan_set cb chan v s) ≡ ok (c, s')
        → IsPlain c × (chan_read c ≡ v)
    set_chan-IsPlain chan c v s s' p h =
        set-IsPlain cb chan c v s s' p (or_err-eq-ok chan_set_failed _ h)

    -- After a successful update, the counters, the pointers and the channels of the CPU show the
    -- threads of its list that run or are active, and a physical CPU has at most one that runs.
    pub update-ShowsThreads :
        (cpu cpu' : Cpu L) (s s' : S)
        → HasPlainChans cpu
        → cpu_update dl at pid_of cb cpu s ≡ ok (cpu', s')
        → ShowsThreads cpu'
          × HasPlainChans cpu'
          × (cpu'.threads ≡ cpu.threads)
          × (cpu'.nthreads ≡ cpu.nthreads)
    unfolding cpu_update
    update-ShowsThreads cpu cpu' s s' p h =
        let c = scan at (dl.elems cpu.threads) no_threads in
        let k = scan-Counted at (dl.elems cpu.threads) no_threads in
        let (allowed, rest) =
          fail_if-eq-ok (ltb 1 c.running && not cpu.is_virtual) oversubscribed _ h in
        let ((tid, s1), r1, rest1) =
          >>=-eq-ok (or_err chan_set_failed (chan_set cb cpu.chan_tid _ s)) _ rest in
        let ((pid, s2), r2, rest2) =
          >>=-eq-ok (or_err chan_set_failed (chan_set cb cpu.chan_pid _ s1)) _ rest1 in
        let ((thrun, s3), r3, rest3) =
          >>=-eq-ok (or_err chan_set_failed (chan_set cb cpu.chan_thrun _ s2)) _ rest2 in
        let ((nrun, s4), r4, rest4) =
          >>=-eq-ok (or_err chan_set_failed (chan_set cb cpu.chan_nrun _ s3)) _ rest3 in
        let ((thact, s5), r5, last) =
          >>=-eq-ok (or_err chan_set_failed (chan_set cb cpu.chan_thact _ s4)) _ rest4 in
        let (tid_ok, tid_read) = set_chan-IsPlain cpu.chan_tid tid _ s s1 p.tid_plain r1 in
        let (pid_ok, pid_read) = set_chan-IsPlain cpu.chan_pid pid _ s1 s2 p.pid_plain r2 in
        let (thrun_ok, thrun_read) =
          set_chan-IsPlain cpu.chan_thrun thrun _ s2 s3 p.thrun_plain r3 in
        let (nrun_ok, nrun_read) = set_chan-IsPlain cpu.chan_nrun nrun _ s3 s4 p.nrun_plain r4 in
        let (thact_ok, thact_read) =
          set_chan-IsPlain cpu.chan_thact thact _ s4 s5 p.thact_plain r5 in
        let (same, out) = ok_pair last in
        let runs = one_of c.running c.th_running (running_on cpu) k.n_running k.last_running in
        let acts = one_of c.active c.th_active (active_on cpu) k.n_active k.last_active in
        subst
          (λ u.
            ShowsThreads u
            × HasPlainChans u
            × (u.threads ≡ cpu.threads)
            × (u.nthreads ≡ cpu.nthreads))
          same
          (
            record {
              number_running = from_zero k.n_running;
              number_active = from_zero k.n_active;
              the_running = runs;
              the_active = acts;
              number_shown = nrun_read ∙ ap (λ n. value_int64 (pos n)) (from_zero k.n_running);
              tid_shown = tid_read ∙ ap (thread_value (λ p. (at p).tid)) runs;
              pid_shown = pid_read ∙ ap (thread_value pid_of) runs;
              running_shown = thrun_read ∙ ap (thread_value (λ p. (at p).gindex)) runs;
              active_shown = thact_read ∙ ap (thread_value (λ p. (at p).gindex)) acts;
              physical =
                  λ real. not_over c.running _ cpu.is_virtual allowed real (from_zero k.n_running);
            },
            record {
              tid_plain = tid_ok;
              pid_plain = pid_ok;
              thrun_plain = thrun_ok;
              nrun_plain = nrun_ok;
              thact_plain = thact_ok;
            },
            refl,
            refl,
          )
