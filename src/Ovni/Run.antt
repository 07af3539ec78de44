-- ===== src/Ovni/Run.antt =====
-- Any events of the ovni model leave the threads and the CPUs of src/emu in order.
use ovni.Prelude.{
  ℕ, suc, ◌+◌, ◌^◌, ◌<◌, ◌≡◌, refl, sym, subst, ap, ◌∙◌, false, Option, none, List, [], ◌∷◌, length,
  ok, arith, >>=-eq-ok, ok_inj, is_none,
}
use ovni.Prelude.Int.{ℤ}
use ovni.Chan.{Chan, chan_read, chan_flush}
use ovni.Vendor.{LinkedList, IsLinkedList, HashTable, Distinct, Member}
use ovni.Thread.{Thread, ThreadState, unknown}
use ovni.Thread.Shown.{IsPlain, HasPlainChannels}
use ovni.Cpu.{Cpu}
use ovni.Cpu.Shown.{HasPlainChans, ShowsThreads}
use ovni.Cpu.Threads.{IsListed, on}
use ovni.Cpu.Alike.{Alike, ShowsThreads-Alike}
use ovni.Emu.{Emu}
use ovni.Ovni.Event.{model_ovni_event}
use ovni.Ovni.Handlers.{is_unknown_state}
use ovni.Ovni.Shown.{IsInOrder, is_away}
use ovni.Ovni.Emulation.{
  Input, flush_dirty, flush_thread, flush_cpu, ovni_step, ovni_run, set_current, propagate,
}
use ovni.Ovni.Moves.{IsOrdered}
use ovni.Ovni.Runs.{event-Ordered}

flush-IsPlain : (chan : Chan) → IsPlain chan → IsPlain (flush_dirty chan)
unfolding flush_dirty chan_flush chan_read
flush-IsPlain chan p = record {
  settled = let s = p.settled in ground arith;
  one_write = let o = p.one_write in ground arith;
}

flush-read : (chan : Chan) → chan_read (flush_dirty chan) ≡ chan_read chan
unfolding flush_dirty chan_flush chan_read
flush-read chan = ground arith

started : {st : ThreadState} → st ≡ unknown → ¬ (is_unknown_state st ≡ false)
started {st} e k = cc

module _ (gi : ℕ → ℤ) where
  flush_thread-IsInOrder : (th : Thread) → IsInOrder gi th → IsInOrder gi (flush_thread th)
  unfolding flush_thread
  flush_thread-IsInOrder th i = record {
    channels = record {
      cpu_plain = flush-IsPlain th.chan_cpu i.channels.cpu_plain;
      tid_plain = flush-IsPlain th.chan_tid i.channels.tid_plain;
      state_plain = flush-IsPlain th.chan_state i.channels.state_plain;
    };
    home = i.home;
    state_shown = λ k.
        let s = i.state_shown k in
        record {
          running_flag = s.running_flag;
          active_flag = s.active_flag;
          state_shown = flush-read th.chan_state ∙ s.state_shown;
          tid_shown = flush-read th.chan_tid ∙ s.tid_shown;
        };
    cpu_shown = λ k. flush-read th.chan_cpu ∙ i.cpu_shown k;
  }

module _ {L : Type 0} (dl : LinkedList L) (pid_of : ℕ → ℤ) where
  flush_cpu-HasPlainChans : (cpu : Cpu L) → HasPlainChans cpu → HasPlainChans (flush_cpu cpu)
  unfolding flush_cpu
  flush_cpu-HasPlainChans cpu p = record {
    tid_plain = flush-IsPlain cpu.chan_tid p.tid_plain;
    pid_plain = flush-IsPlain cpu.chan_pid p.pid_plain;
    thrun_plain = flush-IsPlain cpu.chan_thrun p.thrun_plain;
    nrun_plain = flush-IsPlain cpu.chan_nrun p.nrun_plain;
    thact_plain = flush-IsPlain cpu.chan_thact p.thact_plain;
  }

  flush_cpu-ShowsThreads :
      (at : ℕ → Thread) (cpu : Cpu L)
      → ShowsThreads dl at pid_of cpu
      → ShowsThreads dl at pid_of (flush_cpu cpu)
  unfolding flush_cpu
  flush_cpu-ShowsThreads at cpu s = record {
    number_running = s.number_running;
    number_active = s.number_active;
    the_running = s.the_running;
    the_active = s.the_active;
    number_shown = flush-read cpu.chan_nrun ∙ s.number_shown;
    tid_shown = flush-read cpu.chan_tid ∙ s.tid_shown;
    pid_shown = flush-read cpu.chan_pid ∙ s.pid_shown;
    running_shown = flush-read cpu.chan_thrun ∙ s.running_shown;
    active_shown = flush-read cpu.chan_thact ∙ s.active_shown;
    physical = s.physical;
  }

  flush_thread-Alike : (th : Thread) → Alike th (flush_thread th)
  unfolding flush_thread
  flush_thread-Alike th = record { state_same = refl; tid_same = refl; gindex_same = refl }

  flush-IsOrdered :
      (gi : ℕ → ℤ) (k : ℕ) (at : ℕ → Thread) (cpus : ℕ → Cpu L)
      → IsOrdered dl pid_of gi k at cpus
      → IsOrdered dl pid_of gi k (λ p. flush_thread (at p)) (λ c. flush_cpu (cpus c))
  unfolding flush_thread flush_cpu
  flush-IsOrdered gi k at cpus i = record {
    threads = λ p. flush_thread-IsInOrder gi (at p) (i.threads p);
    numbers = i.numbers;
    places = record {
      listed = λ c. record {
        once = IsListed.once (i.places.listed c);
        number = IsListed.number (i.places.listed c);
      };
      plain = λ c. flush_cpu-HasPlainChans (cpus c) (i.places.plain c);
      few = i.places.few;
      placed = i.places.placed;
      found = i.places.found;
      shows = λ p c m. flush_cpu-ShowsThreads _ (cpus c) (
          ShowsThreads-Alike dl at (λ q. flush_thread (at q)) pid_of (cpus c)
            (λ q l. flush_thread-Alike (at q)) (i.places.shows p c m));
    };
  }

none_there : (p : ℕ) (l : List ℕ) → l ≡ [] → ¬ (Member p l)
none_there p l e m = subst (Member p) e m

module _ {L T S : Type 0} (dl : LinkedList L) (pid_of : ℕ → ℤ) (gi : ℕ → ℤ) where
  -- Before the first event: no thread has started, and the CPUs have none.
  pub record IsFresh (emu : Emu L T S) : Type 0 where
    pub channels : (p : ℕ) → HasPlainChannels (emu.threads p)
    pub not_started : (p : ℕ) → (emu.threads p).state ≡ unknown
    pub nowhere : (p : ℕ) → (emu.threads p).cpu ≡ none
    pub chans : (c : ℕ) → HasPlainChans (emu.cpus c)
    pub unused : (c : ℕ) → on dl (emu.cpus c) ≡ []
    pub none_counted : (c : ℕ) → (emu.cpus c).nthreads ≡ 0
    pub numbers : (c : ℕ) → (emu.cpus c).gindex ≡ gi c

  fresh-IsOrdered : (emu : Emu L T S) → IsFresh emu → IsOrdered dl pid_of gi 0 emu.threads emu.cpus
  fresh-IsOrdered emu f = record {
    threads = λ p. record {
      channels = f.channels p;
      home = ap is_none (f.nowhere p) ∙ ap is_away (sym (f.not_started p));
      state_shown = λ k. absurd (started (f.not_started p) k);
      cpu_shown = λ k. absurd (started (f.not_started p) k);
    };
    numbers = f.numbers;
    places = record {
      listed = λ c. record {
        once = subst Distinct (sym (f.unused c)) tt;
        number = f.none_counted c ∙ ap length (sym (f.unused c));
      };
      plain = f.chans;
      few = λ c. omega (arith, ap length (f.unused c));
      placed = λ p c e. ground (arith, f.nowhere p, e);
      found = λ p c m. absurd (none_there p _ (f.unused c) m);
      shows = λ p c m. absurd (none_there p _ (f.unused c) m);
    };
  }

  module _ (law : IsLinkedList dl) (h : HashTable T) (cb : ℕ → S → Option S)
      (empty_bay : S → S) where
    run_from :
        (inputs : List (Input T)) (k : ℕ) (emu out : Emu L T S)
        → k + length inputs < 2 ^ 64
        → IsOrdered dl pid_of gi k emu.threads emu.cpus
        → ovni_run empty_bay dl h pid_of cb inputs emu ≡ ok out
        → IsOrdered dl pid_of gi (k + length inputs) out.threads out.cpus
    unfolding ovni_run ovni_step set_current propagate
    run_from [] k emu out small i e =
        let same : k ≡ k + 0 = omega arith in
        subst (λ n. IsOrdered dl pid_of gi n out.threads out.cpus) same
          (subst (λ u. IsOrdered dl pid_of gi k u.threads u.cpus) (ok_inj e) i)
    run_from (input ∷ inputs) k emu out small i e =
        let (mid, first, rest) = >>=-eq-ok (ovni_step empty_bay dl h pid_of cb input emu) _ e in
        let (after, handled, flushed) =
          >>=-eq-ok (model_ovni_event dl h pid_of cb (set_current input emu)) _ first in
        let j =
          event-Ordered dl law pid_of gi cb k (set_current input emu) after (omega (arith, small)) i
            h handled in
        let now : IsOrdered dl pid_of gi (suc k) mid.threads mid.cpus =
          subst (λ u. IsOrdered dl pid_of gi (suc k) u.threads u.cpus) (ok_inj flushed)
            (flush-IsOrdered dl pid_of gi (suc k) after.threads after.cpus j) in
        let same : suc k + length inputs ≡ k + suc (length inputs) = omega arith in
        subst (λ n. IsOrdered dl pid_of gi n out.threads out.cpus) same
          (run_from inputs (suc k) mid out (omega (arith, small)) now rest)

    -- From a state in which no thread has started, any events of the ovni model that are handled without
    -- an error, fewer than 2 ^ 64, leave every thread and CPU in order: each thread is in the list of the CPU that
    -- it points to, once, and of no other; it points to none exactly while it is unknown or dead; its
    -- channels show its state and its CPU once it has started; and a CPU with threads shows those that
    -- run on it, of which a physical one has at most one.
    pub run-IsOrdered :
        (inputs : List (Input T)) (emu out : Emu L T S)
        → length inputs < 2 ^ 64
        → IsFresh emu
        → ovni_run empty_bay dl h pid_of cb inputs emu ≡ ok out
        → IsOrdered dl pid_of gi (length inputs) out.threads out.cpus
    run-IsOrdered inputs emu out small f e =
        let same : 0 + length inputs ≡ length inputs = omega arith in
        subst (λ n. IsOrdered dl pid_of gi n out.threads out.cpus) same
          (run_from inputs 0 emu out (omega (arith, small)) (fresh-IsOrdered emu f) e)
