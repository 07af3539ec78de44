-- ===== src/Ovni/Shown.antt =====
-- What a thread shows of itself after the calls of src/emu/thread.c that the handlers make.
use ovni.Prelude.{
  ℕ, ◌≡◌, refl, sym, subst, ap, ◌∙◌, Bool, true, false, Option, none, some, ok, is_none, or_err,
  >>=-eq-ok, fail_if-eq-ok, ok_pair, not,
}
use ovni.Prelude.Int.{ℤ}
use ovni.Value.{value_int64, value_null}
use ovni.Chan.{Chan, chan_read, chan_set}
use ovni.Thread.{
  Thread, ThreadState, unknown, dead, running, paused, cooling, warming, thread_set_state,
  thread_set_cpu, thread_migrate_cpu, thread_unset_cpu, no_cpu, has_cpu, chan_set_failed, move_to,
}
use ovni.Thread.Shown.{
  HasPlainChannels, ShowsState, cpu_value, set_state-ShowsState, Placed, sets, migrates, unsets,
  place, place_lem,
}
use ovni.Cpu.Alike.{Alike}
use ovni.Ovni.Handlers.{is_unknown_state}

-- The states in which a thread has no CPU.
abbrev pub is_away : ThreadState → Bool
is_away unknown = true
is_away dead = true
is_away _ = false

-- A thread has a CPU exactly while it is neither unknown nor dead, and its channels show its state and its
-- CPU, unless it has not started.
pub record IsInOrder (gindex : ℕ → ℤ) (th : Thread) : Type 0 where
  pub channels : HasPlainChannels th
  pub home : is_none th.cpu ≡ is_away th.state
  pub state_shown : is_unknown_state th.state ≡ false → ShowsState th
  pub cpu_shown :
      is_unknown_state th.state ≡ false → chan_read th.chan_cpu ≡ cpu_value gindex th.cpu

pub not_away : (st : ThreadState) → is_away st ≡ false → is_unknown_state st ≡ false
not_away unknown h = cc
not_away dead h = refl
not_away running h = refl
not_away paused h = refl
not_away cooling h = refl
not_away warming h = refl

module _ {S : Type 0} (cb : ℕ → S → Option S) where
  set_state-chan_cpu :
      (th th' : Thread) (state : ThreadState) (s s' : S)
      → thread_set_state cb th state s ≡ ok (th', s')
      → (is_none th.cpu ≡ false) × (th'.chan_cpu ≡ th.chan_cpu)
  unfolding thread_set_state
  set_state-chan_cpu th th' state s s' h =
      let (on_cpu, rest) = fail_if-eq-ok (is_none th.cpu) no_cpu _ h in
      let ((st, s1), first, rest2) =
        >>=-eq-ok (or_err chan_set_failed (chan_set cb th.chan_state _ s)) _ rest in
      let ((td, s2), second, last) =
        >>=-eq-ok (or_err chan_set_failed (chan_set cb th.chan_tid _ s1)) _ rest2 in
      (on_cpu, ap (λ u. u.chan_cpu) (sym ((ok_pair last).0)))

  -- What a move of the thread leaves as it was.
  record Keeps (th th' : Thread) : Type 0 where
    keeps_shown : ShowsState th → ShowsState th'
    keeps_alike : Alike th th'

  moved-Keeps :
      (th : Thread) (cpu : Option ℕ) (chan : Chan)
      → Keeps th (record th { cpu = cpu; chan_cpu = chan })
  moved-Keeps th cpu chan = record {
    keeps_shown = λ k. record {
      running_flag = k.running_flag;
      active_flag = k.active_flag;
      state_shown = k.state_shown;
      tid_shown = k.tid_shown;
    };
    keeps_alike = record { state_same = refl; tid_same = refl; gindex_same = refl };
  }

  module _ (gindex : ℕ → ℤ) where
    move_to-Keeps :
        (cpu : ℕ) (th th' : Thread) (s s' : S)
        → move_to cb gindex cpu th s ≡ ok (th', s')
        → Keeps th th'
    unfolding move_to
    move_to-Keeps cpu th th' s s' h =
        let ((c, s1), first, last) =
          >>=-eq-ok (or_err chan_set_failed (chan_set cb th.chan_cpu (value_int64 (gindex cpu)) s))
            _ h in
        subst (Keeps th) ((ok_pair last).0) (moved-Keeps th (some cpu) c)

    place-Keeps :
        (to : Placed cb gindex) (th th' : Thread) (s s' : S)
        → place cb gindex to th s ≡ ok (th', s')
        → Keeps th th'
    unfolding place thread_set_cpu thread_migrate_cpu thread_unset_cpu
    place-Keeps (sets cpu) th th' s s' h =
        let (free, rest) = fail_if-eq-ok (not (is_none th.cpu)) has_cpu _ h in
        move_to-Keeps cpu th th' s s' rest
    place-Keeps (migrates cpu) th th' s s' h =
        let (had, rest) = fail_if-eq-ok (is_none th.cpu) no_cpu _ h in
        move_to-Keeps cpu th th' s s' rest
    place-Keeps unsets th th' s s' h =
        let (had, rest) = fail_if-eq-ok (is_none th.cpu) no_cpu _ h in
        let ((c, s1), first, last) =
          >>=-eq-ok (or_err chan_set_failed (chan_set cb th.chan_cpu value_null s)) _ rest in
        subst (Keeps th) ((ok_pair last).0) (moved-Keeps th none c)

    none_of : {A : Type 0} (o : Option A) → is_none o ≡ true → o ≡ none
    none_of none h = refl
    none_of (some a) h = cc

    shown_as :
        (gi : ℕ → ℤ) (o : Option ℕ)
        → ((c : ℕ) → gindex c ≡ gi c)
        → cpu_value gindex o ≡ cpu_value gi o
    shown_as gi none agree = refl
    shown_as gi (some c) agree = ap value_int64 (agree c)

    -- The threads of the handlers, where the numbers of the CPUs are those of `gi`.
    module _ (gi : ℕ → ℤ) (agree : (c : ℕ) → gindex c ≡ gi c) where
      pub execute-IsInOrder :
          (c : ℕ) (th th1 th2 : Thread) (s s1 s2 : S)
          → HasPlainChannels th
          → thread_set_cpu cb gindex th (some c) s ≡ ok (th1, s1)
          → thread_set_state cb th1 running s1 ≡ ok (th2, s2)
          → IsInOrder gi th2 × (th.cpu ≡ none) × (th2.cpu ≡ some c)
      unfolding place
      execute-IsInOrder c th th1 th2 s s1 s2 p h h' =
          let (free, on_it, shown, plain, same) = place_lem cb gindex (sets c) th th1 s s1 p h in
          let (state_shown, plain', now, kept) =
            set_state-ShowsState cb th1 th2 running s1 s2 plain h' in
          let (had, chan) = set_state-chan_cpu th1 th2 running s1 s2 h' in
          (
            record {
              channels = plain';
              home = ap is_none (kept ∙ on_it) ∙ ap is_away (sym now);
              state_shown = λ k. state_shown;
              cpu_shown = λ k.
                  ap chan_read chan
                  ∙ shown
                  ∙ shown_as gi th1.cpu agree
                  ∙ ap (cpu_value gi) (sym kept);
            },
            none_of th.cpu free,
            kept ∙ on_it,
          )

      pub end-IsInOrder :
          (th th1 th2 : Thread) (s s1 s2 s3 : S)
          → HasPlainChannels th
          → thread_set_state cb th dead s ≡ ok (th1, s1)
          → thread_unset_cpu cb th1 s2 ≡ ok (th2, s3)
          → IsInOrder gi th2 × (th1.cpu ≡ th.cpu) × (th2.cpu ≡ none)
      unfolding place
      end-IsInOrder th th1 th2 s s1 s2 s3 p h h' =
          let (state_shown, plain, now, kept) = set_state-ShowsState cb th th1 dead s s1 p h in
          let (had, gone, shown, plain', same) =
            place_lem cb gindex unsets th1 th2 s2 s3 plain h' in
          (
            record {
              channels = plain';
              home = ap is_none gone ∙ ap is_away (sym (same ∙ now));
              state_shown =
                  λ k. Keeps.keeps_shown (place-Keeps unsets th1 th2 s2 s3 h') state_shown;
              cpu_shown = λ k. shown ∙ shown_as gi th2.cpu agree;
            },
            kept,
            gone,
          )

      pub change-IsInOrder :
          (state : ThreadState) (th th' : Thread) (s s' : S)
          → IsInOrder gi th
          → is_away state ≡ false
          → thread_set_state cb th state s ≡ ok (th', s')
          → IsInOrder gi th' × (th'.cpu ≡ th.cpu) × (th'.state ≡ state)
      change-IsInOrder state th th' s s' i stays h =
          let (state_shown, plain, now, kept) =
            set_state-ShowsState cb th th' state s s' i.channels h in
          let (had, chan) = set_state-chan_cpu th th' state s s' h in
          let started = not_away th.state (sym i.home ∙ had) in
          (
            record {
              channels = plain;
              home = ap is_none kept ∙ had ∙ sym stays ∙ ap is_away (sym now);
              state_shown = λ k. state_shown;
              cpu_shown =
                  λ k. ap chan_read chan ∙ i.cpu_shown started ∙ ap (cpu_value gi) (sym kept);
            },
            kept,
            now,
          )

      pub migrate-IsInOrder :
          (c : ℕ) (th th' : Thread) (s s' : S)
          → IsInOrder gi th
          → thread_migrate_cpu cb gindex th c s ≡ ok (th', s')
          → IsInOrder gi th' × (th'.cpu ≡ some c) × Alike th th'
      unfolding place
      migrate-IsInOrder c th th' s s' i h =
          let (had, on_it, shown, plain, same) =
            place_lem cb gindex (migrates c) th th' s s' i.channels h in
          let keeps = place-Keeps (migrates c) th th' s s' h in
          let started = not_away th.state (sym i.home ∙ had) in
          (
            record {
              channels = plain;
              home = ap is_none on_it ∙ sym had ∙ i.home ∙ ap is_away (sym same);
              state_shown = λ k. Keeps.keeps_shown keeps (i.state_shown started);
              cpu_shown = λ k. shown ∙ shown_as gi th'.cpu agree;
            },
            on_it,
            Keeps.keeps_alike keeps,
          )
