-- ===== src/Thread/Shown.antt =====
-- What the channels of a thread of src/emu/thread.c show.
use ovni.Prelude.{
  was_not, ℕ, ◌≡◌, refl, subst, Bool, true, false, Option, none, some, if◌then◌else◌, Result, ok,
  or_err, is_none, inl, arith, >>=-eq-ok, or_err-eq-ok, fail_if-eq-ok, ok_pair,
}
use ovni.Prelude.Int.{ℤ, pos}
use ovni.Value.{Value, value_int64, value_null}
use ovni.Chan.{Chan, chan_read, chan_set}
use ovni.Chan.Protocol.{write, write-Same, set}
use ovni.Chan.Contents.{IsSettled, write-IsSettled, set-read}
use ovni.Thread.{
  Thread, ThreadState, ThreadError, state_number, is_running_state, is_active_state,
  thread_set_state, thread_set_cpu, thread_migrate_cpu, thread_unset_cpu, chan_set_failed, no_cpu,
  has_cpu, move_to,
}

-- A channel that `chan_set` makes read its value.
pub record IsPlain (chan : Chan) : Type 0 where
  pub settled : IsSettled chan
  pub one_write : chan.can_dirty_write ≡ false

-- What the channel of the CPU shows.
abbrev pub cpu_value : (ℕ → ℤ) → Option ℕ → Value
cpu_value gindex none = value_null
cpu_value gindex (some cpu) = value_int64 (gindex cpu)

-- The flags and the channels follow the state of the thread.
pub record ShowsState (th : Thread) : Type 0 where
  pub running_flag : th.is_running ≡ is_running_state th.state
  pub active_flag : th.is_active ≡ is_active_state th.state
  pub state_shown : chan_read th.chan_state ≡ value_int64 (pos (state_number th.state))
  pub tid_shown :
      chan_read th.chan_tid ≡ (if is_active_state th.state then value_int64 th.tid else value_null)

pub record HasPlainChannels (th : Thread) : Type 0 where
  pub cpu_plain : IsPlain th.chan_cpu
  pub tid_plain : IsPlain th.chan_tid
  pub state_plain : IsPlain th.chan_state

module _ {S : Type 0} (cb : ℕ → S → Option S) where
  pub set-IsPlain :
      (chan c : Chan) (v : Value) (s s' : S)
      → IsPlain chan
      → chan_set cb chan v s ≡ ok (c, s')
      → IsPlain c × (chan_read c ≡ v)
  set-IsPlain chan c v s s' p h = (
    record {
      settled = write-IsSettled cb (set v) chan c s s' (unfold write in h) p.settled;
      one_write =
          ground (arith, write-Same cb (set v) chan c s s' (unfold write in h), p.one_write);
    },
    set-read cb v chan c s s' p.settled (inl p.one_write) h,
  )

  -- After the state of a thread whose channels are settled and allow no dirty writes has been set, the thread is in that state on the CPU that it had, and its flags and
  -- the channels of the state and of the active thread show it.
  pub set_state-ShowsState :
      (th th' : Thread) (state : ThreadState) (s s' : S)
      → HasPlainChannels th
      → thread_set_state cb th state s ≡ ok (th', s')
      → ShowsState th' × HasPlainChannels th' × (th'.state ≡ state) × (th'.cpu ≡ th.cpu)
  unfolding thread_set_state
  set_state-ShowsState th th' state s s' p h =
      let (on_cpu, rest) = fail_if-eq-ok (is_none th.cpu) no_cpu _ h in
      let number = value_int64 (pos (state_number state)) in
      let tid = if is_active_state state then value_int64 th.tid else value_null in
      let ((st, s1), first, rest2) =
        >>=-eq-ok (or_err chan_set_failed (chan_set cb th.chan_state number s)) _ rest in
      let ((td, s2), second, last) =
        >>=-eq-ok (or_err chan_set_failed (chan_set cb th.chan_tid tid s1)) _ rest2 in
      let (st_plain, st_read) =
        set-IsPlain th.chan_state st number s s1 p.state_plain
          (or_err-eq-ok chan_set_failed _ first) in
      let (td_plain, td_read) =
        set-IsPlain th.chan_tid td tid s1 s2 p.tid_plain (or_err-eq-ok chan_set_failed _ second) in
      let (same, out) = ok_pair last in
      subst (λ u. ShowsState u × HasPlainChannels u × (u.state ≡ state) × (u.cpu ≡ th.cpu)) same
        (
          record {
            running_flag = refl;
            active_flag = refl;
            state_shown = st_read;
            tid_shown = td_read;
          },
          record { cpu_plain = p.cpu_plain; tid_plain = td_plain; state_plain = st_plain },
          refl,
          refl,
        )

  module _ (gindex : ℕ → ℤ) where
    move_to_lem :
        (cpu : ℕ) (th th' : Thread) (s s' : S)
        → HasPlainChannels th
        → move_to cb gindex cpu th s ≡ ok (th', s')
        → (th'.cpu ≡ some cpu)
          × (chan_read th'.chan_cpu ≡ cpu_value gindex th'.cpu)
          × HasPlainChannels th'
          × (th'.state ≡ th.state)
    unfolding move_to
    move_to_lem cpu th th' s s' p h =
        let ((c, s1), first, last) =
          >>=-eq-ok (or_err chan_set_failed (chan_set cb th.chan_cpu (value_int64 (gindex cpu)) s))
            _ h in
        let (plain, reads) =
          set-IsPlain th.chan_cpu c (value_int64 (gindex cpu)) s s1 p.cpu_plain
            (or_err-eq-ok chan_set_failed _ first) in
        let (same, out) = ok_pair last in
        subst
          (λ u.
            (u.cpu ≡ some cpu)
            × (chan_read u.chan_cpu ≡ cpu_value gindex u.cpu)
            × HasPlainChannels u
            × (u.state ≡ th.state))
          same
          (
            refl,
            reads,
            record { cpu_plain = plain; tid_plain = p.tid_plain; state_plain = p.state_plain },
            refl,
          )

    -- Where a thread goes: it is put on a CPU, moved to another, or taken away.
    pub data Placed : Type 0 where
      sets migrates : ℕ → Placed
      unsets : Placed

    unfoldable pub place : Placed → Thread → S → Result ThreadError (Thread × S)
    place (sets cpu) th s = thread_set_cpu cb gindex th (some cpu) s
    place (migrates cpu) th s = thread_migrate_cpu cb gindex th cpu s
    place unsets th s = thread_unset_cpu cb th s

    abbrev pub target : Placed → Option ℕ
    target (sets cpu) = some cpu
    target (migrates cpu) = some cpu
    target unsets = none

    abbrev pub is_set : Placed → Bool
    is_set (sets cpu) = true
    is_set _ = false

    -- Where the channels of the thread are settled and allow no dirty writes: a thread that is put on a CPU had
    -- none, one that is moved or taken away had one. Then it has the
    -- CPU that was meant, its channel of the CPU shows it, and its state has not changed.
    pub place_lem :
        (to : Placed) (th th' : Thread) (s s' : S)
        → HasPlainChannels th
        → place to th s ≡ ok (th', s')
        → (is_none th.cpu ≡ is_set to)
          × (th'.cpu ≡ target to)
          × (chan_read th'.chan_cpu ≡ cpu_value gindex th'.cpu)
          × HasPlainChannels th'
          × (th'.state ≡ th.state)
    unfolding place thread_set_cpu thread_migrate_cpu thread_unset_cpu
    place_lem (sets cpu) th th' s s' p h =
        let (free, rest) = fail_if-eq-ok _ has_cpu _ h in
        let (on_it, shown, plain, same) = move_to_lem cpu th th' s s' p rest in
        (was_not (is_none th.cpu) free, on_it, shown, plain, same)
    place_lem (migrates cpu) th th' s s' p h =
        let (had, rest) = fail_if-eq-ok _ no_cpu _ h in
        let (on_it, shown, plain, same) = move_to_lem cpu th th' s s' p rest in
        (had, on_it, shown, plain, same)
    place_lem unsets th th' s s' p h =
        let (had, rest) = fail_if-eq-ok (is_none th.cpu) no_cpu _ h in
        let ((c, s1), first, last) =
          >>=-eq-ok (or_err chan_set_failed (chan_set cb th.chan_cpu value_null s)) _ rest in
        let (plain, reads) =
          set-IsPlain th.chan_cpu c value_null s s1 p.cpu_plain
            (or_err-eq-ok chan_set_failed _ first) in
        let (same, out) = ok_pair last in
        subst
          (λ u.
            (is_none th.cpu ≡ false)
            × (u.cpu ≡ none)
            × (chan_read u.chan_cpu ≡ cpu_value gindex u.cpu)
            × HasPlainChannels u
            × (u.state ≡ th.state))
          same
          (
            had,
            refl,
            reads,
            record { cpu_plain = plain; tid_plain = p.tid_plain; state_plain = p.state_plain },
            refl,
          )
