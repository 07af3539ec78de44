-- ===== src/Ovni/Remote.antt =====
-- The two affinity events of src/emu/ovni/event.c, with the CPU that the thread already has.
use ovni.Prelude.{
  ℕ, ◌≡◌, sym, ap, ◌∙◌, false, not, ◌==◌, Option, some, ok, err, or_err, arith, fail_if-eq-ok,
  >>=-eq-ok, >>=-take, or_err-eq-ok, is_none, inl, inr, Result-cases,
}
use ovni.Prelude.Int.{ℤ}
use ovni.Value.{Value, value_is_equal_iff, value_int64}
use ovni.Chan.{Chan, chan_read, chan_set}
use ovni.Vendor.{LinkedList, HashTable}
use ovni.Thread.{Thread, thread_migrate_cpu, chan_set_failed, no_cpu, move_to}
use ovni.Thread.Shown.{IsPlain, cpu_value}
use ovni.Cpu.{cpu_migrate_thread}
use ovni.Emu.Event.{payload_i32}
use ovni.Emu.{
  Emu, EmuError, from_option, cpu_failed, wrong_payload_size, not_on_cpu, is_dead, is_unknown,
}
use ovni.Ovni.Handlers.{
  get_cpu, gindex_of, find_remote, migrate, pre_affinity_remote, is_dead_state, is_unknown_state,
}
use ovni.Ovni.Shown.{IsInOrder, not_away}
use ovni.Ovni.Moves.{on_thread-then, last_call}

-- A channel as chan_init leaves it takes no duplicates, and does not skip them.
pub record IsStrict (chan : Chan) : Type 0 where
  pub plain : IsPlain chan
  pub no_dup : chan.can_dup ≡ false
  pub no_skip : chan.skips_dup ≡ false

module _ {S : Type 0} (cb : ℕ → S → Option S) where
  same_value-fails :
      (chan c : Chan) (v : Value) (s s' : S)
      → IsStrict chan
      → chan_read chan ≡ v
      → ¬ (chan_set cb chan v s ≡ ok (c, s'))
  unfolding chan_set
  same_value-fails chan c v s s' i e h =
      let settled = i.plain.settled in
      let once = i.plain.one_write in
      let dup = i.no_dup in
      let skip = i.no_skip in ground (arith, value_is_equal_iff chan.last_value v)

  migrate_there-fails :
      (gindex : ℕ → ℤ) (th th' : Thread) (c : ℕ) (s s' : S)
      → IsStrict th.chan_cpu
      → chan_read th.chan_cpu ≡ value_int64 (gindex c)
      → ¬ (thread_migrate_cpu cb gindex th c s ≡ ok (th', s'))
  unfolding thread_migrate_cpu move_to
  migrate_there-fails gindex th th' c s s' i e h =
      let (had, rest) = fail_if-eq-ok (is_none th.cpu) no_cpu _ h in
      let ((chan, s1), first, last) =
        >>=-eq-ok (or_err chan_set_failed (chan_set cb th.chan_cpu (value_int64 (gindex c)) s)) _
          rest in
      same_value-fails th.chan_cpu chan (value_int64 (gindex c)) s s1 i e
        (or_err-eq-ok chan_set_failed _ first)

module _ {L T S : Type 0} (dl : LinkedList L) (h : HashTable T) (pid_of : ℕ → ℤ)
    (cb : ℕ → S → Option S) (emu : Emu L T S) where
  migrate_same-fails :
      (p c c' : ℕ) (out : Emu L T S)
      → IsStrict (emu.threads p).chan_cpu
      → chan_read (emu.threads p).chan_cpu ≡ value_int64 (gindex_of dl pid_of cb emu c)
      → ¬ (migrate dl pid_of cb emu c' p c ≡ ok out)
  unfolding migrate
  migrate_same-fails p c c' out strict e k =
      let ((cpus, s1), moved, k1) =
        >>=-eq-ok
          (or_err cpu_failed (cpu_migrate_thread dl emu.threads pid_of cb emu.cpus c' p c emu.bay))
          _ k in
      let (th, s2, follows, last) =
        on_thread-then p (λ th s. thread_migrate_cpu cb (gindex_of dl pid_of cb emu) th c s)
          (record emu { cpus = cpus; bay = s1 }) ok (last_call _ k1) in
      migrate_there-fails cb (gindex_of dl pid_of cb emu) (emu.threads p) th c s1 s2 strict e
        follows

  module _ (p c : ℕ) (order : IsInOrder (gindex_of dl pid_of cb emu) (emu.threads p))
      (strict : IsStrict (emu.threads p).chan_cpu) (has : (emu.threads p).cpu ≡ some c)
      (goes : get_cpu dl pid_of cb emu (payload_i32 emu.ev 0) ≡ ok c) where
    -- On a thread in order, whose channel of the CPU takes no duplicates: the remote affinity event with the
    -- CPU that the thread already has fails.
    pub remote_same_cpu :
        find_remote dl pid_of cb h emu (payload_i32 emu.ev 1) ≡ ok p
        → (e : EmuError) × (pre_affinity_remote dl pid_of cb h emu ≡ err e)
    unfolding pre_affinity_remote
    remote_same_cpu found = elim (Result-cases (pre_affinity_remote dl pid_of cb h emu)) [
      | inr e ↦ e
      | inl (out, k) ↦
          let (sized, k1) = fail_if-eq-ok (not (emu.ev.payload_size == 8)) wrong_payload_size _ k in
          let k2 = >>=-take (find_remote dl pid_of cb h emu (payload_i32 emu.ev 1)) _ found k1 in
          let th = emu.threads p in
          let (alive, k3) = fail_if-eq-ok (is_dead_state th.state) is_dead _ k2 in
          let (known, k4) = fail_if-eq-ok (is_unknown_state th.state) is_unknown _ k3 in
          let k5 =
            >>=-take (from_option not_on_cpu th.cpu) _ (ap (from_option not_on_cpu) has) k4 in
          let k6 = >>=-take (get_cpu dl pid_of cb emu (payload_i32 emu.ev 0)) _ goes k5 in
          let shown =
            order.cpu_shown (not_away th.state (sym order.home ∙ ap is_none has))
            ∙ ap (cpu_value (gindex_of dl pid_of cb emu)) has in
          absurd (migrate_same-fails p c c out strict shown k6)
    ]
