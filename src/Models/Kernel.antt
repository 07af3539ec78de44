-- ===== src/Models/Kernel.antt =====
-- The context switches of src/emu/kernel/event.c, and the events of the ovni model in between.
use ovni.Prelude.{
  ℕ, ◌≡◌, sym, ap, ◌∙◌, true, not, ◌==◌, Option, ok, err, or_err, if-cases, fail_if-eq-ok,
  fail_if-skip, fail_if-stop, >>=-eq-ok, ok_inj, inl, inr,
}
use ovni.Prelude.Int.{ℤ}
use ovni.Value.{value_int64}
use ovni.Chan.{Chan, chan_push, chan_pop}
use ovni.Vendor.{LinkedList, HashTable}
use ovni.Thread.{Thread}
use ovni.Emu.Event.{EmuEv}
use ovni.Emu.{Emu, wrong_model, out_of_cpu}
use ovni.Ovni.Event.{model_ovni_event}
use ovni.Models.{context_switch, model_kernel_event, cs_out, chan_failed, unknown_category}

switched :
    {S : Type 0} (cb : ℕ → S → Option S) (ev : EmuEv) (th th' : Thread) (ch ch' : Chan) (s s' : S)
    → context_switch cb ev th ch s ≡ ok (th', ch', s')
    → th'.is_out_of_cpu ≡ (ev.v == b'O')
unfolding context_switch
switched cb ev th th' ch ch' s s' h = elim (if-cases (ev.v == b'O') _ _ h) [
  | inl (hit, h) ↦
      let ((c, s1), wrote, last) =
        >>=-eq-ok (or_err chan_failed (chan_push cb ch (value_int64 cs_out) s)) _ h in
      ap (λ q. q.0.is_out_of_cpu) (sym (ok_inj last)) ∙ sym hit
  | inr (miss, h) ↦ elim (if-cases (ev.v == b'I') _ _ h) [
    | inl (hit, h) ↦
        let ((c, s1), wrote, last) =
          >>=-eq-ok (or_err chan_failed (chan_pop cb ch (value_int64 cs_out) s)) _ h in
        ap (λ q. q.0.is_out_of_cpu) (sym (ok_inj last)) ∙ sym miss
    | inr (other, h) ↦ cc
  ]
]

-- After the kernel model has switched a thread out with success, every event of the ovni model for this
-- thread fails, because it is out of the CPU.
pub switch_out_lem :
    {L T S X : Type 0} (dl : LinkedList L) (h : HashTable T) (pid_of : ℕ → ℤ)
    (cb : ℕ → S → Option S) (cb' : ℕ → X → Option X) (ev : EmuEv) (th : Thread) (ch ch' : Chan)
    (x x' : X) (emu : Emu L T S)
    → ev.v ≡ b'O'
    → model_kernel_event cb' ev th ch x ≡ ok (emu.threads emu.thread, ch', x')
    → emu.ev.m ≡ b'O'
    → model_ovni_event dl h pid_of cb emu ≡ err out_of_cpu
unfolding model_kernel_event model_ovni_event
switch_out_lem dl h pid_of cb cb' ev th ch ch' x x' emu v e m =
    let (model, e1) = fail_if-eq-ok (not (ev.m == b'K')) _ _ e in
    let (category, e2) = fail_if-eq-ok (not (ev.c == b'C')) unknown_category _ e1 in
    let out : (emu.threads emu.thread).is_out_of_cpu ≡ true =
      switched cb' ev th (emu.threads emu.thread) ch ch' x x' e2 ∙ ap (λ n. n == b'O') v in
    fail_if-skip (not (emu.ev.m == b'O')) wrong_model _ (ap (λ n. not (n == b'O')) m)
      (fail_if-stop _ out_of_cpu _ out)
