-- ===== src/Ovni/Bursts.antt =====
-- The bursts of a thread, under pre_burst of src/emu/ovni/event.c.
use ovni.Prelude.{
  ℕ, zero, suc, ◌+◌, ◌%◌, ◌<◌, ◌≡◌, refl, ap, ◌∙◌, false, leb, arith, ok, Result, ◌>>=◌,
}
use ovni.Vendor.{update, update_at, update_other}
use ovni.Emu.{Emu, EmuError, OvniThread}
use ovni.Ovni.Data.{pre_burst, current, set_current, max_bursts, next_burst}

burst_index : (n : ℕ) → n < max_bursts → next_burst (n + 1) ≡ (n + 1) % max_bursts
burst_index n h = ground arith

module _ {L T S : Type 0} where
  -- What a burst makes of the data of the current thread.
  abbrev counted : Emu L T S → OvniThread
  counted emu = record (current emu) {
    burst_time = update (current emu).burst_time (current emu).nbursts emu.ev.dclock;
    nbursts = next_burst ((current emu).nbursts + 1);
  }

  burst_ok :
      (emu : Emu L T S)
      → (current emu).nbursts < max_bursts
      → pre_burst emu ≡ ok (set_current emu (counted emu))
  unfolding pre_burst
  burst_ok emu h =
      let room : leb max_bursts (current emu).nbursts ≡ false = ground arith in rw room refl

  -- The same event, a number of times.
  unfoldable pub bursts : ℕ → Emu L T S → Result EmuError (Emu L T S)
  unfolding pre_burst
  bursts zero emu = ok emu
  bursts (suc n) emu = pre_burst emu >>= bursts n

  -- Bursts never fail and never write past the array: from a count below 100, after any number of
  -- them the count of the thread is their number added to it, modulo 100, and no other thread has
  -- changed.
  pub bursts_lem :
      (n : ℕ) (emu : Emu L T S)
      → (current emu).nbursts < max_bursts
      → (out : Emu L T S) × (bursts n emu ≡ ok out)
        × (out.thread ≡ emu.thread)
        × ((current out).nbursts ≡ ((current emu).nbursts + n) % max_bursts)
        × ((current out).nbursts < max_bursts)
        × ((q : ℕ) → ¬ (q ≡ emu.thread) → out.ovni_threads q ≡ emu.ovni_threads q)
  unfolding bursts
  bursts_lem zero emu h = (emu, refl, refl, omega (arith, h), h, λ q n. refl)
  bursts_lem (suc n) emu h =
      let mid = set_current emu (counted emu) in
      let it : current mid ≡ counted emu = update_at emu.ovni_threads emu.thread (counted emu) in
      let count : (current mid).nbursts ≡ ((current emu).nbursts + 1) % max_bursts =
        ap (λ u. u.nbursts) it ∙ burst_index (current emu).nbursts h in
      let (out, ran, same, number, bound, others) = bursts_lem n mid (omega (arith, count)) in
      (
        out,
        ap (λ m. m >>= bursts n) (burst_ok emu h) ∙ ran,
        same,
        omega (arith, number, count),
        bound,
        λ q k. others q k ∙ update_other emu.ovni_threads emu.thread (counted emu) q k,
      )
