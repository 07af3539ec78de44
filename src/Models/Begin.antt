-- ===== src/Models/Begin.antt =====
-- An event of a table of src/emu that pushes a state, and the event that ends it.
use ovni.Prelude.{
  ℕ, ◌≡◌, sym, ap, ◌∙◌, false, Option, some, List, ok, ◌>>=◌, or_err, >>=-eq-ok, or_err-eq-ok,
  ok_pair,
}
use ovni.Prelude.Int.{pos}
use ovni.Value.{value_int64}
use ovni.Chan.{Chan, is_single, chan_flush, chan_push, chan_pop}
use ovni.Vendor.{update, update_at}
use ovni.Models.{Row, do_push, do_pop, find_row, act, act_on, simple, chan_failed}
use ovni.Models.Pairs.{TableModel, table_of, all_paired, row_ends, ends_lem}
use ovni.Models.Stacks.{Succeeds, pushed, flushed, popped}

module _ {S : Type 0} (cb : ℕ → S → Option S) where
  simple_row :
      (table : List Row) (c v : ℕ) (ch : ℕ → Chan) (s : S) (r : Row)
      → find_row table c v ≡ some r
      → simple cb table c v ch s ≡ act_on cb (some r) ch s
  unfolding simple
  simple_row table c v ch s r e = ap (λ o. act_on cb o ch s) e

  act_push :
      (r : Row) (ch : ℕ → Chan) (s : S)
      → r.action ≡ do_push
      → act_on cb (some r) ch s ≡ (
          or_err chan_failed (chan_push cb (ch r.chan) (value_int64 (pos r.state)) s) >>= λ (c, s').
          ok (update ch r.chan c, s'))
  act_push r ch s p =
      ap (λ a. act cb a (ch r.chan) r.state s >>= λ (c, s'). ok (update ch r.chan c, s')) p

  act_pop :
      (e : Row) (k st : ℕ) (ch : ℕ → Chan) (s : S)
      → e.action ≡ do_pop
      → e.chan ≡ k
      → e.state ≡ st
      → act_on cb (some e) ch s ≡ (
          or_err chan_failed (chan_pop cb (ch k) (value_int64 (pos st)) s) >>= λ (c, s').
          ok (update ch k c, s'))
  act_pop e k st ch s p ek es =
      ap (λ a. act cb a (ch e.chan) e.state s >>= λ (c, s'). ok (update ch e.chan c, s')) p
      ∙ ap (λ n. act cb do_pop (ch n) e.state s >>= λ (c, s'). ok (update ch n c, s')) ek
      ∙ ap (λ n. act cb do_pop (ch k) n s >>= λ (c, s'). ok (update ch k c, s')) es

  end_step :
      (table : List Row) (c v k st : ℕ) (ch : ℕ → Chan) (d p : Chan) (s s' : S) (e : Row)
      → find_row table c v ≡ some e
      → e.action ≡ do_pop
      → e.chan ≡ k
      → e.state ≡ st
      → chan_pop cb d (value_int64 (pos st)) s ≡ ok (p, s')
      → simple cb table c v (update ch k d) s ≡ ok (update (update ch k d) k p, s')
  end_step table c v k st ch d p s s' e is pop ek es h =
      simple_row table c v (update ch k d) s e is
      ∙ act_pop e k st (update ch k d) s pop ek es
      ∙ ap
          (λ u. or_err chan_failed (chan_pop cb u (value_int64 (pos st)) s) >>= λ (c, s').
            ok (update (update ch k d) k c, s'))
          (update_at ch k d)
      ∙ ap (λ u. or_err chan_failed u >>= λ (c, s'). ok (update (update ch k d) k c, s')) h

  -- In the tables of the tampi, mpi, nodes, openmp, nosv and nanos6 models, an event that pushes a state with success
  -- has an event that ends it: where the dirty callbacks succeed, after the flush of the channel the event is
  -- taken without an error, and the stack is what it was.
  pub begin_end :
      (m : TableModel) (c v : ℕ) (r : Row) (ch ch1 : ℕ → Chan) (s s1 : S)
      → Succeeds cb
      → find_row (table_of m) c v ≡ some r
      → r.action ≡ do_push
      → (ch r.chan).skips_dup ≡ false
      → simple cb (table_of m) c v ch s ≡ ok (ch1, s1)
      → (v' : ℕ) × (d : Chan) × (ch2 : ℕ → Chan) × (s2 : S) × (chan_flush (ch1 r.chan) ≡ ok d)
        × (simple cb (table_of m) c v' (update ch1 r.chan d) s1 ≡ ok (ch2, s2))
        × ((ch2 r.chan).values ≡ (ch r.chan).values)
  begin_end m c v r ch ch1 s s1 calls found push no_skip h =
      let table = table_of m in
      let k = r.chan in
      let value = value_int64 (pos r.state) in
      let (same_c, v', ended) = row_ends table table c v r (all_paired m) found push in
      let (e, is, pop, ek, es) = ends_lem r (find_row table r.c v') ended in
      let h1 = sym (simple_row table c v ch s r found ∙ act_push r ch s push) ∙ h in
      let ((c1, mid), wrote, last) =
        >>=-eq-ok (or_err chan_failed (chan_push cb (ch k) value s)) _ h1 in
      let (vals, dirty, stacked, called_by) =
        pushed cb (ch k) c1 value s mid no_skip (or_err-eq-ok chan_failed _ wrote) in
      let (same_ch, same_s) = ok_pair last in
      let there : ch1 k ≡ c1 = ap (λ f. f k) (sym same_ch) ∙ update_at ch k c1 in
      let (d, flush, clean, kept, type) = flushed cb c1 dirty in
      let ch1' = update ch1 k d in
      let (p, s2, popped_ok, left) =
        popped cb d value (ch k).values s1 calls clean (ap is_single type ∙ stacked)
          (kept ∙ vals) in
      (
        v',
        d,
        update ch1' k p,
        s2,
        ap chan_flush there ∙ flush,
        end_step table c v' k r.state ch1 d p s1 s2 e
            (ap (λ n. find_row table n v') (sym same_c) ∙ is) pop ek es popped_ok,
        ap (λ u. u.values) (update_at ch1' k p) ∙ left,
      )
