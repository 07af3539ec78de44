-- ===== src/Mux/Follow.antt =====
-- The output of a multiplexer of src/emu/mux.c follows the selected input.
use ovni.Prelude.{
  ℕ, ◌<◌, ◌≡◌, sym, ap, subst, ◌∙◌, Option, none, some, arith, ok, or_err, >>=-eq-ok, or_err-eq-ok,
  ok_pair,
}
use ovni.Chan.{chan_read}
use ovni.Chan.Contents.{IsOutput}
use ovni.Chan.Protocol.{set}
use ovni.Vendor.{LinkedList}
use ovni.Bay.{Bay, write_chan}
use ovni.Bay.Dirty.{write_chan-rest}
use ovni.Mux.{
  Mux, select_input, index_of, clear_selected, set_selected, input_value, chan_value, cb_select,
  chan_set_failed,
}
use ovni.Mux.Choice.{Keeps, Keeps-trans, select_input-Keeps, select_input-bound}
use ovni.Mux.Switch.{IsMux, Selects, clear_lem, set_lem}

module _ {L T X : Type 0} (dl : LinkedList L) where
  input_value-Keeps :
      (mux mux' : Mux) (input : Option ℕ) (bay bay' : Bay L T X)
      → Keeps mux mux'
      → bay'.chans ≡ bay.chans
      → input_value dl mux' input bay' ≡ input_value dl mux input bay
  unfolding input_value
  input_value-Keeps mux mux' none bay bay' k e = ap ok k.same_def
  input_value-Keeps mux mux' (some i) bay bay' k e =
      ap (λ c. chan_value c bay'.chans) (k.same_chan i) ∙ ap (chan_value (mux.inputs i).chan) e

  -- After the select channel has changed with success, the input that the value of the channel selects is
  -- the only one that is marked and, of the inputs that have been set, the only one whose callback is enabled,
  -- and the output reads what this input read, or the default value if none is selected.
  pub cb_select_lem :
      (mux mux' : Mux) (bay bay' : Bay L T X)
      → IsMux dl mux bay
      → cb_select dl mux bay ≡ ok (mux', bay')
      → (input : Option ℕ) × (select_input mux (chan_read (bay.chans mux.select)) ≡ ok input)
        × Selects dl (index_of input) mux' bay'
        × (input_value dl mux input bay ≡ ok (chan_read (bay'.chans mux.output)))
  unfolding cb_select
  cb_select_lem mux mux' bay bay' i h =
      let key = chan_read (bay.chans mux.select) in
      let ((mux1, bay1), cleared, h1) = >>=-eq-ok (clear_selected dl mux bay) _ h in
      let (k1, off, same1) = clear_lem dl mux mux1 bay bay1 i cleared in
      let (input, chosen, h2) = >>=-eq-ok (select_input mux1 key) _ h1 in
      let choice = sym (select_input-Keeps mux mux1 key k1) ∙ chosen in
      let ((mux2, bay2), on, h3) = >>=-eq-ok (set_selected dl mux1 input bay1) _ h2 in
      let apart1 : (a b c : ℕ)
          → a < mux1.ninputs
          → b < mux1.ninputs
          → (mux1.inputs a).cb ≡ some c
          → (mux1.inputs b).cb ≡ some c
          → a ≡ b =
        λ a b c la lb e f.
          i.apart a b c (omega (arith, la, k1.same_n)) (omega (arith, lb, k1.same_n))
            (sym (k1.same_cb a) ∙ e) (sym (k1.same_cb b) ∙ f) in
      let range : (a : ℕ) → input ≡ some a → a < mux1.ninputs = λ a e.
        omega (arith, k1.same_n, select_input-bound mux key a i.chooses (choice ∙ ap ok e)) in
      let (k2, sel, same2) = set_lem dl mux1 mux2 input bay1 bay2 apart1 range off on in
      let k = Keeps-trans mux mux1 mux2 k1 k2 in
      let same = same2 ∙ same1 in
      let (v, read, h4) = >>=-eq-ok (input_value dl mux2 input bay2) _ h3 in
      let (bay3, wrote, last) =
        >>=-eq-ok (or_err chan_set_failed (write_chan dl mux2.output (set v) bay2)) _ h4 in
      let at_output : bay2.chans mux2.output ≡ bay.chans mux.output =
        ap bay2.chans k.same_output ∙ ap (λ f. f mux.output) same in
      let (kept, out, reads, others) =
        write_chan-rest dl mux2.output v bay2 bay3
          (ap (λ u. u.dirty_cb) at_output ∙ i.output_called ∙ ap some (sym k.same_output))
          (subst IsOutput (sym at_output) i.output_well) (or_err-eq-ok chan_set_failed _ wrote) in
      let (same_mux, same_bay) = ok_pair last in
      (
        input,
        choice,
        subst (λ m. Selects dl (index_of input) m bay') same_mux
            (subst (λ b. Selects dl (index_of input) mux2 b) (sym same_bay)
              (record {
                selection = sel.selection;
                marks = sel.marks;
                switches = λ j cb b e. ap (λ f. (f cb).enabled) kept ∙ sel.switches j cb b e;
              })),
        sym (input_value-Keeps mux mux2 input bay bay2 k same)
            ∙ read
            ∙ ap ok (
                sym reads
                ∙ ap (λ c. chan_read (bay3.chans c)) k.same_output
                ∙ ap (λ b. chan_read (b.chans mux.output)) (sym same_bay)),
      )
