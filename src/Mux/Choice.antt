-- ===== src/Mux/Choice.antt =====
-- The choice of an input by a multiplexer of src/emu/mux.c.
use ovni.Prelude.{
  ℕ, ◌<◌, ◌≡◌, ◌≢◌, refl, sym, ap, subst, ◌∙◌, Bool, true, false, ◌||◌, leb, Option, none, some,
  arith, ok, err, or_err-eq-ok, ok_inj, if-cases, Option-cases, Result, inl, inr,
}
use ovni.Prelude.Int.{ℤ, pos, negsuc, eq_ℤ, ltb_ℤ, pos_part}
use ovni.Value.{Value, ValueType, null, int64, double}
use ovni.Vendor.{at_place}
use ovni.Mux.{Mux, MuxError, default_select, select_input, mark, select_failed}

pub apart_from : (i j : ℕ) → j ≢ i → eq_ℤ (pos i) (pos j) ≡ false
apart_from i j n = ground arith

pub no_input : (j : ℕ) → false ≡ eq_ℤ (negsuc 0) (pos j)
no_input j = ground arith

pub not_set : (b : Bool) → ¬ (b ≡ true) → b ≡ false
not_set true h = absurd (h refl)
not_set false h = refl

pub is_pos : (s : ℤ) → ltb_ℤ s (pos 0) ≡ false → s ≡ pos (pos_part s)
is_pos (pos n) h = refl
is_pos (negsuc n) h = absurd (ground arith)

-- What the two steps of a selection keep of the mux.
pub record Keeps (mux mux' : Mux) : Type 0 where
  pub same_n : mux'.ninputs ≡ mux.ninputs
  pub same_cb : (j : ℕ) → (mux'.inputs j).cb ≡ (mux.inputs j).cb
  pub same_chan : (j : ℕ) → (mux'.inputs j).chan ≡ (mux.inputs j).chan
  pub same_output : mux'.output ≡ mux.output
  pub same_def : mux'.def ≡ mux.def
  pub same_func : mux'.select_func ≡ mux.select_func

pub mark-Keeps :
    (mux : Mux) (i : ℕ) (on : Bool) (s : ℤ) → Keeps mux (record (mark mux i on) { selected = s })
mark-Keeps mux i on s = record {
  same_n = refl;
  same_cb = λ j.
      at_place (λ u. u.cb ≡ (mux.inputs j).cb) mux.inputs i _ j
        (λ e. ap (λ k. (mux.inputs k).cb) (sym e)) (λ n. refl);
  same_chan = λ j.
      at_place (λ u. u.chan ≡ (mux.inputs j).chan) mux.inputs i _ j
        (λ e. ap (λ k. (mux.inputs k).chan) (sym e)) (λ n. refl);
  same_output = refl;
  same_def = refl;
  same_func = refl;
}

pub Keeps-trans : (a b c : Mux) → Keeps a b → Keeps b c → Keeps a c
Keeps-trans a b c k l = record {
  same_n = l.same_n ∙ k.same_n;
  same_cb = λ j. l.same_cb j ∙ k.same_cb j;
  same_chan = λ j. l.same_chan j ∙ k.same_chan j;
  same_output = l.same_output ∙ k.same_output;
  same_def = l.same_def ∙ k.same_def;
  same_func = l.same_func ∙ k.same_func;
}

pub select_input-Keeps :
    (mux mux' : Mux) (key : Value) → Keeps mux mux' → select_input mux' key ≡ select_input mux key
unfolding select_input default_select
select_input-Keeps mux mux' key k =
    ap (λ f. select_input (record mux { select_func = f; ninputs = mux'.ninputs }) key) k.same_func
    ∙ ap (λ n. select_input (record mux { ninputs = n }) key) k.same_n

default_bound :
    (mux : Mux) (type : ValueType) (v : ℤ) (i : ℕ)
    → default_select mux (record { type = type; i = v }) ≡ ok (some i)
    → i < mux.ninputs
unfolding default_select
default_bound mux null v i h = cc
default_bound mux double v i h = cc
default_bound mux int64 v i h =
    elim (if-cases (ltb_ℤ v (pos 0) || leb mux.ninputs (pos_part v)) _ _ h) [
      | inl (hit, e) ↦ cc
      | inr (miss, e) ↦ let is : some (pos_part v) ≡ some i = ok_inj e in ground arith
    ]

custom_bound :
    (o : Option (Option ℕ)) (i : ℕ)
    → ◌≡◌ {A = Result MuxError (Option ℕ)}
        (elim o [ none ↦ err select_failed | some input ↦ ok input ])
        (ok (some i))
    → o ≡ some (some i)
custom_bound none i h = cc
custom_bound (some input) i h = ap some (ok_inj h)

pub select_input-bound :
    (mux : Mux) (key : Value) (i : ℕ)
    → ((f : Value → Option (Option ℕ))
        → mux.select_func ≡ some f
        → (key : Value) (i : ℕ) → f key ≡ some (some i)
        → i < mux.ninputs)
    → select_input mux key ≡ ok (some i)
    → i < mux.ninputs
unfolding select_input
select_input-bound mux key i chooses h = elim (Option-cases mux.select_func) [
  | inl e ↦ default_bound mux key.type key.i i (or_err-eq-ok select_failed _ (chosen none e))
  | inr (f, e) ↦ chooses f e key i (custom_bound (f key) i (chosen (some f) e))
]
  where
    chosen :
        (o : Option (Value → Option (Option ℕ)))
        → mux.select_func ≡ o
        → select_input (record mux { select_func = o }) key ≡ ok (some i)
    chosen o e = subst (λ f. select_input (record mux { select_func = f }) key ≡ ok (some i)) e h
