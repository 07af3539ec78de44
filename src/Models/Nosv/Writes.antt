-- ===== src/Models/Nosv/Writes.antt =====
-- Calls of chan_set on several channels of a thread, as src/emu/nosv/event.c makes them.
use ovni.Prelude.{
  ℕ, ◌≡◌, ◌∙◌, ap, subst, ◌⊎◌, inl, inr, Bool, true, false, not, ◌&&◌, ◌||◌, List, [], ◌∷◌, Option,
  Result, arith, if◌then◌else◌, if-cases, ◌==◌, ok, or_err, ◌>>=◌, >>=-eq-ok, or_err-eq-ok, ok_pair,
}
use ovni.Prelude.Int.{pos}
use ovni.Value.{Value, value_int64}
use ovni.Chan.{Chan, chan_read, chan_set, chan_push, chan_pop}
use ovni.Chan.Protocol.{Write, set, push, pop, write, write-Same}
use ovni.Chan.Contents.{IsSettled, write-IsSettled, set-read}
use ovni.Vendor.{update, update_at, update_other, at_place}
use ovni.Models.Nosv.Tasks.{set_all, NosvError, chan_failed}

-- The channels read the values.
abbrev pub Shows : List (ℕ × Value) → (ℕ → Chan) → Type 0
Shows [] ch = Unit {0}
Shows ((k, v) ∷ ws) ch = (chan_read (ch k) ≡ v) × Shows ws ch

-- A settled channel that shows what is set.
pub record TakesValue (chan : Chan) : Type 0 where
  pub settled : IsSettled chan
  pub strict : (chan.can_dirty_write ≡ false) ⊎ (chan.can_dup ≡ true)

abbrev pub is_in : ℕ → List (ℕ × Value) → Bool
is_in k [] = false
is_in k ((j, v) ∷ ws) = (k == j) || is_in k ws

abbrev pub are_distinct : List (ℕ × Value) → Bool
are_distinct [] = true
are_distinct ((k, v) ∷ ws) = not (is_in k ws) && are_distinct ws

module _ {S : Type 0} (cb : ℕ → S → Option S) where
  pub write-TakesValue :
      (w : Write) (ch : ℕ → Chan) (k : ℕ) (c : Chan) (s s' : S)
      → write cb w (ch k) s ≡ ok (c, s')
      → ((j : ℕ) → TakesValue (ch j))
      → (j : ℕ) → TakesValue (update ch k c j)
  write-TakesValue w ch k c s s' h takes j =
      let same = write-Same cb w (ch k) c s s' h in
      at_place TakesValue ch k c j
        (λ _. record {
          settled = write-IsSettled cb w (ch k) c s s' h (takes k).settled;
          strict = elim (takes k).strict [
            | inl e ↦ inl (same.same_dirty_write ∙ e)
            | inr e ↦ inr (same.same_dup ∙ e)
          ];
        })
        (λ _. takes j)

  keeps :
      (ws : List (ℕ × Value)) (ch ch' : ℕ → Chan) (s s' : S) (k : ℕ)
      → set_all cb ws ch s ≡ ok (ch', s')
      → is_in k ws ≡ false
      → ch' k ≡ ch k
  unfolding set_all
  keeps [] ch ch' s s' k h out = cc
  keeps ((j, v) ∷ ws) ch ch' s s' k h out =
      let ((c, s1), e, rest) = >>=-eq-ok (or_err chan_failed (chan_set cb (ch j) v s)) _ h in
      keeps ws (update ch j c) ch' s1 s' k rest (ground arith)
      ∙ update_other ch j c k (ground arith)

  pub set_all-Shows :
      (ws : List (ℕ × Value)) (ch ch' : ℕ → Chan) (s s' : S)
      → set_all cb ws ch s ≡ ok (ch', s')
      → are_distinct ws ≡ true
      → ((j : ℕ) → TakesValue (ch j))
      → Shows ws ch'
  unfolding set_all
  set_all-Shows [] ch ch' s s' h d takes = tt
  set_all-Shows ((k, v) ∷ ws) ch ch' s s' h d takes =
      let ((c, s1), e, rest) = >>=-eq-ok (or_err chan_failed (chan_set cb (ch k) v s)) _ h in
      let wrote = or_err-eq-ok chan_failed _ e in
      (
        ap chan_read (keeps ws (update ch k c) ch' s1 s' k rest (ground arith) ∙ update_at ch k c)
            ∙ set-read cb v (ch k) c s s1 (takes k).settled (takes k).strict wrote,
        set_all-Shows ws (update ch k c) ch' s1 s' rest (ground arith)
            (write-TakesValue (set v) ch k c s s1 (unfold write in wrote) takes),
      )

  -- The push or pop of the subsystem at an event.
  pub ss_takes :
      (k n v : ℕ) (ch ch' : ℕ → Chan) (s s' : S)
      → ◌≡◌ {A = Result NosvError ((ℕ → Chan) × S)}
          (if v == b'x'
            then (or_err chan_failed (chan_push cb (ch k) (value_int64 (pos n)) s) >>= λ (c, s').
                ok (update ch k c, s'))
            else if v == b'e'
            then (or_err chan_failed (chan_pop cb (ch k) (value_int64 (pos n)) s) >>= λ (c, s').
                ok (update ch k c, s'))
            else ok (ch, s))
          (ok (ch', s'))
      → ((j : ℕ) → TakesValue (ch j))
      → (j : ℕ) → TakesValue (ch' j)
  ss_takes k n v ch ch' s s' h takes j =
      let value = value_int64 (pos n) in
      elim (if-cases (v == b'x') _ _ h) [
        | inl (hit, h) ↦
            let ((c, s1), e, last) =
              >>=-eq-ok (or_err chan_failed (chan_push cb (ch k) value s)) _ h in
            subst (λ f. TakesValue (f j)) ((ok_pair last).0)
              (write-TakesValue (push value) ch k c s s1
                (unfold write in or_err-eq-ok chan_failed _ e) takes j)
        | inr (miss, h) ↦ elim (if-cases (v == b'e') _ _ h) [
          | inl (hit, h) ↦
              let ((c, s1), e, last) =
                >>=-eq-ok (or_err chan_failed (chan_pop cb (ch k) value s)) _ h in
              subst (λ f. TakesValue (f j)) ((ok_pair last).0)
                (write-TakesValue (pop value) ch k c s s1
                  (unfold write in or_err-eq-ok chan_failed _ e) takes j)
          | inr (other, h) ↦ subst (λ f. TakesValue (f j)) ((ok_pair h).0) (takes j)
        ]
      ]
