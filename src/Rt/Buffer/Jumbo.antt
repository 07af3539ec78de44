-- ===== src/Rt/Buffer/Jumbo.antt =====
-- `ovni_ev_jumbo_emit` of src/rt/ovni.c: events that carry a buffer.
use ovni.Prelude.{
  ℕ, ◌+◌, ◌<◌, ◌≡◌, ◌∙◌, ap, true, false, List, ◌∷◌, ◌++◌, length, take, drop, leb, ok, arith,
  length-append, take-append_eq,
}
use mathlib.Core.Path.{ap₂}
use mathlib.Core.List.{append_assoc}
use ovni.Prelude.Int.{pos}
use ovni.Rt.Bytes.{le_bytes, length-le_bytes, to_size_t}
use ovni.Rt.Event.{Ev, ovni_payload_size, ovni_ev_size, ev_memory, ovni_payload_add, copy_payload}
use ovni.Rt.Buffer.{
  Rthread, Os, IsOs, max_ev_buf, add_bytes, ovni_ev_add, mark_jumbo, ovni_ev_add_jumbo,
  ovni_ev_jumbo_emit, add_depth,
}
use ovni.Rt.Buffer.Emit.{IsOpen, Added, marks_for, add_bytes_lem}

-- The layout of a jumbo event: the header with the jumbo flag and the code of a payload of 4 bytes, the size of
-- the buffer, and the buffer.
unfoldable pub jumbo_bytes : Ev → List ℕ → List ℕ
jumbo_bytes ev buf =
    0x13
    ∷ ev.model
    ∷ ev.category
    ∷ ev.value
    ∷ (le_bytes 8 ev.clock ++ (le_bytes 4 (length buf) ++ buf))

-- An event with no payload yet and no flags.
pub record IsEmpty (ev : Ev) : Type 0 where
  pub no_flags : ev.flags ≡ 0
  pub room : length ev.payload ≡ 16

pub length-jumbo_bytes : (ev : Ev) (buf : List ℕ) → length (jumbo_bytes ev buf) ≡ 16 + length buf
unfolding jumbo_bytes
length-jumbo_bytes ev buf = omega (
  arith,
  length-append (le_bytes 8 ev.clock) (le_bytes 4 (length buf) ++ buf),
  length-append (le_bytes 4 (length buf)) buf,
  length-le_bytes 8 ev.clock,
  length-le_bytes 4 (length buf),
)

sized_lem :
    (ev : Ev) (buf : List ℕ)
    → IsEmpty ev
    → (ovni_payload_add ev (le_bytes 4 (length buf))
        ≡ ok (copy_payload ev 0 (le_bytes 4 (length buf))))
      × (to_size_t (ovni_ev_size (copy_payload ev 0 (le_bytes 4 (length buf)))) ≡ 16)
unfolding ovni_payload_add copy_payload ovni_ev_size ovni_payload_size
sized_lem ev buf e = ground (arith, e, length-le_bytes 4 (length buf))

flags_lem :
    (ev : Ev) (bs : List ℕ)
    → IsEmpty ev
    → length bs ≡ 4
    → (mark_jumbo (copy_payload ev 0 bs)).flags ≡ 0x13
unfolding mark_jumbo copy_payload
flags_lem ev bs e n = ground (arith, e)

header_lem :
    (ev : Ev) (buf : List ℕ)
    → IsEmpty ev
    → take 16 (ev_memory (mark_jumbo (copy_payload ev 0 (le_bytes 4 (length buf))))) ++ buf
      ≡ jumbo_bytes ev buf
unfolding ev_memory jumbo_bytes
header_lem ev buf e =
    let size = le_bytes 4 (length buf) in
    let clock = le_bytes 8 ev.clock in
    let rest = drop (0 + length size) ev.payload in
    let head : take 12 (clock ++ (size ++ rest)) ≡ clock ++ size =
      rw (← append_assoc clock size rest) (
        take-append_eq 12 (clock ++ size) rest (
          omega (
            arith,
            length-append clock size,
            length-le_bytes 8 ev.clock,
            length-le_bytes 4 (length buf),
          ))) in
    unfold mark_jumbo copy_payload in
    ap₂ (λ (f : ℕ) (l : List ℕ). f ∷ ev.model ∷ ev.category ∷ ev.value ∷ l)
      (flags_lem ev size e (length-le_bytes 4 (length buf)))
      (ap (λ l. l ++ buf) head ∙ append_assoc clock size buf)

no_payload : (ev : Ev) → IsEmpty ev → ovni_payload_size ev ≡ pos 0
unfolding ovni_payload_size
no_payload ev e = ground (arith, e)

module _ (os : Os) (v : IsOs os) where
  pub jumbo_step :
      (ev : Ev) (buf : List ℕ) (st : Rthread)
      → st.ready ≡ true
      → IsEmpty ev
      → length buf + 16 < max_ev_buf
      → ovni_ev_jumbo_emit os ev buf st
        ≡ add_bytes os (ovni_ev_add os add_depth) (16 + length buf) (jumbo_bytes ev buf) st
  unfolding ovni_ev_jumbo_emit ovni_ev_add_jumbo
  jumbo_step ev buf st r e h =
      let (added, size) = sized_lem ev buf e in
      let fits : leb max_ev_buf (16 + length buf) ≡ false = ground arith in
      rw (r, no_payload ev e, added) (rw size (rw (fits, header_lem ev buf e)))

  -- Emitting a jumbo event whose bytes leave room for two flush events succeeds on every ready thread,
  -- and appends the event with its buffer, and the flush events where there was a flush.
  pub jumbo_appends :
      (ev : Ev) (buf : List ℕ) (st : Rthread)
      → IsOpen st
      → IsEmpty ev
      → length buf + 40 < max_ev_buf
      → (st' : Rthread) × (ovni_ev_jumbo_emit os ev buf st ≡ ok st')
        × Added os (jumbo_bytes ev buf) (marks_for os (16 + length buf) st) st st'
  jumbo_appends ev buf st o e h =
      let (st', r, a) =
        add_bytes_lem os v 1 (16 + length buf) (jumbo_bytes ev buf) st o (length-jumbo_bytes ev buf)
          (omega (arith, length-jumbo_bytes ev buf)) in
      (st', jumbo_step ev buf st o.is_ready e (omega arith) ∙ r, a)
