-- ===== src/Rt/Event/Payload.antt =====
-- What `ovni_payload_add` of src/rt/ovni.c does to the payload of an event.
use ovni.Prelude.{
  ℕ, ◌+◌, ◌/◌, ◌≤◌, ◌≡◌, ap, ◌∙◌, false, List, ◌++◌, arith, length, take, drop, ok, length-append,
  length-take, length-drop, take-append_eq,
}
use mathlib.Core.List.{append_assoc}
use ovni.Prelude.Int.{pos}
use ovni.Rt.Bytes.{to_size_t}
use ovni.Rt.Event.{Ev, IsEv, is_jumbo, ovni_payload_size, ovni_payload_add, copy_payload}

-- The payload in use.
abbrev pub packed : Ev → List ℕ
packed ev = take (to_size_t (ovni_payload_size ev)) ev.payload

size_bounds : (ev : Ev) → is_jumbo ev.flags ≡ false → to_size_t (ovni_payload_size ev) ≤ 16
unfolding ovni_payload_size
size_bounds ev j = ground arith

size_after :
    (ev c : Ev) (buf : List ℕ)
    → ovni_payload_add ev buf ≡ ok c
    → (is_jumbo ev.flags ≡ false)
      × (is_jumbo c.flags ≡ false)
      × (ovni_payload_size c ≡ pos (to_size_t (ovni_payload_size ev) + length buf))
      × (to_size_t (ovni_payload_size ev) + length buf ≤ 16)
      × (2 ≤ length buf)
      × (c.payload
          ≡ take (to_size_t (ovni_payload_size ev)) ev.payload
            ++ (buf ++ drop (to_size_t (ovni_payload_size ev) + length buf) ev.payload))
unfolding ovni_payload_size ovni_payload_add
size_after ev c buf h = ground arith

-- The bytes of the payload union after the copy.
copied :
    (n : ℕ) (buf p : List ℕ)
    → n + length buf ≤ 16
    → length p ≡ 16
    → let q = take n p ++ (buf ++ drop (n + length buf) p) in
      (take (n + length buf) q ≡ take n p ++ buf) × (length q ≡ 16)
copied n buf p h e = (
  rw (← append_assoc (take n p) buf (drop (n + length buf) p)) (
      take-append_eq (n + length buf) (take n p ++ buf) (drop (n + length buf) p)
        (omega (arith, length-append (take n p) buf, length-take n p))),
  omega (
    arith,
    length-append (take n p) (buf ++ drop (n + length buf) p),
    length-append buf (drop (n + length buf) p),
    length-take n p,
    length-drop (n + length buf) p,
  ),
)

-- The flags keep their upper half and fit a byte.
flags_after :
    (ev c : Ev) (buf : List ℕ)
    → ovni_payload_add ev buf ≡ ok c
    → (c.flags / 16 ≡ ev.flags / 16)
      × (c.model ≡ ev.model)
      × (c.category ≡ ev.category)
      × (c.value ≡ ev.value)
      × (c.clock ≡ ev.clock)
unfolding ovni_payload_add
flags_after ev c buf h = ground arith

accepts :
    (ev : Ev) (buf : List ℕ)
    → is_jumbo ev.flags ≡ false
    → 2 ≤ length buf
    → to_size_t (ovni_payload_size ev) + length buf ≤ 16
    → ovni_payload_add ev buf ≡ ok (copy_payload ev (to_size_t (ovni_payload_size ev)) buf)
unfolding ovni_payload_add
accepts ev buf j two fits = ground arith

-- `ovni_payload_add` on an event that is not jumbo, with at least 2 bytes that still fit, appends
-- exactly those bytes to the payload in use: the size in the flags grows by their number, and the
-- rest of the header does not change.
pub payload_add_appends :
    (ev : Ev) (buf : List ℕ)
    → IsEv ev
    → is_jumbo ev.flags ≡ false
    → 2 ≤ length buf
    → to_size_t (ovni_payload_size ev) + length buf ≤ 16
    → (c : Ev) × (ovni_payload_add ev buf ≡ ok c)
      × IsEv c
      × (packed c ≡ packed ev ++ buf)
      × (ovni_payload_size c ≡ pos (to_size_t (ovni_payload_size ev) + length buf))
      × (c.flags / 16 ≡ ev.flags / 16)
      × (c.model ≡ ev.model)
      × (c.category ≡ ev.category)
      × (c.value ≡ ev.value)
      × (c.clock ≡ ev.clock)
payload_add_appends ev buf v j two fits =
    let n = to_size_t (ovni_payload_size ev) in
    let c = copy_payload ev n buf in
    let h = accepts ev buf j two fits in
    let (s, t) = copied n buf ev.payload fits v.payload_room in
    let (_, _, size, _, _, bytes) = size_after ev c buf h in
    let same = flags_after ev c buf h in
    (
      c,
      h,
      record {
        flags_byte = omega (arith, same, v);
        clock_word = omega (arith, same, v);
        payload_room = ap length bytes ∙ t;
      },
      rw (size, bytes) s,
      size,
      same.0,
      same.1,
      same.2,
      same.3,
      same.4,
    )
