-- ===== src/Stream/Items.antt =====
-- The events of a stream as src/rt/ovni.c packs them, and what src/emu/stream.c decodes at their place.
use ovni.Prelude.{
  take-append_eq, drop, length-append, ℕ, suc, ◌+◌, ◌-◌, ◌≤◌, ◌^◌, ◌<◌, ◌≡◌, refl, sym, subst,
  false, List, [], ◌∷◌, ◌++◌, length, take, arith, drop-append_eq,
}
use mathlib.Core.List.{append_assoc}
use ovni.Prelude.Int.{pos}
use ovni.Rt.Bytes.{le_bytes, le_value, le_value-le_bytes, length-le_bytes, to_size_t}
use ovni.Rt.Event.{Ev, IsEv, is_jumbo, ovni_payload_size, ovni_ev_size, ev_memory}
use ovni.Rt.Buffer.{ev_bytes}
use ovni.Rt.Buffer.Emit.{length-ev_bytes}
use ovni.Rt.Buffer.Jumbo.{IsEmpty, jumbo_bytes, length-jumbo_bytes}
use ovni.Stream.{decode}

-- An event that was emitted, with its buffer if it is a jumbo event.
pub data Item : Type 0 where
  normal : Ev → Item
  jumbo : Ev → List ℕ → Item

abbrev pub event : Item → Ev
event (normal ev) = ev
event (jumbo ev buf) = ev

abbrev pub item_bytes : Item → List ℕ
item_bytes (normal ev) = ev_bytes ev
item_bytes (jumbo ev buf) = jumbo_bytes ev buf

-- The flags that the item has in the stream, and what follows its header.
abbrev pub item_flags : Item → ℕ
item_flags (normal ev) = ev.flags
item_flags (jumbo ev buf) = 0x13

abbrev pub item_body : Item → List ℕ
item_body (normal ev) = take (to_size_t (ovni_payload_size ev)) ev.payload
item_body (jumbo ev buf) = le_bytes 4 (length buf) ++ buf

-- What the emitting functions accept; the size of a jumbo buffer fits the `int` of a payload size.
abbrev pub IsItem : Item → Type 0
IsItem (normal ev) = IsEv ev × (is_jumbo ev.flags ≡ false)
IsItem (jumbo ev buf) = IsEmpty ev × (ev.clock < 2 ^ 64) × (length buf + 16 < 2 ^ 31)

abbrev pub items_bytes : List Item → List ℕ
items_bytes [] = []
items_bytes (it ∷ its) = item_bytes it ++ items_bytes its

-- Four bytes, the clock, and the rest.
abbrev pub layout : ℕ → ℕ → ℕ → ℕ → ℕ → List ℕ → List ℕ
layout f m c v clock body = f ∷ m ∷ c ∷ v ∷ (le_bytes 8 clock ++ body)

le_value_one : (b : ℕ) (bs : List ℕ) → le_value 1 (b ∷ bs) ≡ b
unfolding le_value
le_value_one b bs = omega arith

pub decode-layout :
    (f m c v clock : ℕ) (body : List ℕ)
    → clock < 2 ^ 64
    → decode (layout f m c v clock body) ≡ record {
      flags = f;
      model = m;
      category = c;
      value = v;
      clock = clock;
      payload = take 16 body;
    }
unfolding decode
decode-layout f m c v clock body h = simp (
  le_value_one,
  le_value-le_bytes 8 clock body h,
  drop-append_eq 8 (le_bytes 8 clock) body (length-le_bytes 8 clock),
)

twelve : ℕ → ℕ
twelve n = suc (suc (suc (suc (suc (suc (suc (suc (suc (suc (suc (suc n)))))))))))

take-layout :
    (f m c v clock n : ℕ) (p : List ℕ)
    → take (twelve n) (layout f m c v clock p) ≡ layout f m c v clock (take n p)
unfolding twelve le_bytes
take-layout f m c v clock n p = refl

normal_size :
    (ev : Ev)
    → is_jumbo ev.flags ≡ false
    → to_size_t (ovni_ev_size ev) ≡ twelve (to_size_t (ovni_payload_size ev))
unfolding ovni_ev_size ovni_payload_size twelve
normal_size ev j = ground arith

pub item_bytes-layout :
    (it : Item)
    → IsItem it
    → item_bytes it
      ≡ layout
          (item_flags it)
          (event it).model
          (event it).category
          (event it).value
          (event it).clock
          (item_body it)
item_bytes-layout (normal ev) (w, j) =
    unfold ev_memory in
    rw (normal_size ev j) (
      take-layout ev.flags ev.model ev.category ev.value ev.clock (to_size_t (ovni_payload_size ev))
        ev.payload)
item_bytes-layout (jumbo ev buf) w = unfold jumbo_bytes in refl

-- The event that is decoded at the place of an item.
abbrev pub decoded : Item → List ℕ → Ev
decoded it rest = record {
  flags = item_flags it;
  model = (event it).model;
  category = (event it).category;
  value = (event it).value;
  clock = (event it).clock;
  payload = take 16 (item_body it ++ rest);
}

clock_fits : (it : Item) → IsItem it → (event it).clock < 2 ^ 64
clock_fits (normal ev) (w, j) = w.clock_word
clock_fits (jumbo ev buf) w = w.1

pub decode-item_bytes :
    (it : Item) (rest : List ℕ) → IsItem it → decode (item_bytes it ++ rest) ≡ decoded it rest
decode-item_bytes it rest w =
    rw (item_bytes-layout it w, append_assoc (le_bytes 8 (event it).clock) (item_body it) rest)
      (decode-layout (item_flags it) (event it).model (event it).category (event it).value
        (event it).clock (item_body it ++ rest) (clock_fits it w))

size_of_flags :
    (d ev : Ev)
    → d.flags ≡ ev.flags
    → is_jumbo ev.flags ≡ false
    → ovni_ev_size d ≡ pos (to_size_t (ovni_ev_size ev))
unfolding ovni_ev_size ovni_payload_size
size_of_flags d ev e j = ground arith

size_of_jumbo :
    (d : Ev) (n : ℕ)
    → d.flags ≡ 0x13
    → le_value 4 d.payload ≡ n
    → n + 16 < 2 ^ 31
    → ovni_ev_size d ≡ pos (16 + n)
unfolding ovni_ev_size ovni_payload_size
size_of_jumbo d n e p h = ground arith

jumbo_payload : (n : ℕ) (bs : List ℕ) → n < 2 ^ 32 → le_value 4 (take 16 (le_bytes 4 n ++ bs)) ≡ n
jumbo_payload n bs h =
    subst (λ l. le_value 4 l ≡ n) (sym split) (le_value-le_bytes 4 n (take 12 bs) h)
  where
    split : take 16 (le_bytes 4 n ++ bs) ≡ le_bytes 4 n ++ take 12 bs
    split = unfold le_bytes in refl

-- The size that `ovni_ev_size` computes for the event at that place.
pub decoded_size :
    (it : Item) (rest : List ℕ)
    → IsItem it
    → ovni_ev_size (decode (item_bytes it ++ rest)) ≡ pos (length (item_bytes it))
decoded_size (normal ev) rest w =
    rw (decode-item_bytes (normal ev) rest w, length-ev_bytes ev w.0 w.1)
      (size_of_flags (decoded (normal ev) rest) ev refl w.1)
decoded_size (jumbo ev buf) rest w =
    rw (decode-item_bytes (jumbo ev buf) rest w, length-jumbo_bytes ev buf)
      (size_of_jumbo (decoded (jumbo ev buf) rest) (length buf) refl
        (rw (append_assoc (le_bytes 4 (length buf)) buf rest)
          (jumbo_payload (length buf) (buf ++ rest) (omega arith)))
        (omega arith))

layout_body :
    (f m c v clock : ℕ) (body rest : List ℕ)
    → take (length (layout f m c v clock body) - 12) (drop 12 (layout f m c v clock body ++ rest))
      ≡ body
layout_body f m c v clock body rest = rw (append_assoc (le_bytes 8 clock) body rest) (
    rw (drop-append_eq 8 (le_bytes 8 clock) (body ++ rest) (length-le_bytes 8 clock)) (
      take-append_eq _ body rest
        (omega (arith, length-append (le_bytes 8 clock) body, length-le_bytes 8 clock))))

-- The bytes behind the header of an item.
pub body_lem :
    (it : Item) (rest : List ℕ)
    → IsItem it
    → take (length (item_bytes it) - 12) (drop 12 (item_bytes it ++ rest)) ≡ item_body it
body_lem it rest w = rw (item_bytes-layout it w) (
    layout_body (item_flags it) (event it).model (event it).category (event it).value
      (event it).clock (item_body it) rest)

pub item_bytes-pos : (it : Item) → IsItem it → 12 ≤ length (item_bytes it)
item_bytes-pos it w = rw (item_bytes-layout it w) (
    omega (
      arith,
      length-append (le_bytes 8 (event it).clock) (item_body it),
      length-le_bytes 8 (event it).clock,
    ))
