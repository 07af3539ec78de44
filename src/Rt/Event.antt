-- ===== src/Rt/Event.antt =====
-- `struct ovni_ev` of include/ovni.h.in, and the functions of src/rt/ovni.c that pack it.
pub mod Payload
use ovni.Prelude.{
  ℕ, zero, suc, ◌+◌, ◌-◌, ◌*◌, ◌/◌, ◌%◌, ◌^◌, ◌≤◌, ◌<◌, ◌≡◌, refl, ap, ◌∙◌, Bool, true, false, List,
  [], ◌∷◌, ◌++◌, arith, length, take, drop, if◌then◌else◌, ltb, leb, ◌==◌, All, Result, ok, err,
}
use ovni.Prelude.Int.{ℤ, pos, negsuc, pos_part, ◌+ℤ◌}
use ovni.Rt.Bytes.{le_bytes, le_value, to_int, to_size_t}

-- The fields of the header, and the 16 bytes of the payload union.
pub record Ev : Type 0 where
  pub flags : ℕ
  pub model : ℕ
  pub category : ℕ
  pub value : ℕ
  pub clock : ℕ
  pub payload : List ℕ

-- `struct ovni_ev ev = {0}`
abbrev pub zero_ev : Ev
zero_ev = record {
  flags = 0;
  model = 0;
  category = 0;
  value = 0;
  clock = 0;
  payload = le_bytes 16 0;
}

pub data EvError : Type 0 where
  marked_jumbo too_small no_space : EvError

-- `flags & OVNI_EV_JUMBO`, where OVNI_EV_JUMBO is 0x10.
abbrev pub is_jumbo : ℕ → Bool
is_jumbo flags = flags / 16 % 2 == 1

unfoldable pub ovni_ev_set_clock : Ev → ℕ → Ev
ovni_ev_set_clock ev clock = record ev { clock = clock }

unfoldable pub ovni_ev_get_clock : Ev → ℕ
ovni_ev_get_clock ev = ev.clock

unfoldable pub ovni_ev_set_mcv : Ev → ℕ → ℕ → ℕ → Ev
ovni_ev_set_mcv ev m c v = record ev { model = m; category = c; value = v }

-- As a `size_t` of 64 bits: the sum does not wrap.
unfoldable pub get_jumbo_payload_size : Ev → ℕ
get_jumbo_payload_size ev = 4 + le_value 4 ev.payload

unfoldable pub ovni_payload_size : Ev → ℤ
unfolding get_jumbo_payload_size
ovni_payload_size ev =
    let size = ev.flags % 16 in
    if is_jumbo ev.flags
    then to_int (get_jumbo_payload_size ev)
    else if size == 0
    then pos 0
    else pos (size + 1)

-- `(int) sizeof(ev->header) + ovni_payload_size(ev)`
unfoldable pub ovni_ev_size : Ev → ℤ
unfolding ovni_payload_size ◌+ℤ◌
ovni_ev_size ev = pos 12 +ℤ ovni_payload_size ev

-- The `memcpy` of `ovni_payload_add` and the new flags, `(flags & 0xf0) | ((size - 1) & 0x0f)`.
unfoldable pub copy_payload : Ev → ℕ → List ℕ → Ev
copy_payload ev payload_size buf =
    let total = payload_size + length buf in
    record ev {
      payload = take payload_size ev.payload ++ (buf ++ drop total ev.payload);
      flags = ev.flags / 16 * 16 + (total - 1) % 16;
    }

-- `sizeof(ev->payload)` is 16.
unfoldable pub ovni_payload_add : Ev → List ℕ → Result EvError Ev
unfolding ovni_payload_size copy_payload
ovni_payload_add ev buf =
    let size = length buf in
    let payload_size = to_size_t (ovni_payload_size ev) in
    let total = payload_size + size in
    if is_jumbo ev.flags
    then err marked_jumbo
    else if ltb size 2
    then err too_small
    else if ltb 16 total
    then err no_space
    else ok (copy_payload ev payload_size buf)

-- The event as it lies in memory, which is what `memcpy` reads.
unfoldable pub ev_memory : Ev → List ℕ
ev_memory ev = ev.flags ∷ ev.model ∷ ev.category ∷ ev.value ∷ (le_bytes 8 ev.clock ++ ev.payload)

-- The values that the C types of the fields allow.
pub record IsEv (ev : Ev) : Type 0 where
  pub flags_byte : ev.flags < 256
  pub clock_word : ev.clock < 2 ^ 64
  pub payload_room : length ev.payload ≡ 16
