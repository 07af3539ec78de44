-- ===== src/Emu/Event.antt =====
-- src/emu/emu_ev.c: the event of the stream as the handlers of the emulator read it.
use ovni.Prelude.{
  ℕ, ◌*◌, ◌≡◌, refl, Bool, true, false, List, [], ◌∷◌, All, Bool-cases, inl, inr, drop,
  if◌then◌else◌, ltb,
}
use ovni.Prelude.Int.{ℤ}
use ovni.Rt.Bytes.{le_value, to_int, to_int64, to_size_t}
use ovni.Rt.Event.{Ev, ovni_payload_size, is_jumbo}

-- `struct emu_ev`. The payload is the bytes of the stream from the payload on.
pub record EmuEv : Type 0 where
  pub m : ℕ
  pub c : ℕ
  pub v : ℕ
  pub rclock : ℤ
  pub sclock : ℤ
  pub dclock : ℤ
  pub has_payload : Bool
  pub payload_size : ℕ
  pub jumbo : Bool
  pub payload : List ℕ

-- `payload->i32[i]` and `payload->i64[i]`
unfoldable pub payload_i32 : EmuEv → ℕ → ℤ
payload_i32 ev i = to_int (le_value 4 (drop (4 * i) ev.payload))

unfoldable pub payload_i64 : EmuEv → ℕ → ℤ
payload_i64 ev i = to_int64 (le_value 8 (drop (8 * i) ev.payload))

-- On the event that the player holds, which was filled before.
unfoldable pub emu_ev : EmuEv → Ev → ℤ → ℤ → EmuEv
unfolding ovni_payload_size
emu_ev ev oev sclock dclock =
    let size = to_size_t (ovni_payload_size oev) in
    let filled = record ev {
      m = oev.model;
      c = oev.category;
      v = oev.value;
      rclock = to_int64 oev.clock;
      sclock = sclock;
      dclock = dclock;
      payload_size = size;
    } in
    if ltb 0 size
    then record filled {
      has_payload = true;
      payload = oev.payload;
      jumbo = if is_jumbo oev.flags then true else ev.jumbo;
    }
    else record filled { has_payload = false; payload = []; jumbo = false }

-- Stepping the player of src/emu/player.c over events, each into the same object, with its clock and the
-- difference from the clock before.
unfoldable pub fill_all : List (Ev × ℤ × ℤ) → EmuEv → EmuEv
unfolding emu_ev
fill_all [] ev = ev
fill_all ((oev, sclock, dclock) ∷ oevs) ev = fill_all oevs (emu_ev ev oev sclock dclock)

-- Once an event was a jumbo event, every later event passes as one, for as long as each has a payload.
pub jumbo_sticks :
    (oevs : List (Ev × ℤ × ℤ)) (ev : EmuEv)
    → ev.jumbo ≡ true
    → All (λ e. ltb 0 (to_size_t (ovni_payload_size e.0)) ≡ true) oevs
    → (fill_all oevs ev).jumbo ≡ true
unfolding fill_all emu_ev
jumbo_sticks [] ev j all = j
jumbo_sticks ((oev, sclock, dclock) ∷ oevs) ev j (has, all) =
    jumbo_sticks oevs (emu_ev ev oev sclock dclock)
      (let cases = Bool-cases (is_jumbo oev.flags) in
        rw (has, j) (elim cases [ inl e ↦ rw e refl | inr e ↦ rw e refl ]))
      all
