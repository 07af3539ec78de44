-- ===== src/Value.antt =====
-- src/emu/value.h: the values that channels carry.
use ovni.Prelude.{◌≡◌, refl, ◌↔◌, Bool, true, false, ◌&&◌, arith}
use ovni.Prelude.Int.{ℤ, pos, eq_ℤ, eq_ℤ_iff}

-- `enum value_type`
pub data ValueType : Type 0 where
  null int64 double : ValueType

abbrev pub eq_type : ValueType → ValueType → Bool
eq_type null null = true
eq_type int64 int64 = true
eq_type double double = true
eq_type _ _ = false

-- `struct value`; the 64 bits of the union are read as `i`.
pub record Value : Type 0 where
  pub type : ValueType
  pub i : ℤ

-- The `memcmp` of the two structs, which have no padding.
abbrev pub value_is_equal : Value → Value → Bool
value_is_equal a b = eq_type a.type b.type && eq_ℤ a.i b.i

abbrev pub value_int64 : ℤ → Value
value_int64 i = record { type = int64; i = i }

abbrev pub value_null : Value
value_null = record { type = null; i = pos 0 }

abbrev pub value_is_null : Value → Bool
value_is_null a = eq_type a.type null

pub eq_type_iff : (s t : ValueType) → (eq_type s t ≡ true) ↔ (s ≡ t)
eq_type_iff s t = ground arith

-- The comparison decides equality.
pub value_is_equal_iff : (a b : Value) → (value_is_equal a b ≡ true) ↔ (a ≡ b)
value_is_equal_iff a b = ground (arith, eq_type_iff a.type b.type, eq_ℤ_iff a.i b.i)

pub value_is_equal_refl : (a : Value) → value_is_equal a a ≡ true
value_is_equal_refl a = (value_is_equal_iff a a).1 refl
