-- ===== src/Rt/Bytes.antt =====
-- Integers in memory: little-endian bytes, and the conversion of a `size_t` to an `int`.
use ovni.Prelude.{
  ℕ, zero, suc, ◌+◌, ◌-◌, ◌*◌, ◌/◌, ◌%◌, ◌^◌, ◌<◌, ◌≡◌, refl, ap, List, [], ◌∷◌, ◌++◌, arith,
  length, if◌then◌else◌, ltb,
}
use native.Mathlib.Nat.{pow-succ'}
use ovni.Prelude.Int.{ℤ, pos, negsuc}

-- The `n` bytes of `x`, lowest first.
unfoldable pub le_bytes : ℕ → ℕ → List ℕ
le_bytes zero x = []
le_bytes (suc n) x = (x % 256) ∷ le_bytes n (x / 256)

-- The number that the first `n` bytes of a list stand for; a missing byte reads as 0.
unfoldable pub le_value : ℕ → List ℕ → ℕ
le_value zero bs = 0
le_value (suc n) [] = 0
le_value (suc n) (b ∷ bs) = b + 256 * le_value n bs

pub length-le_bytes : (n x : ℕ) → length (le_bytes n x) ≡ n
unfolding le_bytes
length-le_bytes zero x = refl
length-le_bytes (suc n) x = ap suc (length-le_bytes n (x / 256))

-- A number that fits is read back, whatever follows it.
pub le_value-le_bytes :
    (n x : ℕ) (rest : List ℕ) → x < 256 ^ n → le_value n (le_bytes n x ++ rest) ≡ x
unfolding le_bytes le_value
le_value-le_bytes zero x rest h = omega arith
le_value-le_bytes (suc n) x rest h =
    omega (arith, le_value-le_bytes n (x / 256) rest (omega (arith, pow-succ' 256 n)))

-- `(int) x` for an `x` of type `size_t`.
abbrev pub to_int : ℕ → ℤ
to_int x = let y = x % 2 ^ 32 in if ltb y (2 ^ 31) then pos y else negsuc (2 ^ 32 - y - 1)

-- `(size_t) x` for an `x` of type `int`.
abbrev pub to_size_t : ℤ → ℕ
to_size_t (pos n) = n
to_size_t (negsuc n) = 2 ^ 64 - 1 - n

-- `(int64_t) x` for an `x` of type `uint64_t`.
abbrev pub to_int64 : ℕ → ℤ
to_int64 x = if ltb x (2 ^ 63) then pos x else negsuc (2 ^ 64 - x - 1)

-- A sum or a difference of numbers of type `int64_t`, with its wrap-around.
unfoldable pub wrap_int64 : ℤ → ℤ
wrap_int64 (pos n) = to_int64 (n % 2 ^ 64)
wrap_int64 (negsuc n) = to_int64 (2 ^ 64 - 1 - n % 2 ^ 64)

-- The numbers of type `int64_t`.
abbrev pub IsInt64 : ℤ → Type 0
IsInt64 (pos n) = n < 2 ^ 63
IsInt64 (negsuc n) = n < 2 ^ 63

pub wrap_int64_lem : (z : ℤ) → IsInt64 z → wrap_int64 z ≡ z
unfolding wrap_int64
wrap_int64_lem (pos n) h = ground arith
wrap_int64_lem (negsuc n) h = ground arith
