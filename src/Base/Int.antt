-- ===== src/Base/Int.antt =====
-- The values of an `int` that may be below zero, where no sum of the source comes near its limits.
-- `difference` is the one operation: proofs see its two numbers.
use tcb.Base.{
  ℕ, zero, suc, ◌+◌, ◌-◌, ◌*◌, ◌/◌, ◌%◌, ◌^◌, Bool, true, false, ltb, if◌then◌else◌, ◌≡◌, ap, Res,
  ok, fault, arith,
}

pub data ℤ : Type 0 where
  pos : ℕ → ℤ
  negsuc : ℕ → ℤ

-- What stands above zero, and what stands below.
abbrev pub up : ℤ → ℕ
up (negsuc k) = 0
up (pos k) = k

abbrev pub down : ℤ → ℕ
down (negsuc k) = suc k
down (pos k) = 0

abbrev pub difference : ℕ → ℕ → ℤ
difference a b = if ltb a b then negsuc (b - a - 1) else pos (a - b)

-- An integer and a number: added, and taken away.
abbrev pub plus : ℤ → ℕ → ℤ
plus z k = difference (up z + k) (down z)

abbrev pub less : ℤ → ℕ → ℤ
less z k = difference (up z) (down z + k)

-- The number below zero.
abbrev pub minus : ℕ → ℤ
minus k = difference 0 k

abbrev pub times : ℤ → ℕ → ℤ
times z k = difference (up z * k) (down z * k)

-- `z / w`, cut towards zero.
abbrev pub over : ℤ → ℤ → Res ℤ
over z (pos zero) = fault
over z (pos (suc k)) = ok (difference (up z / suc k) (down z / suc k))
over z (negsuc k) = ok (difference (down z / suc k) (up z / suc k))

-- What an `unsigned int` and a `char` (its bit pattern) make of it.
abbrev pub word : ℤ → ℕ
word z = (up z + (2 ^ 32 - down z % 2 ^ 32)) % 2 ^ 32

abbrev pub octet : ℤ → ℕ
octet z = (up z + (256 - down z % 256)) % 256

-- `ABS`
abbrev pub magnitude : ℤ → ℕ
magnitude (pos k) = k
magnitude (negsuc k) = suc k

abbrev pub is_zero : ℤ → Bool
is_zero (pos zero) = true
is_zero (pos (suc k)) = false
is_zero (negsuc k) = false

abbrev pub is_positive : ℤ → Bool
is_positive (pos zero) = false
is_positive (pos (suc k)) = true
is_positive (negsuc k) = false

abbrev pub is_negative : ℤ → Bool
is_negative (pos k) = false
is_negative (negsuc k) = true

pub up-difference : (a b : ℕ) → up (difference a b) ≡ a - b
up-difference a b = ground arith

pub down-difference : (a b : ℕ) → down (difference a b) ≡ b - a
down-difference a b = ground arith

-- An integer is what stands above zero and what stands below.
pub ℤ_ext : (z w : ℤ) → up z ≡ up w → down z ≡ down w → z ≡ w
ℤ_ext (pos k) (pos j) e f = ap pos e
ℤ_ext (pos k) (negsuc j) e f = absurd (omega arith)
ℤ_ext (negsuc k) (pos j) e f = absurd (omega arith)
ℤ_ext (negsuc k) (negsuc j) e f = ap negsuc (omega arith)
