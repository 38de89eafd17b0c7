-- ===== src/Prelude/Int.antt =====
-- Signed integers over the native numbers, and the machine types of the program: `int` (32 bits),
-- `ssize_t`, `long` and `off_t` (64 bits) and `size_t` (64 bits, unsigned).
use Prim.Native.Nat.{ℕ, suc, ◌+◌, ◌-◌, ◌%◌, ◌^◌, ◌≤◌, ◌<◌}
use mathlib.Core.Path.{◌≡◌}
use mathlib.Core.Bool.{Bool, true, false}
use native.Mathlib.Omega.{arith}
use remote_file_procedure_ca.Prelude.Tests.{ltb, leb, ◌==◌, if◌then◌else◌}

-- `negsuc n` is -(n + 1).
pub data ℤ : Type 0 where
  pos : ℕ → ℤ
  negsuc : ℕ → ℤ

abbrev pub pos_part : ℤ → ℕ
pos_part (pos n) = n
pos_part (negsuc n) = 0

abbrev pub neg_part : ℤ → ℕ
neg_part (pos n) = 0
neg_part (negsuc n) = suc n

-- a - b, as an integer.
abbrev pub sub_ℕ : ℕ → ℕ → ℤ
sub_ℕ a b = if leb b a then pos (a - b) else negsuc (b - a - 1)

infixl 65 ◌+ℤ◌ ◌-ℤ◌
abbrev pub ◌+ℤ◌ : ℤ → ℤ → ℤ
a +ℤ b = sub_ℕ (pos_part a + pos_part b) (neg_part a + neg_part b)

abbrev pub ◌-ℤ◌ : ℤ → ℤ → ℤ
a -ℤ b = sub_ℕ (pos_part a + neg_part b) (neg_part a + pos_part b)

abbrev pub ltb_ℤ : ℤ → ℤ → Bool
ltb_ℤ a b = ltb (pos_part a + neg_part b) (pos_part b + neg_part a)

abbrev pub is_neg : ℤ → Bool
is_neg (pos n) = false
is_neg (negsuc n) = true

abbrev pub eqb_ℤ : ℤ → ℤ → Bool
eqb_ℤ (pos a) (pos b) = a == b
eqb_ℤ (negsuc a) (negsuc b) = a == b
eqb_ℤ _ _ = false

-- The rounds of `for (int i = 0; i < n; i++)`.
abbrev pub rounds : ℤ → ℕ
rounds (pos n) = n
rounds (negsuc n) = 0

-- The two's complement pattern of an integer in 32 and in 64 bits, and the integer that a
-- pattern stands for: the conversions `(int)`, `(ssize_t)` and `(size_t)`.
abbrev pub bits32 : ℤ → ℕ
bits32 (pos n) = n % 2 ^ 32
bits32 (negsuc n) = 2 ^ 32 - 1 - n % 2 ^ 32

abbrev pub bits64 : ℤ → ℕ
bits64 (pos n) = n % 2 ^ 64
bits64 (negsuc n) = 2 ^ 64 - 1 - n % 2 ^ 64

abbrev pub to_int : ℤ → ℤ
to_int z = let w = bits32 z in if ltb w (2 ^ 31) then pos w else negsuc (2 ^ 32 - 1 - w)

abbrev pub to_long : ℤ → ℤ
to_long z = let w = bits64 z in if ltb w (2 ^ 63) then pos w else negsuc (2 ^ 64 - 1 - w)

abbrev pub to_size : ℤ → ℕ
to_size = bits64

-- The ranges of `int` and of the 64-bit signed types.
abbrev pub FitsInt : ℤ → Type 0
FitsInt z = (pos_part z < 2 ^ 31) × (neg_part z ≤ 2 ^ 31)

abbrev pub FitsLong : ℤ → Type 0
FitsLong z = (pos_part z < 2 ^ 63) × (neg_part z ≤ 2 ^ 63)

pub to_int-eq : (z : ℤ) → FitsInt z → to_int z ≡ z
to_int-eq (pos n) h = ground arith
to_int-eq (negsuc n) h = ground arith

pub to_long-eq : (z : ℤ) → FitsLong z → to_long z ≡ z
to_long-eq (pos n) h = ground arith
to_long-eq (negsuc n) h = ground arith

pub to_size-eq : (n : ℕ) → n < 2 ^ 64 → to_size (pos n) ≡ n
to_size-eq n h = ground arith

pub ltb_ℤ-pos : (a b : ℕ) → ltb_ℤ (pos a) (pos b) ≡ ltb a b
ltb_ℤ-pos a b = ground arith

pub to_long-FitsLong : (n : ℕ) → n < 2 ^ 64 → FitsLong (to_long (pos n))
to_long-FitsLong n h = ground arith

pub to_size-to_long : (n : ℕ) → n < 2 ^ 64 → to_size (to_long (pos n)) ≡ n
to_size-to_long n h = ground arith

pub bits32-to_int : (n : ℕ) → n < 2 ^ 32 → bits32 (to_int (pos n)) ≡ n
bits32-to_int n h = ground arith

pub to_int-FitsInt : (z : ℤ) → FitsInt (to_int z)
to_int-FitsInt z = ground arith
