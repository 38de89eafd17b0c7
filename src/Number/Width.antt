-- ===== src/Number/Width.antt =====
-- The length of a printed number, and the bytes in it.
use native.Mathlib.Nat.{pow-suc}
use remote_file_procedure_ca.Prelude.{
  ℕ, zero, suc, ◌+◌, ◌/◌, ◌%◌, ◌^◌, ◌≤◌, ◌<◌, [], ◌∷◌, arith, ℤ, pos, negsuc, FitsLong, ltb, lt→ltb,
  Bool-cases, ◌⊎◌, inl, inr, All, length,
}
use remote_file_procedure_ca.Text.{Bytes, Lacks}
use remote_file_procedure_ca.Number.{emit, print_size, print_int}

tenth_lt : (n k : ℕ) → n < 10 ^ suc (suc k) → n / 10 < 10 ^ suc k
tenth_lt n k h = let ten_times = pow-suc 10 (suc k) in omega arith

length-emit :
    (f k n : ℕ) (out : Bytes) → n < 10 ^ suc k → length (emit f n out) ≤ length out + suc k
unfolding emit
length-emit zero k n out h = omega arith
length-emit (suc f) zero n out h = rw (lt→ltb n 10 h) (omega arith)
length-emit (suc f) (suc k) n out h =
    ground (arith, length-emit f k (n / 10) ((b'0' + n % 10) ∷ out) (tenth_lt n k h))

-- A `size_t` has at most twenty digits.
pub length-print_size : (n : ℕ) → n < 2 ^ 64 → length (print_size n) ≤ 20
unfolding print_size
length-print_size n h = length-emit (suc n) 19 n [] (omega arith)

pub length-print_int : (z : ℤ) → FitsLong z → length (print_int z) ≤ 20
unfolding print_int print_size
length-print_int (pos n) h = length-emit (suc n) 19 n [] (omega arith)
length-print_int (negsuc n) h = omega (arith, length-emit (suc (suc n)) 18 (suc n) [] (omega arith))

-- A byte of a printed number is a digit or the sign.
abbrev pub IsNumeral : ℕ → Type 0
IsNumeral c = (b'-' ≤ c) × (c ≤ b'9')

All-emit : (f n : ℕ) (out : Bytes) → All IsNumeral out → All IsNumeral (emit f n out)
unfolding emit
All-emit zero n out h = h
All-emit (suc f) n out h = elim (Bool-cases (ltb n 10)) [
  | inl small ↦ rw small (omega arith, h)
  | inr large ↦ rw large (All-emit f (n / 10) ((b'0' + n % 10) ∷ out) (omega arith, h))
]

All-print_size : (n : ℕ) → All IsNumeral (print_size n)
unfolding print_size
All-print_size n = All-emit (suc n) n [] tt

-- So a search for a line break or for a colon does not stop in it.
pub Lacks-numerals : (b : ℕ) (s : Bytes) → (b < b'-') ⊎ (b'9' < b) → All IsNumeral s → Lacks b s
Lacks-numerals b [] h a = tt
Lacks-numerals b (c ∷ s) h a = ((omega arith, omega arith), Lacks-numerals b s h a.1)

pub Lacks-print_size : (b n : ℕ) → (b < b'-') ⊎ (b'9' < b) → Lacks b (print_size n)
Lacks-print_size b n h = Lacks-numerals b (print_size n) h (All-print_size n)

pub Lacks-print_int : (b : ℕ) (z : ℤ) → (b < b'-') ⊎ (b'9' < b) → Lacks b (print_int z)
unfolding print_int
Lacks-print_int b (pos n) h = Lacks-print_size b n h
Lacks-print_int b (negsuc n) h = ((omega arith, omega arith), Lacks-print_size b (suc n) h)
