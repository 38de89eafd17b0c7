-- ===== src/Number/RoundTrip.antt =====
-- Printed numbers and the functions that scan them.
use remote_file_procedure_ca.Prelude.{
  ℕ, zero, suc, ◌+◌, ◌-◌, ◌*◌, ◌/◌, ◌%◌, ◌^◌, ◌≤◌, ◌<◌, ◌≡◌, refl, ap, ◌∙◌, true, false, some,
  Option_map, [], ◌∷◌, ◌++◌, append-nil, arith, ℤ, pos, negsuc, to_int, to_int-eq, FitsInt,
  FitsLong, ltb, ◌==◌, Bool-cases, inl, inr,
}
use remote_file_procedure_ca.Text.{Bytes}
use remote_file_procedure_ca.Number.{
  emit, print_size, print_int, is_digit, is_space, scan_digits, scan_magnitude, scan_number,
  clamp_long, atol, atoi, sscanf_int, sscanf_size,
}

abbrev IsDigit : ℕ → Type 0
IsDigit c = (b'0' ≤ c) × (c ≤ b'9')

-- No digit stands in front.
abbrev pub EndsNumber : Bytes → Type 0
EndsNumber [] = Unit
EndsNumber (c ∷ s) = is_digit c ≡ false

scan_digits-rest : (n : ℕ) (rest : Bytes) → EndsNumber rest → scan_digits n rest ≡ n
scan_digits-rest n [] h = refl
scan_digits-rest n (c ∷ s) h = rw h

-- The last digit of `n` read behind those before it gives `n`.
scan_last : (n : ℕ) (out : Bytes) → scan_digits (n / 10) ((b'0' + n % 10) ∷ out) ≡ scan_digits n out
scan_last n out =
    let digit : is_digit (b'0' + n % 10) ≡ true = ground arith in
    let whole : n / 10 * 10 + (b'0' + n % 10 - b'0') ≡ n = omega arith in rw (digit, whole)

scan-emit : (f n : ℕ) (out : Bytes) → n < f → scan_digits 0 (emit f n out) ≡ scan_digits n out
unfolding emit
scan-emit zero n out h = elim h [ ]
scan-emit (suc f) n out h = elim (Bool-cases (ltb n 10)) [
  | inl small ↦
      let none_before : 0 ≡ n / 10 = ground arith in
      rw small (ap (λ k. scan_digits k ((b'0' + n % 10) ∷ out)) none_before ∙ scan_last n out)
  | inr large ↦
      rw large (scan-emit f (n / 10) ((b'0' + n % 10) ∷ out) (ground arith) ∙ scan_last n out)
]

-- The first byte printed is a digit.
emit_head :
    (f n c : ℕ) (out : Bytes)
    → IsDigit c
    → (d : ℕ) × (s : Bytes) × (emit f n (c ∷ out) ≡ d ∷ s) × IsDigit d
unfolding emit
emit_head zero n c out h = (c, out, refl, h)
emit_head (suc f) n c out h = elim (Bool-cases (ltb n 10)) [
  | inl small ↦ (b'0' + n % 10, c ∷ out, rw small, omega arith)
  | inr large ↦ rw large (emit_head f (n / 10) (b'0' + n % 10) (c ∷ out) (omega arith))
]

emit-append : (f n : ℕ) (out rest : Bytes) → emit f n out ++ rest ≡ emit f n (out ++ rest)
unfolding emit
emit-append zero n out rest = refl
emit-append (suc f) n out rest = ground (arith, emit-append f (n / 10) ((b'0' + n % 10) ∷ out) rest)

-- A printed number begins with a digit, and the digits read back as the number.
print_size_head : (n : ℕ) → (d : ℕ) × (s : Bytes) × (print_size n ≡ d ∷ s) × IsDigit d
unfolding print_size emit
print_size_head n = elim (Bool-cases (ltb n 10)) [
  | inl small ↦ (b'0' + n % 10, [], rw small, omega arith)
  | inr large ↦ rw large (emit_head n (n / 10) (b'0' + n % 10) [] (omega arith))
]

scan_digits-print :
    (n : ℕ) (rest : Bytes) → EndsNumber rest → scan_digits 0 (print_size n ++ rest) ≡ n
unfolding print_size
scan_digits-print n rest h =
    rw (emit-append, scan-emit (suc n) n rest (omega arith)) (scan_digits-rest n rest h)

magnitude_of_digit :
    (d : ℕ) (s : Bytes) → IsDigit d → scan_magnitude (d ∷ s) ≡ some (scan_digits 0 (d ∷ s))
magnitude_of_digit d s h = let front : is_digit d ≡ true = ground arith in rw front

number_of_digit :
    (d : ℕ) (s : Bytes) → IsDigit d → scan_number (d ∷ s) ≡ Option_map pos (scan_magnitude (d ∷ s))
unfolding scan_number
number_of_digit d s h =
    let no_space : is_space d ≡ false = ground arith in
    let no_minus : (d == b'-') ≡ false = ground arith in
    let no_plus : (d == b'+') ≡ false = ground arith in rw (no_space, no_minus, no_plus)

scan_magnitude-print :
    (n : ℕ) (rest : Bytes) → EndsNumber rest → scan_magnitude (print_size n ++ rest) ≡ some n
scan_magnitude-print n rest h =
    let (d, s, e, digit) = print_size_head n in
    let value : scan_digits 0 (d ∷ (s ++ rest)) ≡ n = rw e at (scan_digits-print n rest h) in
    rw e (magnitude_of_digit d (s ++ rest) digit ∙ ap some value)

scan_number-print_size :
    (n : ℕ) (rest : Bytes) → EndsNumber rest → scan_number (print_size n ++ rest) ≡ some (pos n)
scan_number-print_size n rest h =
    let (d, s, e, digit) = print_size_head n in
    let value : scan_magnitude (d ∷ (s ++ rest)) ≡ some n =
      rw e at (scan_magnitude-print n rest h) in
    rw e (number_of_digit d (s ++ rest) digit ∙ ap (Option_map pos) value)

-- Reading a printed integer gives the integer.
pub scan_number-print_int :
    (z : ℤ) (rest : Bytes) → EndsNumber rest → scan_number (print_int z ++ rest) ≡ some z
unfolding print_int
scan_number-print_int (pos n) rest h = scan_number-print_size n rest h
scan_number-print_int (negsuc n) rest h =
    unfold scan_number in rw (scan_magnitude-print (suc n) rest h)

scan_number-print : (z : ℤ) → scan_number (print_int z) ≡ some z
scan_number-print z = rw append-nil at (scan_number-print_int z [] tt)

clamp_long-eq : (z : ℤ) → FitsLong z → clamp_long z ≡ z
clamp_long-eq (pos n) h = ground arith
clamp_long-eq (negsuc n) h = ground arith

FitsInt-FitsLong : (z : ℤ) → FitsInt z → FitsLong z
FitsInt-FitsLong z h = omega arith

-- `atol` of a `long` printed with %ld, with the NUL that ends it.
pub atol-print :
    (z : ℤ) (rest : Bytes) → FitsLong z → EndsNumber rest → atol (print_int z ++ rest) ≡ z
unfolding atol
atol-print z rest h e = rw (scan_number-print_int z rest e, atol) (clamp_long-eq z h)

pub atoi-print :
    (z : ℤ) (rest : Bytes) → FitsInt z → EndsNumber rest → atoi (print_int z ++ rest) ≡ z
unfolding atoi
atoi-print z rest h e = rw (atol-print z rest (FitsInt-FitsLong z h) e) (to_int-eq z h)

pub sscanf_int-print : (z : ℤ) → FitsInt z → sscanf_int (print_int z) ≡ some z
unfolding sscanf_int
sscanf_int-print z h =
    rw (scan_number-print z, clamp_long-eq z (FitsInt-FitsLong z h)) (ap some (to_int-eq z h))

pub sscanf_size-print : (n : ℕ) → n < 2 ^ 64 → sscanf_size (print_size n) ≡ some n
unfolding sscanf_size
sscanf_size-print n h =
    let read : scan_number (print_size n) ≡ some (pos n) =
      rw append-nil at (scan_number-print_size n [] tt) in
    rw read (ground arith)

-- What follows a number up to a NUL, a line break or the end is no part of it.
pub EndsNumber-nul : (rest : Bytes) → EndsNumber (0 ∷ rest)
EndsNumber-nul rest = refl

pub atoi-print_int : (z : ℤ) → FitsInt z → atoi (print_int z) ≡ z
atoi-print_int z h = rw append-nil at (atoi-print z [] h tt)

-- A `long` read by `atoi` is narrowed.
pub atoi-print_long :
    (z : ℤ) (rest : Bytes) → FitsLong z → EndsNumber rest → atoi (print_int z ++ rest) ≡ to_int z
unfolding atoi
atoi-print_long z rest h e = rw (atol-print z rest h e)
