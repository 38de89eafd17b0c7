-- ===== src/Number.antt =====
-- Decimal numbers in text: `sprintf` with %d, %ld and %zu, `sscanf` with %d and %zu, `atoi` and
-- `atol`, as glibc has them: the scan skips white space and a sign, stops at the first byte that
-- is no digit, and saturates at the ends of `long` (of `unsigned long` for %zu) before the result
-- is narrowed.
pub mod RoundTrip
pub mod Width
use remote_file_procedure_ca.Prelude.{
  ℕ, zero, suc, ◌+◌, ◌-◌, ◌*◌, ◌/◌, ◌%◌, ◌^◌, ◌≡◌, refl, Bool, true, false, ◌&&◌, ◌||◌, Option,
  none, some, Option_map, List, [], ◌∷◌, ℤ, pos, negsuc, to_int, to_size, leb, ltb, ◌==◌,
  if◌then◌else◌,
}
use remote_file_procedure_ca.Text.{Bytes, codes}

-- The digits of `n` before `out`; the fuel `suc n` is enough, since each round divides by ten.
emit : ℕ → ℕ → Bytes → Bytes
emit zero n out = out
emit (suc f) n out =
    let out' = (b'0' + n % 10) ∷ out in
    let rest = emit f (n / 10) out' in if ltb n 10 then out' else rest

-- `%zu`
unfoldable pub print_size : ℕ → Bytes
unfolding emit
print_size n = emit (suc n) n []

-- `%d` and `%ld`
unfoldable pub print_int : ℤ → Bytes
print_int (pos n) = print_size n
print_int (negsuc n) = b'-' ∷ print_size (suc n)

abbrev pub is_digit : ℕ → Bool
is_digit c = leb b'0' c && leb c b'9'

abbrev is_space : ℕ → Bool
is_space c = c == 32 || (leb 9 c && leb c 13)

-- The value of the digits in front, behind the value `n` of those before them.
abbrev scan_digits : ℕ → Bytes → ℕ
scan_digits n [] = n
scan_digits n (c ∷ s) =
    let rest = scan_digits (n * 10 + (c - b'0')) s in if is_digit c then rest else n

-- A matching failure is `none`.
abbrev scan_magnitude : Bytes → Option ℕ
scan_magnitude [] = none
scan_magnitude (c ∷ s) = if is_digit c then some (scan_digits 0 (c ∷ s)) else none

abbrev pub negate : ℕ → ℤ
negate zero = pos 0
negate (suc n) = negsuc n

abbrev scan_signed : Bytes → Option ℤ
scan_signed [] = none
scan_signed (c ∷ s) =
    if c == b'-'
    then Option_map negate (scan_magnitude s)
    else if c == b'+'
    then Option_map pos (scan_magnitude s)
    else Option_map pos (scan_magnitude (c ∷ s))

-- The number in front of a text, with no bound.
unfoldable pub scan_number : Bytes → Option ℤ
scan_number [] = none
scan_number (c ∷ s) = let rest = scan_number s in if is_space c then rest else scan_signed (c ∷ s)

-- The result of `strtol`: it saturates.
abbrev pub clamp_long : ℤ → ℤ
clamp_long (pos n) = if ltb n (2 ^ 63) then pos n else pos (2 ^ 63 - 1)
clamp_long (negsuc n) = if ltb n (2 ^ 63) then negsuc n else negsuc (2 ^ 63 - 1)

-- The result of `strtoul`: a number out of range gives the largest one, a sign negates it.
abbrev pub clamp_size : ℤ → ℕ
clamp_size (pos n) = if ltb n (2 ^ 64) then n else 2 ^ 64 - 1
clamp_size (negsuc n) = if ltb (suc n) (2 ^ 64) then to_size (negsuc n) else 2 ^ 64 - 1

unfoldable pub atol : Bytes → ℤ
atol s = elim (scan_number s) [ none ↦ pos 0 | some z ↦ clamp_long z ]

unfoldable pub atoi : Bytes → ℤ
atoi s = to_int (atol s)

-- `sscanf(s, "%d", &x)`; on `none` it leaves `x` as it is.
unfoldable pub sscanf_int : Bytes → Option ℤ
sscanf_int s = Option_map (λ z. to_int (clamp_long z)) (scan_number s)

-- `sscanf(s, "%zu", &x)`
unfoldable pub sscanf_size : Bytes → Option ℕ
sscanf_size s = Option_map clamp_size (scan_number s)

printed : print_int (negsuc 2147483647) ≡ codes "-2147483648"
unfolding print_int print_size
printed = refl

scanned : atoi (codes " -12x") ≡ negsuc 11
unfolding atoi atol scan_number
scanned = refl

-- 2^32 + 5 wraps around
wrapped : atoi (codes "4294967301") ≡ pos 5
unfolding atoi atol scan_number
wrapped = refl
