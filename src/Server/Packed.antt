-- ===== src/Server/Packed.antt =====
-- The responses that the handlers pack, and the parameters that they read.
use remote_file_procedure_ca.Prelude.{
  ℕ, ◌^◌, ◌<◌, ◌≤◌, ◌≡◌, refl, true, Option, none, some, List, [], ◌∷◌, ◌++◌, arith, ℤ, pos,
  to_long, to_size, bits32, bits32-to_int, to_long-FitsLong, to_size-to_long, FitsInt, FitsLong,
  length, take, le→leb, ltb, lt→ltb,
}
use remote_file_procedure_ca.Text.{Bytes}
use remote_file_procedure_ca.Number.{print_int, atoi, atol}
use remote_file_procedure_ca.Number.RoundTrip.{atoi-print, atoi-print_long, atol-print}
use remote_file_procedure_ca.Result.{ok}
use remote_file_procedure_ca.Marshall.Response.{init_response, marshall_integral, marshall_pointer}
use remote_file_procedure_ca.Marshall.Response.RoundTrip.{response_of}
use remote_file_procedure_ca.Marshall.Response.Pack.{
  init_response-eq, response_with, marshall_integral-eq, marshall_pointer-eq,
}

-- One number.
pub pack_one :
    (errno val : ℤ)
    → FitsLong val
    → marshall_integral (init_response errno (pos 1)) 0 val
      ≡ ok (response_of errno (print_int val ∷ []))
pack_one errno val fits =
    rw (init_response-eq errno 1, marshall_integral-eq errno (none ∷ []) 0 val fits)

-- A text alone.
pub pack_text :
    (errno : ℤ) (buf : Bytes)
    → marshall_pointer (init_response errno (pos 1)) 0 buf (length buf)
      ≡ ok (response_of errno (take (length buf) buf ∷ []))
pack_text errno buf = rw (
  init_response-eq errno 1,
  marshall_pointer-eq errno (none ∷ []) 0 buf (length buf),
  le→leb (length buf) (length buf) (omega arith),
)

-- The first of two and of three values is a number.
pub pack_first_of_two :
    (errno val : ℤ)
    → FitsLong val
    → marshall_integral (init_response errno (pos 2)) 0 val
      ≡ ok (response_with errno (some (print_int val) ∷ none ∷ []))
pack_first_of_two errno val fits =
    rw (init_response-eq errno 2, marshall_integral-eq errno (none ∷ none ∷ []) 0 val fits)

pub pack_first_of_three :
    (errno val : ℤ)
    → FitsLong val
    → marshall_integral (init_response errno (pos 3)) 0 val
      ≡ ok (response_with errno (some (print_int val) ∷ none ∷ none ∷ []))
pack_first_of_three errno val fits =
    rw (init_response-eq errno 3, marshall_integral-eq errno (none ∷ none ∷ none ∷ []) 0 val fits)

-- The second is `n` bytes of a buffer.
pub pack_second :
    (errno : ℤ) (first buf : Bytes) (n : ℕ) (others : List (Option Bytes))
    → n ≤ length buf
    → marshall_pointer (response_with errno (some first ∷ none ∷ others)) 1 buf n
      ≡ ok (response_with errno (some first ∷ some (take n buf) ∷ others))
pack_second errno first buf n others le =
    let inside : ltb 1 (length (some first ∷ none ∷ others)) ≡ true =
      lt→ltb 1 (length (some first ∷ none ∷ others)) (omega arith) in
    rw (
      marshall_pointer-eq errno (some first ∷ none ∷ others) 1 buf n,
      inside,
      le→leb n (length buf) le,
    )

-- The third is a number.
pub pack_third :
    (errno : ℤ) (first second : Bytes) (val : ℤ)
    → FitsLong val
    → marshall_integral (response_with errno (some first ∷ some second ∷ none ∷ [])) 2 val
      ≡ ok (response_of errno (first ∷ second ∷ print_int val ∷ []))
pack_third errno first second val fits =
    rw (marshall_integral-eq errno (some first ∷ some second ∷ none ∷ []) 2 val fits)

-- Numbers as the parameters of a request carry them.
pub atoi-param : (z : ℤ) → FitsInt z → atoi (print_int z ++ 0 ∷ []) ≡ z
atoi-param z h = atoi-print z (0 ∷ []) h refl

pub atol-param : (z : ℤ) → FitsLong z → atol (print_int z ++ 0 ∷ []) ≡ z
atol-param z h = atol-print z (0 ∷ []) h refl

-- A `size_t` goes through a `long`.
pub size-param : (n : ℕ) → n < 2 ^ 64 → to_size (atol (print_int (to_long (pos n)) ++ 0 ∷ [])) ≡ n
size-param n h = rw (atol-param (to_long (pos n)) (to_long-FitsLong n h)) (to_size-to_long n h)

-- A `mode_t` goes through an `int`.
pub mode-param : (m : ℕ) → m < 2 ^ 32 → bits32 (atoi (print_int (pos m) ++ 0 ∷ [])) ≡ m
mode-param m h = rw (atoi-print_long (pos m) (0 ∷ []) (omega arith) refl) (bits32-to_int m h)
