-- ===== src/Marshall/Response/Pack.antt =====
-- `marshall_pointer` and `marshall_integral` of rpc/marshall.c, by the slots of the response.
use remote_file_procedure_ca.Prelude.{
  ℕ, ◌<◌, ◌≡◌, refl, Option, none, some, List, ℤ, pos, length, set, replicate, take, length-take,
  arith, ltb, leb, ltb_ℤ-pos, length-set, leb→le, ltb→lt, if◌then◌else◌, Bool-cases, inl, inr,
  length-replicate, FitsLong,
}
use remote_file_procedure_ca.Text.{Bytes}
use remote_file_procedure_ca.Number.{print_int}
use remote_file_procedure_ca.Result.{ok, err, assertion, bad_memory}
use remote_file_procedure_ca.Marshall.{copy_block}
use remote_file_procedure_ca.Marshall.Slots.{
  store-eq, temp_line-numeral, slot_sizes, slot_blocks, filled, length-slot_sizes,
  length-slot_blocks, set-slot_sizes, set-slot_blocks, slot_sizes-replicate, slot_blocks-replicate,
  slot_sizes-filled, slot_blocks-filled, length-filled,
}
use remote_file_procedure_ca.Marshall.Fields.RoundTrip.{block_of}
use remote_file_procedure_ca.Marshall.Response.{
  Response, init_response, put_return, marshall_integral, marshall_pointer,
}
use remote_file_procedure_ca.Marshall.Response.RoundTrip.{response_of}

-- A response with these slots.
abbrev pub response_with : ℤ → List (Option Bytes) → Response
response_with errno slots = record {
  errno_num = errno;
  return_num = pos (length slots);
  return_sizes = slot_sizes slots;
  return_vals = slot_blocks slots;
}

pub init_response-eq :
    (errno : ℤ) (n : ℕ) → init_response errno (pos n) ≡ response_with errno (replicate n none)
unfolding init_response
init_response-eq errno n =
    rw (slot_sizes-replicate n, slot_blocks-replicate n, length-replicate {A = Option Bytes} n none)

pub response_with-filled :
    (errno : ℤ) (cs : List Bytes) → response_with errno (filled cs) ≡ response_of errno cs
response_with-filled errno cs = rw (slot_sizes-filled cs, slot_blocks-filled cs, length-filled cs)

module _ (errno : ℤ) (slots : List (Option Bytes)) (i : ℕ) where
  put_return-eq :
      (n : ℕ) (c : Bytes)
      → length c ≡ n
      → i < length slots
      → put_return (response_with errno slots) i n c
        ≡ ok (response_with errno (set slots i (some c)))
  unfolding put_return
  put_return-eq n c e h = rw (
    ← e,
    put_return,
    store-eq (slot_sizes slots) i (length c) (rw (length-slot_sizes slots) h),
    store-eq (slot_blocks slots) i (block_of c) (rw (length-slot_blocks slots) h),
    set-slot_sizes slots i c,
    set-slot_blocks slots i c,
    length-set slots i (some c),
  )

  -- `marshall_pointer` puts the first `n` bytes of the buffer into slot `i` and changes no other slot. Behind
  -- the last slot its assertion fails, and a buffer of fewer than `n` bytes is overrun.
  pub marshall_pointer-eq :
      (buf : Bytes) (n : ℕ)
      → marshall_pointer (response_with errno slots) i buf n ≡ (
          if ltb i (length slots)
          then (if leb n (length buf)
              then ok (response_with errno (set slots i (some (take n buf))))
              else err bad_memory)
          else err assertion)
  unfolding marshall_pointer
  marshall_pointer-eq buf n = elim (Bool-cases (ltb i (length slots))) [
    | inr out ↦ rw (ltb_ℤ-pos i (length slots), out, marshall_pointer)
    | inl inside ↦ elim (Bool-cases (leb n (length buf))) [
      | inr short ↦ rw (ltb_ℤ-pos i (length slots), inside, short, marshall_pointer, copy_block)
      | inl enough ↦
          rw (ltb_ℤ-pos i (length slots), inside, enough, marshall_pointer, copy_block)
            (put_return-eq n (take n buf)
              (omega (arith, length-take n buf, leb→le n (length buf) enough))
              (ltb→lt i (length slots) inside))
    ]
  ]

  -- `marshall_integral` puts the decimal text of a `long` into slot `i` and changes no other slot. Behind the
  -- last slot its assertion fails.
  pub marshall_integral-eq :
      (val : ℤ)
      → FitsLong val
      → marshall_integral (response_with errno slots) i val ≡ (
          if ltb i (length slots)
          then ok (response_with errno (set slots i (some (print_int val))))
          else err assertion)
  unfolding marshall_integral
  marshall_integral-eq val fits = elim (Bool-cases (ltb i (length slots))) [
    | inr out ↦ rw (ltb_ℤ-pos i (length slots), out, marshall_integral)
    | inl inside ↦
        rw (ltb_ℤ-pos i (length slots), inside, marshall_integral, temp_line-numeral val fits)
          (put_return-eq (length (print_int val)) (print_int val) refl
            (ltb→lt i (length slots) inside))
  ]
