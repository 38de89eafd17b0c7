-- ===== src/Marshall/Request/Pack.antt =====
-- `pack_pointer` and `pack_integral` of rpc/marshall.c, by the slots of the request.
use remote_file_procedure_ca.Prelude.{
  ℕ, ◌<◌, ◌≡◌, refl, Option, none, some, List, ℤ, pos, length, set, replicate, take, length-take,
  arith, ltb, leb, ltb_ℤ-pos, length-set, leb→le, ltb→lt, if◌then◌else◌, Bool-cases, inl, inr,
  length-replicate, FitsLong,
}
use remote_file_procedure_ca.Text.{Bytes}
use remote_file_procedure_ca.Number.{print_int}
use remote_file_procedure_ca.Result.{ok, err, assertion, bad_memory}
use remote_file_procedure_ca.Marshall.{copy_block}
use remote_file_procedure_ca.Marshall.Slots.{
  store-eq, temp_line-numeral, slot_sizes, slot_blocks, filled, length-slot_sizes,
  length-slot_blocks, set-slot_sizes, set-slot_blocks, slot_sizes-replicate, slot_blocks-replicate,
  slot_sizes-filled, slot_blocks-filled, length-filled,
}
use remote_file_procedure_ca.Marshall.Fields.RoundTrip.{block_of}
use remote_file_procedure_ca.Marshall.Request.{
  Request, init_request, put_param, pack_integral, pack_pointer,
}
use remote_file_procedure_ca.Marshall.Request.RoundTrip.{request_of}

-- A request with these slots.
abbrev pub request_with : ℤ → List (Option Bytes) → Request
request_with op slots = record {
  command_op = op;
  param_num = pos (length slots);
  param_sizes = slot_sizes slots;
  params = slot_blocks slots;
}

pub init_request-eq :
    (op : ℤ) (n : ℕ) → init_request op (pos n) ≡ request_with op (replicate n none)
unfolding init_request
init_request-eq op n =
    rw (slot_sizes-replicate n, slot_blocks-replicate n, length-replicate {A = Option Bytes} n none)

pub request_with-filled :
    (op : ℤ) (cs : List Bytes) → request_with op (filled cs) ≡ request_of op cs
request_with-filled op cs = rw (slot_sizes-filled cs, slot_blocks-filled cs, length-filled cs)

module _ (op : ℤ) (slots : List (Option Bytes)) (i : ℕ) where
  put_param-eq :
      (n : ℕ) (c : Bytes)
      → length c ≡ n
      → i < length slots
      → put_param (request_with op slots) i n c ≡ ok (request_with op (set slots i (some c)))
  unfolding put_param
  put_param-eq n c e h = rw (
    ← e,
    put_param,
    store-eq (slot_sizes slots) i (length c) (rw (length-slot_sizes slots) h),
    store-eq (slot_blocks slots) i (block_of c) (rw (length-slot_blocks slots) h),
    set-slot_sizes slots i c,
    set-slot_blocks slots i c,
    length-set slots i (some c),
  )

  -- `pack_pointer` puts the first `n` bytes of the buffer into slot `i` and changes no other slot. Behind
  -- the last slot its assertion fails, and a buffer of fewer than `n` bytes is overrun.
  pub pack_pointer-eq :
      (buf : Bytes) (n : ℕ)
      → pack_pointer (request_with op slots) i buf n ≡ (
          if ltb i (length slots)
          then (if leb n (length buf)
              then ok (request_with op (set slots i (some (take n buf))))
              else err bad_memory)
          else err assertion)
  unfolding pack_pointer
  pack_pointer-eq buf n = elim (Bool-cases (ltb i (length slots))) [
    | inr out ↦ rw (ltb_ℤ-pos i (length slots), out, pack_pointer)
    | inl inside ↦ elim (Bool-cases (leb n (length buf))) [
      | inr short ↦ rw (ltb_ℤ-pos i (length slots), inside, short, pack_pointer, copy_block)
      | inl enough ↦
          rw (ltb_ℤ-pos i (length slots), inside, enough, pack_pointer, copy_block)
            (put_param-eq n (take n buf)
              (omega (arith, length-take n buf, leb→le n (length buf) enough))
              (ltb→lt i (length slots) inside))
    ]
  ]

  -- `pack_integral` puts the decimal text of a `long` into slot `i` and changes no other slot. Behind the
  -- last slot its assertion fails.
  pub pack_integral-eq :
      (val : ℤ)
      → FitsLong val
      → pack_integral (request_with op slots) i val ≡ (
          if ltb i (length slots)
          then ok (request_with op (set slots i (some (print_int val))))
          else err assertion)
  unfolding pack_integral
  pack_integral-eq val fits = elim (Bool-cases (ltb i (length slots))) [
    | inr out ↦ rw (ltb_ℤ-pos i (length slots), out, pack_integral)
    | inl inside ↦
        rw (ltb_ℤ-pos i (length slots), inside, pack_integral, temp_line-numeral val fits)
          (put_param-eq (length (print_int val)) (print_int val) refl
            (ltb→lt i (length slots) inside))
  ]
