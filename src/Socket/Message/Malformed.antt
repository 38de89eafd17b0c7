-- ===== src/Socket/Message/Malformed.antt =====
-- `parse_message` of rpc/socket.c on headers that no `send_message` writes.
use remote_file_procedure_ca.Prelude.{
  ℕ, suc, ◌+◌, ◌-◌, ◌%◌, ◌^◌, ◌<◌, ◌≤◌, ◌≡◌, ◌∙◌, true, false, inl, inr, none, some, ◌++◌, arith,
  negsuc, to_size, length, leb, ltb, le→leb, leb→le, lt→ltb, leb_false→lt, Bool-cases, Option-cases,
  lt→leb_false, le→ltb_false, if◌then◌else◌,
}
use remote_file_procedure_ca.Text.{Bytes, strstr}
use remote_file_procedure_ca.Result.{ok, err, bad_memory}
use remote_file_procedure_ca.Marshall.{colon}
use remote_file_procedure_ca.Socket.{Storage, header_split}
use remote_file_procedure_ca.Socket.Message.{
  message_len_max, header_number, take_message, parse_message,
}
use remote_file_procedure_ca.Socket.Message.Header.{
  header_of, parse_message_at_header, length-header_of_le,
}

-- With a header for a negative number of bytes, -2^31 at least, in a buffer of fewer than 2^63
-- bytes, `parse_message` runs into bad memory where the number is at most the header's length,
-- since the sum wraps around and passes the size test; and for a larger number it returns no
-- message and leaves the buffer as it is.
pub parse_message-negative :
    (s : Storage) (m : ℕ) (tail : Bytes)
    → s.buf ≡ header_of (negsuc m) ++ tail
    → suc m ≤ 2 ^ 31
    → length (header_of (negsuc m)) ≤ s.size
    → s.size < 2 ^ 63
    → parse_message s
      ≡ (if leb (suc m) (length (header_of (negsuc m))) then err bad_memory else ok (none, s))
unfolding take_message
parse_message-negative s m tail buf_eq fits arrived small =
    let begin = length (header_of (negsuc m)) in
    let begin_le : begin ≤ 39 = length-header_of_le (negsuc m) (omega arith) in
    parse_message_at_header s (negsuc m) tail buf_eq (omega arith)
    ∙ elim (Bool-cases (leb (suc m) begin)) [
      | inl short ↦
          let le = leb→le (suc m) begin short in
          let wrapped : (begin + to_size (negsuc m)) % 2 ^ 64 ≡ begin - suc m = omega arith in
          let passes : leb (begin - suc m) s.size ≡ true =
            le→leb (begin - suc m) s.size (omega arith) in
          let huge : ltb (begin + to_size (negsuc m)) (2 ^ 64) ≡ false =
            le→ltb_false (begin + to_size (negsuc m)) (2 ^ 64) (omega arith) in
          rw (short, wrapped, take_message, passes, huge)
      | inr long ↦
          let lt = leb_false→lt (suc m) begin long in
          let exact : (begin + to_size (negsuc m)) % 2 ^ 64 ≡ begin + to_size (negsuc m) =
            omega arith in
          let too_few : leb (begin + to_size (negsuc m)) s.size ≡ false =
            lt→leb_false (begin + to_size (negsuc m)) s.size (omega arith) in
          rw (long, exact, take_message, too_few)
    ]

module _ (s : Storage) (header_len : ℕ) (split : strstr s.buf header_split ≡ some header_len) where
  -- Where the first end of a header has no colon before it, `parse_message` returns no message and
  -- leaves the buffer as it is.
  pub parse_message-no_colon :
      ((c : ℕ) → strstr s.buf colon ≡ some c → header_len ≤ c) → parse_message s ≡ ok (none, s)
  unfolding parse_message
  parse_message-no_colon no_colon = elim (Option-cases (strstr s.buf colon)) [
    | inl absent ↦ rw (split, parse_message, absent)
    | inr (c, found) ↦
        rw (split, parse_message, found, le→ltb_false c header_len (no_colon c found))
  ]

  -- Where 100 bytes or more stand between the first colon and the first end of a header,
  -- `parse_message` runs into bad memory: they overrun `message_len_buf`, or leave it without a NUL.
  pub parse_message-overrun :
      (c : ℕ)
      → strstr s.buf colon ≡ some c
      → c + message_len_max < header_len
      → parse_message s ≡ err bad_memory
  unfolding parse_message header_number
  parse_message-overrun c found long =
      let before : ltb c header_len ≡ true = lt→ltb c header_len (omega arith) in
      let too_long : ltb (header_len - c - 1) message_len_max ≡ false =
        le→ltb_false (header_len - c - 1) message_len_max (omega arith) in
      rw (split, parse_message, found, before, header_number, too_long)
