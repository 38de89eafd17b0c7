-- ===== src/Socket/Message/Header.antt =====
-- The header of a message as `parse_message` of rpc/socket.c reads it.
use remote_file_procedure_ca.Prelude.{
  ◌+◌, ◌-◌, ◌<◌, ◌≤◌, ◌≡◌, refl, ap, ◌∙◌, inl, true, some, [], ◌∷◌, ◌++◌, append_assoc, arith, ℤ,
  pos, FitsInt, to_size, Option_map, All-append, length, length-append, take, take-append, ltb,
  lt→ltb,
}
use remote_file_procedure_ca.Text.{Bytes, strstr, Lacks}
use remote_file_procedure_ca.Text.Search.{strstr-append, strstr_here}
use remote_file_procedure_ca.Number.{print_int}
use remote_file_procedure_ca.Number.RoundTrip.{atoi-print_int}
use remote_file_procedure_ca.Number.Width.{length-print_int, Lacks-print_int}
use remote_file_procedure_ca.Result.{ok}
use remote_file_procedure_ca.Marshall.{colon}
use remote_file_procedure_ca.Socket.{Storage, header_msg_len, header_split}
use remote_file_procedure_ca.Socket.Write.Stream.{message_header}
use remote_file_procedure_ca.Socket.Message.{
  message_len_max, take_message, header_number, parse_message,
}

-- A header with this number, which `send_message` writes for the length of the content.
unfoldable pub header_of : ℤ → Bytes
header_of z = header_msg_len ++ (colon ++ (print_int z ++ header_split))

pub message_header-eq :
    (content : Bytes) → message_header content ≡ header_of (pos (length content))
unfolding message_header header_of print_int
message_header-eq content = refl

-- The header without its end.
pub header_front : ℤ → Bytes
header_front z = header_msg_len ++ (colon ++ print_int z)

header_of-front : (z : ℤ) → header_of z ≡ header_front z ++ header_split
unfolding header_of header_front
header_of-front z = simp append_assoc

pub length-header_of : (z : ℤ) → length (header_of z) ≡ length (header_front z) + 4
length-header_of z = rw (header_of-front z) (length-append (header_front z) header_split)

header_front-Lacks : (z : ℤ) → Lacks 13 (header_front z)
unfolding header_front
header_front-Lacks z =
    All-append _ (header_msg_len ++ colon) (print_int z) (omega arith)
      (Lacks-print_int 13 z (inl (omega arith)))

pub split_found :
    (z : ℤ) (tail : Bytes)
    → strstr (header_of z ++ tail) header_split ≡ some (length (header_front z))
split_found z tail =
    let front = header_front z in
    let regroup : (front ++ header_split) ++ tail ≡ front ++ (header_split ++ tail) =
      append_assoc front header_split tail in
    rw
      (
        header_of-front z,
        regroup,
        strstr-append 13 (10 ∷ 13 ∷ 10 ∷ []) front (header_split ++ tail) (header_front-Lacks z),
        strstr_here 13 (10 ∷ 13 ∷ 10 ∷ []) tail,
      )
      (ap some (omega arith))

colon_found : (z : ℤ) (tail : Bytes) → strstr (header_of z ++ tail) colon ≡ some 14
unfolding header_of
colon_found z tail =
    let after = (print_int z ++ header_split) ++ tail in
    strstr-append b':' [] header_msg_len (colon ++ after) (omega arith)
    ∙ ap (Option_map (λ k. 14 + k)) (strstr_here b':' [] after)

-- The header gives its number.
header_number-eq :
    (z : ℤ) (tail : Bytes)
    → FitsInt z
    → header_number (header_of z ++ tail) (length (header_front z)) 14 ≡ ok (to_size z)
unfolding header_number header_front header_of
header_number-eq z tail small =
    let digits = print_int z in
    let len : length (header_front z) - 14 - 1 ≡ length digits = omega arith in
    let few = length-print_int z (omega arith) in
    let fits : ltb (length digits) message_len_max ≡ true =
      lt→ltb (length digits) message_len_max (omega arith) in
    let text : take (length digits) ((digits ++ header_split) ++ tail) ≡ digits =
      rw append_assoc (take-append digits (header_split ++ tail)) in
    rw (len, header_number, fits, text, atoi-print_int z small)

front_long : (z : ℤ) → 14 < length (header_front z)
unfolding header_front
front_long z = omega arith

-- With a whole header in the buffer, the rest depends on how much has arrived.
pub parse_message_at_header :
    (s : Storage) (z : ℤ) (tail : Bytes)
    → s.buf ≡ header_of z ++ tail
    → FitsInt z
    → parse_message s ≡ take_message s (length (header_of z)) (to_size z)
unfolding parse_message
parse_message_at_header s z tail buf_eq small =
    let front = header_front z in
    let found : strstr s.buf header_split ≡ some (length front) = rw buf_eq (split_found z tail) in
    let found_colon : strstr s.buf colon ≡ some 14 = rw buf_eq (colon_found z tail) in
    let before : ltb 14 (length front) ≡ true = lt→ltb 14 (length front) (front_long z) in
    let number : header_number s.buf (length front) 14 ≡ ok (to_size z) =
      rw buf_eq (header_number-eq z tail small) in
    rw (found, parse_message, found_colon, before, number, length-header_of z)

pub length-header_of_le : (z : ℤ) → FitsInt z → length (header_of z) ≤ 39
unfolding header_of
length-header_of_le z h =
    omega (arith, length-append (print_int z) header_split, length-print_int z (omega arith))
