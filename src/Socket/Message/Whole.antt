-- ===== src/Socket/Message/Whole.antt =====
-- `parse_message` of rpc/socket.c where a whole message has arrived.
use remote_file_procedure_ca.Prelude.{
  ◌+◌, ◌%◌, ◌^◌, ◌<◌, ◌≡◌, ◌∙◌, true, some, [], ◌∷◌, ◌++◌, append_assoc, arith, pos, to_size-eq,
  length, length-append, drop, drop-append, leb, ltb, lt→ltb, le→leb,
}
use remote_file_procedure_ca.Text.{Bytes}
use remote_file_procedure_ca.Result.{ok}
use remote_file_procedure_ca.Socket.{Storage, read_bytes}
use remote_file_procedure_ca.Socket.Write.Stream.{message_header}
use remote_file_procedure_ca.Socket.Message.{prune, take_message, parse_message}
use remote_file_procedure_ca.Socket.Message.Header.{message_header-eq, parse_message_at_header}
use remote_file_procedure_ca.Socket.Message.Memory.{Holds, zeros, prune-Holds, read_bytes-append}

-- With the header of a message in the buffer, the rest depends on how much has arrived.
pub parse_message_at_message :
    (s : Storage) (content tail : Bytes)
    → s.buf ≡ message_header content ++ tail
    → length content < 2 ^ 31
    → parse_message s ≡ take_message s (length (message_header content)) (length content)
parse_message_at_message s content tail buf_eq small =
    let z = pos (length content) in
    rw (
      parse_message_at_header s z tail (rw message_header-eq at buf_eq) (omega arith),
      message_header-eq content,
      to_size-eq (length content) (omega arith),
    )

module _ (s : Storage) (content rest : Bytes) (small : length content < 2 ^ 31)
    (held : Holds s ((message_header content ++ content) ++ rest)) (s_small : s.size < 2 ^ 64) where
  -- Where the buffer, of fewer than 2^64 bytes, holds a message of fewer than 2^31 bytes, whatever
  -- bytes it has, and anything behind it, `parse_message` returns the message with a NUL behind it,
  -- and the buffer then holds what stood behind the message.
  pub parse_message-whole :
      (s' : Storage) × (parse_message s ≡ ok (some (content ++ 0 ∷ []), s')) × Holds s' rest
  unfolding take_message
  parse_message-whole =
      let (k, buf_eq, size_eq) = held in
      let header = message_header content in
      let after = content ++ (rest ++ zeros k) in
      let regroup : ((header ++ content) ++ rest) ++ zeros k ≡ header ++ after =
        simp append_assoc in
      let begin = length header in
      let n = length content in
      let total : begin + n ≡ length (header ++ content) =
        omega (arith, length-append header content) in
      let enough = length-append (header ++ content) rest in
      let exact : (begin + n) % 2 ^ 64 ≡ begin + n = omega arith in
      let arrived : leb (begin + n) s.size ≡ true = le→leb (begin + n) s.size (omega arith) in
      let no_wrap : ltb (begin + n) (2 ^ 64) ≡ true = lt→ltb (begin + n) (2 ^ 64) (omega arith) in
      let copied : read_bytes n (drop begin s.buf) ≡ content =
        rw (buf_eq, regroup, drop-append header after)
          (read_bytes-append content (rest ++ zeros k)) in
      (
        prune s (begin + n),
        rw (
          parse_message_at_message s content after (buf_eq ∙ regroup) small,
          take_message,
          exact,
          arrived,
          no_wrap,
          copied,
        ),
        rw total (prune-Holds s (header ++ content) rest held),
      )
