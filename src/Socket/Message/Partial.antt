-- ===== src/Socket/Message/Partial.antt =====
-- `parse_message` of rpc/socket.c where a part of a message has arrived.
use remote_file_procedure_ca.Prelude.{
  split_longer, ℕ, ◌+◌, ◌%◌, ◌^◌, ◌<◌, ◌≤◌, ◌≡◌, ap, sym, ◌∙◌, false, inl, inr, none, some, [], ◌∷◌,
  ◌++◌, append_assoc, arith, pos, length, length-append, leb, ltb, Bool-cases, Option-cases, ltb→lt,
  ltb→le, lt→leb_false,
}
use remote_file_procedure_ca.Text.{Bytes, strstr}
use remote_file_procedure_ca.Text.Search.{strstr-zeros, strstr-append_more, strstr-le}
use remote_file_procedure_ca.Result.{ok}
use remote_file_procedure_ca.Socket.{Storage, header_split}
use remote_file_procedure_ca.Socket.Write.Stream.{message_header}
use remote_file_procedure_ca.Socket.Message.{take_message, parse_message}
use remote_file_procedure_ca.Socket.Message.Header.{
  message_header-eq, header_front, split_found, length-header_of, length-header_of_le,
}
use remote_file_procedure_ca.Socket.Message.Whole.{parse_message_at_message}
use remote_file_procedure_ca.Socket.Message.Memory.{Holds, zeros}

module _ (s : Storage) (content part more : Bytes) (small : length content < 2 ^ 31)
    (held : Holds s part) (split : part ++ more ≡ message_header content ++ content)
    (missing : 0 < length more) where
  -- The end of the header stands behind its front, and nowhere before.
  too_early :
      (j : ℕ)
      → strstr part header_split ≡ some j
      → length part < length (message_header content)
      → ⊥
  too_early j found short =
      let z = pos (length content) in
      let in_whole : strstr (message_header content ++ content) header_split ≡ some j =
        rw split at (strstr-append_more part 13 (10 ∷ 13 ∷ 10 ∷ []) more j found) in
      let at_front : strstr (message_header content ++ content) header_split
          ≡ some (length (header_front z)) =
        rw (message_header-eq content) (split_found z content) in
      let same : j ≡ length (header_front z) = cc (in_whole, at_front) in
      let header_length : length (message_header content) ≡ length (header_front z) + 4 =
        rw (message_header-eq content) (length-header_of z) in
      omega (arith, strstr-le part 13 (10 ∷ 13 ∷ 10 ∷ []) j found)

  no_split_yet : length part < length (message_header content) → strstr s.buf header_split ≡ none
  no_split_yet short =
      let (k, buf_eq, _) = held in
      let no_more : strstr s.buf header_split ≡ strstr part header_split =
        rw buf_eq (strstr-zeros part 13 (10 ∷ 13 ∷ 10 ∷ []) k (omega arith)) in
      elim (Option-cases (strstr part header_split)) [
        | inl absent ↦ no_more ∙ absent
        | inr (j, found) ↦ absurd (too_early j found short)
      ]

  not_all_yet :
      length (message_header content) ≤ length part
      → take_message s (length (message_header content)) (length content) ≡ ok (none, s)
  unfolding take_message
  not_all_yet le =
      let begin = length (message_header content) in
      let n = length content in
      let short_header : begin ≤ 39 =
        rw (message_header-eq content) (length-header_of_le (pos n) (omega arith)) in
      let exact : (begin + n) % 2 ^ 64 ≡ begin + n = omega arith in
      let total : length part + length more ≡ begin + n =
        sym (length-append part more)
        ∙ ap length split
        ∙ length-append (message_header content) content in
      let too_few : leb (begin + n) s.size ≡ false =
        rw held.2 (lt→leb_false (begin + n) (length part) (omega arith)) in
      rw (exact, take_message, too_few)

  -- Where the buffer holds the first part of a message of fewer than 2^31 bytes, cut anywhere,
  -- `parse_message` returns no message and leaves the buffer as it is.
  pub parse_message-partial : parse_message s ≡ ok (none, s)
  unfolding parse_message
  parse_message-partial = elim (Bool-cases (ltb (length part) (length (message_header content)))) [
    | inl short ↦ rw (no_split_yet (ltb→lt _ _ short), parse_message)
    | inr long ↦
        let le = ltb→le (length part) (length (message_header content)) long in
        let (k, buf_eq, _) = held in
        let (t, part_eq) = split_longer (message_header content) part more content split le in
        let at_message : s.buf ≡ message_header content ++ (t ++ zeros k) =
          buf_eq
          ∙ ap (λ l. l ++ zeros k) part_eq
          ∙ append_assoc (message_header content) t (zeros k) in
        parse_message_at_message s content (t ++ zeros k) at_message small ∙ not_all_yet le
  ]
