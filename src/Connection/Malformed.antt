-- ===== src/Connection/Malformed.antt =====
-- What a client can do to `service` of rpc/server.c with a header that no `send_message` writes.
use remote_file_procedure_ca.Prelude.{
  suc, ℕ, ◌+◌, ◌-◌, ◌<◌, ◌≤◌, ◌≡◌, refl, ap, ◌∙◌, none, some, Option_map, List, [], ◌∷◌, ◌++◌,
  append_assoc, arith, length, length-append, Option-cases, inl, inr,
}
use remote_file_procedure_ca.Text.{Bytes, Lacks, strstr}
use remote_file_procedure_ca.Text.Search.{strstr-append, strstr_here}
use remote_file_procedure_ca.Result.{ok, ◌>>=◌}
use remote_file_procedure_ca.Marshall.{colon}
use remote_file_procedure_ca.Socket.{Storage, storage_size, header_split, errno_number, eagain}
use remote_file_procedure_ca.Socket.Read.{RecvEvent, closed}
use remote_file_procedure_ca.Socket.Message.{parse_message}
use remote_file_procedure_ca.Socket.Message.Memory.{Holds, zeros}
use remote_file_procedure_ca.Socket.Message.Malformed.{parse_message-no_colon}
use remote_file_procedure_ca.Server.{System, Server, with_errno}
use remote_file_procedure_ca.Server.Service.{receive, serve_messages, service}
use remote_file_procedure_ca.Server.Receive.{
  events_of, greedy_read-chunk, read_errno-chunk, receive-Holds,
}
use remote_file_procedure_ca.Client.Waiting.{joined}
use remote_file_procedure_ca.Connection.{
  closing, service_round, greedy_read-closed, read_errno-closed,
}

-- The first end of a header stands behind a text with no CR.
split_at :
    (junk rest : Bytes)
    → Lacks 13 junk
    → strstr (junk ++ (header_split ++ rest)) header_split ≡ some (length junk)
split_at junk rest lacks =
    let here : strstr (header_split ++ rest) header_split ≡ some 0 =
      strstr_here 13 (10 ∷ 13 ∷ 10 ∷ []) rest in
    let zero_more : length junk + 0 ≡ length junk = omega arith in
    strstr-append 13 (10 ∷ 13 ∷ 10 ∷ []) junk (header_split ++ rest) lacks
    ∙ ap (Option_map (λ k. length junk + k)) here
    ∙ ap some zero_more

-- A colon behind a text with none stands behind it.
colon_behind :
    (junk rest : Bytes) (c : ℕ)
    → Lacks 58 junk
    → strstr (junk ++ rest) colon ≡ some c
    → length junk ≤ c
colon_behind junk rest c lacks found =
    let moved = strstr-append 58 [] junk rest lacks in
    elim (Option-cases (strstr rest colon)) [
      | inl absent ↦ ground (arith, moved, found, absent)
      | inr (k, there) ↦ ground (arith, moved, found, there)
    ]

-- A buffer that begins with the end of a header that has no colon.
abbrev IsStuck : Storage → Bytes → Bytes → Type 0
IsStuck s junk rest = Holds s (junk ++ (header_split ++ rest))

module _ (junk : Bytes) (no_cr : Lacks 13 junk) (no_colon : Lacks 58 junk) where
  parse_message-IsStuck :
      (s : Storage) (rest : Bytes) → IsStuck s junk rest → parse_message s ≡ ok (none, s)
  parse_message-IsStuck s rest (k, buf, size) =
      let buf' : s.buf ≡ junk ++ (header_split ++ (rest ++ zeros k)) =
        buf ∙ append_assoc junk (header_split ++ rest) (zeros k) in
      parse_message-no_colon s (length junk) (rw buf' (split_at junk (rest ++ zeros k) no_cr))
        λ c found.
          colon_behind junk (header_split ++ (rest ++ zeros k)) c no_colon (rw buf' at found)

  receive-IsStuck :
      (s : Storage) (rest chunk : Bytes)
      → IsStuck s junk rest
      → length ((junk ++ (header_split ++ rest)) ++ chunk) < storage_size
      → IsStuck (receive s chunk) junk (rest ++ chunk)
  receive-IsStuck s rest chunk held fits =
      let same : (junk ++ (header_split ++ rest)) ++ chunk
          ≡ junk ++ (header_split ++ (rest ++ chunk)) =
        append_assoc junk (header_split ++ rest) chunk in
      rw same at (receive-Holds s (junk ++ (header_split ++ rest)) chunk held fits)

  module _ {W : Type 0} (sys : System W) where
    serve_nothing :
        (server : Server W) (s : Storage) (rest : Bytes)
        → IsStuck s junk rest
        → serve_messages sys (s.size + 1) server s ≡ ok (server, s)
    unfolding serve_messages
    serve_nothing server s rest stuck =
        let one_more : s.size + 1 ≡ suc s.size = omega arith in
        rw (one_more, serve_messages, parse_message-IsStuck s rest stuck) refl

    -- Once the buffer of the server holds the end of a header in which there was no colon, no request is
    -- served and nothing is answered any more, whatever arrives behind it: the header stays in the
    -- buffer, and `service` only ends when the client closes the connection. There is no NUL, CR or
    -- colon before the end of the header, and all that arrives fits into the buffer.
    pub service-no_colon :
        (chunks : List Bytes) (later : List (List RecvEvent)) (server : Server W) (s : Storage)
        (rest : Bytes)
        → IsStuck s junk rest
        → length (junk ++ (header_split ++ rest)) + length (joined chunks) < storage_size
        → (server' : Server W) × (service sys (closing chunks later) [] server s ≡ ok server')
          × (server'.process.world ≡ server.process.world)
          × (server'.wire ≡ server.wire)
    service-no_colon [] later server s rest stuck fits =
        let none_more : length ((junk ++ (header_split ++ rest)) ++ []) < storage_size =
          omega (arith, length-append (junk ++ (header_split ++ rest)) []) in
        let stuck' = receive-IsStuck s rest [] stuck none_more in
        (
          server,
          service_round sys (closed ∷ []) later server s _ server.process.errno
                (greedy_read-closed (storage_size - s.size) (omega (arith, stuck.2)))
                (read_errno-closed (storage_size - s.size) server.process.errno)
              ∙ ap (λ m. m >>= λ r. ok r.0)
                  (serve_nothing server (receive s []) (rest ++ []) stuck'),
          refl,
          refl,
        )
    service-no_colon (chunk ∷ chunks) later server s rest stuck fits =
        let all = junk ++ (header_split ++ rest) in
        let more : length (all ++ chunk) < storage_size =
          omega (arith, length-append all chunk, length-append chunk (joined chunks)) in
        let room : length chunk < storage_size - s.size =
          omega (arith, stuck.2, length-append all chunk, more) in
        let stuck' = receive-IsStuck s rest chunk stuck more in
        let server1 = with_errno server (errno_number eagain) in
        let longer : length (junk ++ (header_split ++ (rest ++ chunk))) + length (joined chunks)
            < storage_size =
          omega (
            arith,
            fits,
            length-append chunk (joined chunks),
            length-append all chunk,
            ap length (append_assoc junk (header_split ++ rest) chunk),
          ) in
        let (server', ends, world, wire) =
          service-no_colon chunks later server1 (receive s chunk) (rest ++ chunk) stuck' longer in
        (
          server',
          service_round sys (events_of chunk) (closing chunks later) server s _
                (errno_number eagain)
                (greedy_read-chunk chunk (storage_size - s.size) (omega (arith, room)))
                (read_errno-chunk chunk (storage_size - s.size) server.process.errno room)
              ∙ ap (λ m. m >>= λ r. service sys (closing chunks later) [] r.0 r.1)
                  (serve_nothing server1 (receive s chunk) (rest ++ chunk) stuck')
              ∙ ends,
          world,
          wire,
        )
