-- ===== src/Client/Waiting.antt =====
-- The loop of `wait_response` of rpc/mylib.c while a response arrives, and when the server has gone.
use remote_file_procedure_ca.Prelude.{
  ℕ, zero, suc, ◌+◌, ◌-◌, ◌<◌, ◌^◌, ◌≡◌, refl, sym, ap, ◌∙◌, false, inl, inr, none, some, List, [],
  ◌∷◌, ◌++◌, append_assoc, append-nil, arith, length, length-append, replicate, ltb, Bool-cases,
  ltb→lt, ℤ,
}
use remote_file_procedure_ca.Text.{Bytes, strstr}
use remote_file_procedure_ca.Result.{Result, ok, err, blocked}
use remote_file_procedure_ca.Marshall.Response.{Response, deserialize_response}
use remote_file_procedure_ca.Socket.{empty_storage, Storage, storage_size, errno_number, eagain}
use remote_file_procedure_ca.Socket.Write.Stream.{message_header}
use remote_file_procedure_ca.Socket.Read.{RecvEvent, closed, Read, greedy_read, read_errno}
use remote_file_procedure_ca.Socket.Message.{parse_message}
use remote_file_procedure_ca.Socket.Message.Memory.{Holds}
use remote_file_procedure_ca.Socket.Message.Whole.{parse_message-whole}
use remote_file_procedure_ca.Socket.Message.Partial.{parse_message-partial}
use remote_file_procedure_ca.Server.Service.{receive}
use remote_file_procedure_ca.Server.Receive.{
  events_of, rounds_of, greedy_read-chunk, read_errno-chunk, receive-Holds, empty-Holds,
}
use remote_file_procedure_ca.Client.{wait_loop}

abbrev pub joined : List Bytes → Bytes
joined [] = []
joined (chunk ∷ chunks) = chunk ++ joined chunks

length_zero : (xs : Bytes) → ltb 0 (length xs) ≡ false → xs ≡ []
length_zero [] h = refl
length_zero (c ∷ xs) h = absurd (ground arith)

-- A round that completes no message, and one that does.
wait_loop_nothing :
    (events : List RecvEvent) (rounds : List (List RecvEvent)) (s s' : Storage) (errno : ℤ)
    (read : Read)
    → greedy_read events (storage_size - s.size) false ≡ read
    → parse_message (receive s read.bytes) ≡ ok (none, s')
    → wait_loop (events ∷ rounds) [] s errno
      ≡ wait_loop rounds read.events s' (read_errno events (storage_size - s.size) errno)
unfolding wait_loop
wait_loop_nothing events rounds s s' errno read e h =
    let h' : parse_message (receive s (greedy_read events (storage_size - s.size) false).bytes)
        ≡ ok (none, s') =
      rw e h in
    rw (← e, wait_loop, h')

wait_loop_found :
    (events : List RecvEvent) (rounds : List (List RecvEvent)) (s s' : Storage) (errno : ℤ)
    (read : Read) (bytes : Bytes) (response : Response)
    → greedy_read events (storage_size - s.size) false ≡ read
    → parse_message (receive s read.bytes) ≡ ok (some bytes, s')
    → deserialize_response bytes ≡ ok response
    → wait_loop (events ∷ rounds) [] s errno
      ≡ ok (response, rounds, read.events, read_errno events (storage_size - s.size) errno)
unfolding wait_loop
wait_loop_found events rounds s s' errno read bytes response e h reads =
    let h' : parse_message (receive s (greedy_read events (storage_size - s.size) false).bytes)
        ≡ ok (some bytes, s') =
      rw e h in
    rw (← e, wait_loop, h', reads)

-- The loop returns the response, has used up the events of its last round, and only rounds in which
-- nothing arrives stand before `later`; `errno` is EAGAIN, from the last `recv`.
abbrev pub Returns :
    List (List RecvEvent)
    → Response
    → Result (Response × List (List RecvEvent) × List RecvEvent × ℤ)
    → Type 0
Returns later response result =
    (silent : List Bytes) × (joined silent ≡ [])
    × (result ≡ ok (response, rounds_of silent ++ later, [], errno_number eagain))

message_header_long : (content : Bytes) → 0 < length (message_header content)
unfolding message_header
message_header_long content = omega arith

module _ (content : Bytes) (response : Response) (later : List (List RecvEvent))
    (small : length (message_header content ++ content) < storage_size)
    (reads : deserialize_response (content ++ 0 ∷ []) ≡ ok response) where
  -- One round that brings a part of what is missing.
  wait_loop_round :
      (s : Storage) (errno : ℤ) (part chunk : Bytes) (chunks : List Bytes)
      → Holds s part
      → part ++ (chunk ++ joined chunks) ≡ message_header content ++ content
      → ((s' : Storage)
          → Holds s' (part ++ chunk)
          → 0 < length (joined chunks)
          → Returns later response
              (wait_loop (rounds_of chunks ++ later) [] s' (errno_number eagain)))
      → Returns later response
          (wait_loop (events_of chunk ∷ (rounds_of chunks ++ later)) [] s errno)
  wait_loop_round s errno part chunk chunks held whole next =
      let total : length (part ++ chunk) + length (joined chunks)
          ≡ length (message_header content ++ content) =
        sym (length-append (part ++ chunk) (joined chunks))
        ∙ ap length (append_assoc part chunk (joined chunks) ∙ whole) in
      let content_small : length content < 2 ^ 31 =
        omega (arith, length-append (message_header content) content) in
      let fits : length chunk < storage_size - s.size =
        omega (arith, held.2, length-append part chunk) in
      let received = receive-Holds s part chunk held (omega arith) in
      let s' = receive s chunk in
      let all_read = greedy_read-chunk chunk (storage_size - s.size) (omega arith) in
      let drained = read_errno-chunk chunk (storage_size - s.size) errno fits in
      elim (Bool-cases (ltb 0 (length (joined chunks)))) [
        | inl missing ↦
            let more = ltb→lt 0 (length (joined chunks)) missing in
            let nothing : parse_message s' ≡ ok (none, s') =
              parse_message-partial s' content (part ++ chunk) (joined chunks) content_small
                received (append_assoc part chunk (joined chunks) ∙ whole) more in
            let (silent, quiet, e) = next s' received more in
            (
              silent,
              quiet,
              wait_loop_nothing (events_of chunk) (rounds_of chunks ++ later) s s' errno _ all_read
                    nothing
                  ∙ ap (λ n. wait_loop (rounds_of chunks ++ later) [] s' n) drained
                  ∙ e,
            )
        | inr complete ↦
            let none_left : joined chunks ≡ [] = length_zero (joined chunks) complete in
            let at_message : part ++ chunk ≡ (message_header content ++ content) ++ [] =
              sym (append-nil (part ++ chunk))
              ∙ ap (λ l. (part ++ chunk) ++ l) (sym none_left)
              ∙ append_assoc part chunk (joined chunks)
              ∙ whole
              ∙ sym (append-nil (message_header content ++ content)) in
            let holds : Holds s' ((message_header content ++ content) ++ []) =
              rw at_message at received in
            let (s'', found, _) =
              parse_message-whole s' content [] content_small holds (omega (arith, received.2)) in
            (
              chunks,
              none_left,
              wait_loop_found (events_of chunk) (rounds_of chunks ++ later) s s'' errno _
                    (content ++ 0 ∷ []) response all_read found reads
                  ∙ ap (λ n. ok (response, rounds_of chunks ++ later, [], n)) drained,
            )
      ]

  wait_loop-chunks :
      (s : Storage) (errno : ℤ) (part : Bytes) (chunks : List Bytes)
      → Holds s part
      → part ++ joined chunks ≡ message_header content ++ content
      → 0 < length (joined chunks)
      → Returns later response (wait_loop (rounds_of chunks ++ later) [] s errno)
  wait_loop-chunks s errno part [] held whole more = absurd (omega arith)
  wait_loop-chunks s errno part (chunk ∷ chunks) held whole more =
      wait_loop_round s errno part chunk chunks held whole λ s' held' more'.
        wait_loop-chunks s' (errno_number eagain) (part ++ chunk) chunks held'
          (append_assoc part chunk (joined chunks) ∙ whole) more'

  -- Where a response arrives in any chunks, one in each round, and is shorter with its header than
  -- the buffer, the loop of `wait_response` ends and returns it, and leaves what comes later. `errno`
  -- is EAGAIN, since each call of `greedy_read` reads until nothing more has arrived.
  pub wait_loop-whole :
      (errno : ℤ) (chunks : List Bytes)
      → joined chunks ≡ message_header content ++ content
      → Returns later response (wait_loop (rounds_of chunks ++ later) [] empty_storage errno)
  wait_loop-whole errno chunks whole =
      wait_loop-chunks empty_storage errno [] chunks empty-Holds whole (
        rw whole (
          omega
            (arith, length-append (message_header content) content, message_header_long content)))

-- When the server has closed the connection and nothing has arrived before, so that every call of
-- `recv` returns 0, the loop of `wait_response` still runs after any number of rounds.
pub wait_loop-closed :
    (n : ℕ) (errno : ℤ) → wait_loop (replicate n (closed ∷ [])) [] empty_storage errno ≡ err blocked
unfolding read_errno wait_loop greedy_read receive parse_message strstr
wait_loop-closed zero errno = refl
wait_loop-closed (suc n) errno = wait_loop-closed n errno
