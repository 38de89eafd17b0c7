-- ===== src/Tests/Stubs.antt =====
-- The stubs of rpc/mylib.c with small exchanges.
use remote_file_procedure_ca.Prelude.{ℕ, ◌≡◌, refl, List, [], ◌∷◌, ◌++◌, arith, pos}
use remote_file_procedure_ca.Text.{Bytes, codes}
use remote_file_procedure_ca.Number.{print_int, print_size}
use remote_file_procedure_ca.Result.{ok, err, blocked}
use remote_file_procedure_ca.Marshall.Header.{number_line}
use remote_file_procedure_ca.Marshall.Fields.RoundTrip.{layout}
use remote_file_procedure_ca.Marshall.Response.{deserialize_response}
use remote_file_procedure_ca.Marshall.Response.RoundTrip.{
  response_of, response_stream, serialize_response-stream, deserialize-serialize_response,
}
use remote_file_procedure_ca.Socket.Write.{room, failed}
use remote_file_procedure_ca.Socket.{empty_storage, eagain}
use remote_file_procedure_ca.Socket.Write.Stream.{message_header}
use remote_file_procedure_ca.Socket.Read.{closed}
use remote_file_procedure_ca.Client.{Client, wait_loop}
use remote_file_procedure_ca.Client.Waiting.{joined, Returns, wait_loop-whole, wait_loop-closed}
use remote_file_procedure_ca.Server.Receive.{events_of, rounds_of}

-- A response that arrives in three rounds, the second of them empty.
abbrev failure : Bytes
failure = codes "Errno:2\r\nReturnNum:1\r\n2\r\n-1\r\n"

abbrev failure_chunks : List Bytes
failure_chunks =
    codes "Message-Le" ∷ [] ∷ codes "ngth:29\r\n\r\nErrno:2\r\nReturnNum:1\r\n2\r\n-1\r\n" ∷ []

failure-reads :
    deserialize_response (failure ++ 0 ∷ []) ≡ ok (response_of (pos 2) (codes "-1" ∷ []))
unfolding response_stream number_line layout print_int print_size
failure-reads =
    deserialize-serialize_response (pos 2) (codes "-1" ∷ []) (omega arith) (omega arith)
      (omega arith) failure (0 ∷ [])
      (serialize_response-stream (pos 2) (codes "-1" ∷ []) (omega arith) (omega arith)
        (omega arith))

failure-joined : joined failure_chunks ≡ message_header failure ++ failure
unfolding message_header print_size
failure-joined = refl

wait_loop-whole_example :
    Returns (events_of (codes "Mess") ∷ []) (response_of (pos 2) (codes "-1" ∷ [])) (
      wait_loop
        (rounds_of failure_chunks ++ events_of (codes "Mess") ∷ [])
        []
        empty_storage
        (pos 0))
unfolding message_header print_size
wait_loop-whole_example =
    wait_loop-whole failure (response_of (pos 2) (codes "-1" ∷ [])) (events_of (codes "Mess") ∷ [])
      (omega arith) failure-reads (pos 0) failure_chunks failure-joined

wait_loop-closed_example :
    wait_loop ((closed ∷ []) ∷ (closed ∷ []) ∷ []) [] empty_storage (pos 0) ≡ err blocked
wait_loop-closed_example = wait_loop-closed 2 (pos 0)

-- A client to whom these chunks arrive.
abbrev pub told : List Bytes → Client ℕ
told chunks = record {
  process = record { errno = pos 0; world = 7 };
  send_events = room 10 ∷ failed eagain ∷ room 500 ∷ [];
  wire = [];
  rounds = rounds_of chunks;
  left = [];
}

-- A reply in one chunk.
abbrev pub reply : Bytes → List Bytes
reply content = (message_header content ++ content) ∷ []
