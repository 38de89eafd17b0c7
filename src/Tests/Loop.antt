-- ===== src/Tests/Loop.antt =====
-- The loop of rpc/server.c on a small buffer.
use remote_file_procedure_ca.Prelude.{◌+◌, ◌≡◌, refl, List, [], ◌∷◌, ◌++◌, arith, length}
use remote_file_procedure_ca.Text.{Bytes, codes}
use remote_file_procedure_ca.Number.{print_int, print_size}
use remote_file_procedure_ca.Result.{ok}
use remote_file_procedure_ca.Marshall.Header.{number_line}
use remote_file_procedure_ca.Marshall.Fields.RoundTrip.{layout}
use remote_file_procedure_ca.Marshall.Request.{Request, deserialize_request}
use remote_file_procedure_ca.Marshall.Request.RoundTrip.{
  request_of, request_stream, serialize_request-stream, deserialize-serialize_request,
}
use remote_file_procedure_ca.Socket.{empty_storage, Storage}
use remote_file_procedure_ca.Socket.Write.Stream.{message_header}
use remote_file_procedure_ca.Server.Service.{op_number, close_op, serve_messages}
use remote_file_procedure_ca.Server.Loop.{framed, dispatch_all}
use remote_file_procedure_ca.Server.Service.{service}
use remote_file_procedure_ca.Server.Wire.{nothing-IsPart}
use remote_file_procedure_ca.Server.Alike.{Alike}
use remote_file_procedure_ca.Server.Fuel.{Runs, serve_messages-Runs}
use remote_file_procedure_ca.Client.Waiting.{joined}
use remote_file_procedure_ca.Connection.{closing}
use remote_file_procedure_ca.Connection.Stream.{service-stream}
use remote_file_procedure_ca.Tests.Handlers.{tiny, fresh}

-- Two requests and the beginning of a third in the buffer of the server.
abbrev close_request : Bytes
close_request = codes "Command:1\r\nParamNum:1\r\n5\r\n12348\r\n"

abbrev close_decoded : Request
close_decoded = request_of (op_number close_op) (codes "12348" ∷ [])

close_request-reads : deserialize_request (close_request ++ 0 ∷ []) ≡ ok close_decoded
unfolding request_stream number_line layout print_int print_size
close_request-reads =
    deserialize-serialize_request (op_number close_op) (codes "12348" ∷ []) (omega arith)
      (omega arith) (omega arith) close_request (0 ∷ [])
      (serialize_request-stream (op_number close_op) (codes "12348" ∷ []) (omega arith)
        (omega arith) (omega arith))

abbrev queue : Storage
queue = record {
  buf = framed (close_request ∷ close_request ∷ []) ++ codes "Mess";
  size = length (framed (close_request ∷ close_request ∷ []) ++ codes "Mess");
}

serve_messages-Runs_example :
    Runs tiny fresh queue (serve_messages tiny (queue.size + 1) fresh queue)
serve_messages-Runs_example = serve_messages-Runs tiny (queue.size + 1) fresh queue (omega arith)

-- A connection in which the second request is cut behind its first bytes.
abbrev pieces : List Bytes
pieces =
    (framed (close_request ∷ []) ++ codes "Mess")
    ∷ (codes "age-Length:33\r\n\r\n" ++ close_request)
    ∷ []

pieces-joined : joined pieces ≡ framed (close_request ∷ close_request ∷ []) ++ []
unfolding message_header print_size
pieces-joined = refl

service-stream_example :
    Alike
      (service tiny (closing pieces []) [] fresh empty_storage)
      (dispatch_all tiny fresh (close_decoded ∷ close_decoded ∷ []))
unfolding message_header print_size
service-stream_example =
    service-stream tiny 100 pieces (close_request ∷ close_request ∷ [])
      (close_decoded ∷ close_decoded ∷ []) [] [] fresh pieces-joined
      ((omega arith), close_request-reads, ((omega arith), close_request-reads, tt))
      (omega arith, (omega arith, tt)) nothing-IsPart (omega arith) (omega arith, (omega arith, tt))
