-- ===== src/Tests/Sequence.antt =====
-- A whole session of three calls with a small operating system.
use remote_file_procedure_ca.Prelude.{
  ℕ, ◌≡◌, refl, ◌++◌, append-nil, [], ◌∷◌, List, arith, pos, All, ◌<◌, length,
}
use remote_file_procedure_ca.Text.{Bytes, c_string}
use remote_file_procedure_ca.Marshall.Tree.Shape.{tree_stream, text_line}
use remote_file_procedure_ca.Number.{print_int, print_size}
use remote_file_procedure_ca.Result.{ok}
use remote_file_procedure_ca.Marshall.Header.{number_line}
use remote_file_procedure_ca.Marshall.Fields.RoundTrip.{layout}
use remote_file_procedure_ca.Marshall.Request.RoundTrip.{request_stream}
use remote_file_procedure_ca.Marshall.Response.RoundTrip.{response_stream}
use remote_file_procedure_ca.Socket.{empty_storage, storage_size}
use remote_file_procedure_ca.Socket.Write.{room, send_message, robust_write, write_loop, frame}
use remote_file_procedure_ca.Socket.Write.Stream.{message_header}
use remote_file_procedure_ca.Server.{Server}
use remote_file_procedure_ca.Server.Service.{service}
use remote_file_procedure_ca.Server.Receive.{rounds_of}
use remote_file_procedure_ca.Client.{Client}
use remote_file_procedure_ca.Connection.{closing}
use remote_file_procedure_ca.FileService.Stream.{streams, perform_all, TakesAll, Performed}
use remote_file_procedure_ca.Session.Sequence.{Answered, Delivers, session-Performed}
use remote_file_procedure_ca.Tests.Service.{
  lawful, laws, calls, start, pieces, pieces-joined, calls-AreBounded, pieces-fit, calls-TakesAll,
  calls-AreCalls, calls-TreesFit,
}

abbrev whole : Bytes → Bytes
whole reply = message_header reply ++ reply

-- Each reply is one chunk, with a round in which nothing arrives behind it.
abbrev arriving : List Bytes → List Bytes
arriving [] = []
arriving (reply ∷ replies) = whole reply ∷ [] ∷ arriving replies

abbrev program : Client ℕ
program = record {
  process = record { errno = pos 0; world = 7 };
  send_events = room 1000 ∷ room 1000 ∷ room 1000 ∷ [];
  wire = [];
  rounds = rounds_of (arriving (perform_all lawful calls 0).1);
  left = [];
}

program-TakesAll : TakesAll program.send_events (streams calls)
unfolding request_stream layout number_line message_header print_int print_size send_message
    robust_write write_loop frame
program-TakesAll = (
  (omega arith, tt, omega arith),
  ((omega arith, tt, omega arith), ((omega arith, tt, omega arith), tt)),
)

arriving-Delivers :
    (replies : List Bytes)
    → All (λ reply. length (whole reply) < storage_size) replies
    → Delivers (rounds_of (arriving replies)) replies
arriving-Delivers [] small = tt
arriving-Delivers (reply ∷ replies) (first, small) = (
  whole reply ∷ [] ∷ [],
  rounds_of (arriving replies),
  refl,
  append-nil (whole reply),
  first,
  arriving-Delivers replies small,
)

program-Delivers : Delivers program.rounds (perform_all lawful calls 0).1
unfolding response_stream layout number_line message_header print_int print_size tree_stream
    text_line c_string
program-Delivers =
    arriving-Delivers (perform_all lawful calls 0).1 (omega arith, (omega arith, (omega arith, tt)))

session-Performed_example :
    ((server' : Server ℕ) × (service lawful (closing pieces []) [] start empty_storage ≡ ok server')
      × Performed lawful calls start server')
    × Answered lawful calls 0 program
session-Performed_example =
    session-Performed lawful laws 200 pieces calls [] start program calls-AreCalls calls-TreesFit
      pieces-joined calls-AreBounded (omega arith) pieces-fit calls-TakesAll refl program-TakesAll
      program-Delivers
