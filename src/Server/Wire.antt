-- ===== src/Server/Wire.antt =====
-- One request in the buffer of the server of rpc/server.c, and the answer on the wire.
use remote_file_procedure_ca.Prelude.{
  none, pos, ◌+◌, ◌<◌, ◌≤◌, ◌^◌, ◌≡◌, refl, sym, ◌∙◌, true, List, [], ◌∷◌, ◌++◌, append-nil, arith,
  ℤ, FitsInt, length, length-append, leb, le→leb,
}
use remote_file_procedure_ca.Text.{Bytes}
use remote_file_procedure_ca.Result.{ok}
use remote_file_procedure_ca.Marshall.Print.{print_request-deserialize}
use remote_file_procedure_ca.Marshall.Request.{Request, deserialize_request}
use remote_file_procedure_ca.Marshall.Fields.RoundTrip.{AreSized}
use remote_file_procedure_ca.Marshall.Request.RoundTrip.{
  request_of, request_stream, serialize_request-stream, deserialize-serialize_request,
}
use remote_file_procedure_ca.Marshall.Response.RoundTrip.{
  response_stream, serialize_response-stream,
}
use remote_file_procedure_ca.Socket.{Storage, storage_size}
use remote_file_procedure_ca.Socket.Write.{send_message, send_errno}
use remote_file_procedure_ca.Socket.Write.Stream.{
  IsHealthy, total_room, message_header, send_message-whole,
}
use remote_file_procedure_ca.Socket.Message.Memory.{Holds}
use remote_file_procedure_ca.Socket.Message.Header.{message_header-eq, length-header_of_le}
use remote_file_procedure_ca.Server.{Process, System, Server, send_response}
use remote_file_procedure_ca.Server.Answer.{answer}
use remote_file_procedure_ca.Server.Service.{
  Procedure, procedure_of, open_op, close_op, read_op, write_op, lseek_op, stat_op, unlink_op,
  getdirentries_op, getdirtree_op, op_number, serve, dispatch, serve_messages,
}
use remote_file_procedure_ca.Server.Loop.{serve_messages-all, IsPart}

pub op_number-FitsInt : (procedure : Procedure) → FitsInt (op_number procedure)
op_number-FitsInt procedure = ground arith

-- `dispatch` gives each operation's number to that operation's handler.
pub dispatch-serve :
    {W : Type 0} (sys : System W) (server : Server W) (procedure : Procedure) (params : List Bytes)
    → dispatch sys server (request_of (op_number procedure) params)
      ≡ serve sys procedure server (request_of (op_number procedure) params)
unfolding dispatch
dispatch-serve sys server open_op params = refl
dispatch-serve sys server close_op params = refl
dispatch-serve sys server read_op params = refl
dispatch-serve sys server write_op params = refl
dispatch-serve sys server lseek_op params = refl
dispatch-serve sys server stat_op params = refl
dispatch-serve sys server unlink_op params = refl
dispatch-serve sys server getdirentries_op params = refl
dispatch-serve sys server getdirtree_op params = refl

-- A request that the server has read, and whose number is none of the nine procedures, is printed
-- without a fault: it has no effect, no answer is sent, and the server goes on.
pub dispatch-unknown :
    {W : Type 0} (sys : System W) (server : Server W) (buf : Bytes) (request : Request)
    → deserialize_request buf ≡ ok request
    → procedure_of request.command_op ≡ none
    → dispatch sys server request ≡ ok server
unfolding dispatch
dispatch-unknown sys server buf request read unknown =
    let (out, printed) = print_request-deserialize buf request read in
    rw (unknown, dispatch, printed) refl

-- The connection of the server takes this answer.
abbrev pub HasRoom : {W : Type 0} → Server W → Bytes → Type 0
HasRoom server reply =
    (length reply ≤ storage_size + 1)
    × IsHealthy server.send_events
    × (length (message_header reply ++ reply) ≤ total_room server.send_events)

-- The server behind a request: the call has changed the world, the answer is on the wire, and the errno
-- is as before, or what a `send` that was tried again has left in it.
abbrev pub Replied : {W : Type 0} → Server W → Process W → Bytes → Server W → Type 0
Replied server after reply server' =
    (server'.process.world ≡ after.world)
    × (server'.process.errno ≡ send_errno server.send_events reply server.process.errno)
    × (server'.wire ≡ server.wire ++ (message_header reply ++ reply))

-- That server.
abbrev pub replied : {W : Type 0} → Server W → Process W → Bytes → Server W
replied server after reply = record server {
  process = record {
    errno = send_errno server.send_events reply server.process.errno;
    world = after.world;
  };
  send_events = (send_message server.send_events reply).events;
  wire = server.wire ++ (message_header reply ++ reply);
}

length-message_header :
    (content : Bytes) → length content < 2 ^ 31 → length (message_header content) ≤ 39
length-message_header content small =
    rw (message_header-eq content) (length-header_of_le (pos (length content)) (omega arith))

pub nothing-IsPart : IsPart []
unfolding message_header
nothing-IsPart =
    ([], message_header [], omega arith, sym (append-nil (message_header [])), omega arith)

module _ {W : Type 0} (sys : System W) (server : Server W) (after : Process W) (vals : List Bytes)
    (errno_fits : FitsInt after.errno) (few : length vals < 2 ^ 31) (sized : AreSized vals)
    (room : HasRoom server (response_stream after.errno vals)) where
  pub answer-replied :
      answer server after vals ≡ ok (replied server after (response_stream after.errno vals))
  unfolding send_response
  answer-replied =
      let reply = response_stream after.errno vals in
      let fits : leb (length reply) (storage_size + 1) ≡ true =
        le→leb (length reply) (storage_size + 1) room.0 in
      let (done, sent) =
        send_message-whole server.send_events reply room.1 room.2 (omega (arith, room.0)) in
      rw
        (
          serialize_response-stream after.errno vals errno_fits few sized,
          send_response,
          fits,
          done,
          sent,
        )
        refl

  -- The inner loop of `service`, with one request in the buffer, serves it, puts the answer on the
  -- wire, and leaves the buffer empty.
  pub serve_messages-request :
      (op : ℤ) (params : List Bytes) (s : Storage)
      → FitsInt op
      → length params < 2 ^ 31
      → AreSized params
      → length (request_stream op params) < 2 ^ 31
      → Holds s (message_header (request_stream op params) ++ request_stream op params)
      → dispatch sys server (request_of op params) ≡ answer server after vals
      → (server' : Server W) × (s' : Storage) × (serve_messages sys (s.size + 1) server s
          ≡ ok (server', s'))
        × Holds s' []
        × Replied server after (response_stream after.errno vals) server'
  serve_messages-request op params s op_fits few_params sized_params small held dispatched =
      let q = request_stream op params in
      let reads =
        deserialize-serialize_request op params op_fits few_params sized_params q (0 ∷ [])
          (serialize_request-stream op params op_fits few_params sized_params) in
      let alone : message_header q ++ q ≡ ((message_header q ++ q) ++ []) ++ [] =
        sym (append-nil ((message_header q ++ q) ++ []) ∙ append-nil (message_header q ++ q)) in
      let held_alone : Holds s (((message_header q ++ q) ++ []) ++ []) = rw alone at held in
      let (s', held', served) =
        serve_messages-all sys (q ∷ []) (request_of op params ∷ []) server s [] (small, reads, tt)
          nothing-IsPart held_alone
          (omega
            (arith, held.2, length-append (message_header q) q, length-message_header q small)) in
      (
        replied server after (response_stream after.errno vals),
        s',
        rw (dispatched, answer-replied) at served,
        held',
        (refl, refl, refl),
      )
