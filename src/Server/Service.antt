-- ===== src/Server/Service.antt =====
-- `service` of rpc/server.c: the loop that reads requests and serves them.
use remote_file_procedure_ca.Prelude.{
  ℕ, zero, suc, ◌+◌, ◌-◌, Option, none, some, List, [], ◌∷◌, ◌++◌, ℤ, pos, negsuc, length, false,
  ltb, ◌==◌, if◌then◌else◌,
}
use remote_file_procedure_ca.Text.{Bytes}
use remote_file_procedure_ca.Result.{Result, ok, err, blocked, out_of_fuel, ◌>>=◌, ◌>>◌}
use remote_file_procedure_ca.Marshall.Request.{Request, deserialize_request}
use remote_file_procedure_ca.Marshall.Print.{print_request}
use remote_file_procedure_ca.Socket.{Storage, storage_size, write_bytes}
use remote_file_procedure_ca.Socket.Read.{RecvEvent, greedy_read, read_errno}
use remote_file_procedure_ca.Socket.Message.{parse_message}
use remote_file_procedure_ca.Server.{System, Server, with_errno}
use remote_file_procedure_ca.Server.Handlers.{
  serve_open, serve_close, serve_read, serve_write, serve_lseek, serve_stat, serve_unlink,
  serve_getdirentries, serve_getdirtree,
}

-- The procedures, by the numbers of rpc/marshall.h.
pub data Procedure : Type 0 where
  open_op close_op read_op write_op lseek_op stat_op unlink_op getdirentries_op getdirtree_op :
      Procedure

abbrev pub op_number : Procedure → ℤ
op_number open_op = pos 0
op_number close_op = pos 1
op_number read_op = pos 2
op_number write_op = pos 3
op_number lseek_op = pos 4
op_number stat_op = pos 5
op_number unlink_op = pos 6
op_number getdirentries_op = pos 7
op_number getdirtree_op = pos 8

-- The cases of the `switch`.
abbrev pub procedure_of : ℤ → Option Procedure
procedure_of (negsuc n) = none
procedure_of (pos n) =
    if n == 0
    then some open_op
    else if n == 1
    then some close_op
    else if n == 2
    then some read_op
    else if n == 3
    then some write_op
    else if n == 4
    then some lseek_op
    else if n == 5
    then some stat_op
    else if n == 6
    then some unlink_op
    else if n == 7
    then some getdirentries_op
    else if n == 8
    then some getdirtree_op
    else none

-- What `greedy_read` has stored at `storage_buf + storage_size`. Where the buffer is full to its last
-- byte but one, the bytes are there and are not counted.
unfoldable pub receive : Storage → Bytes → Storage
receive s bytes = record {
  buf = write_bytes s.size bytes s.buf;
  size = if ltb (s.size + length bytes) storage_size then s.size + length bytes else s.size;
}

module _ {W : Type 0} (sys : System W) where
  unfoldable pub serve : Procedure → Server W → Request → Result (Server W)
  serve open_op = serve_open sys
  serve close_op = serve_close sys
  serve read_op = serve_read sys
  serve write_op = serve_write sys
  serve lseek_op = serve_lseek sys
  serve stat_op = serve_stat sys
  serve unlink_op = serve_unlink sys
  serve getdirentries_op = serve_getdirentries sys
  serve getdirtree_op = serve_getdirtree sys

  -- An unknown option is only reported, on `stdout`.
  unfoldable pub dispatch : Server W → Request → Result (Server W)
  unfolding serve print_request
  dispatch server request = elim (procedure_of request.command_op) [
    | none ↦ print_request request >> ok server
    | some procedure ↦ serve procedure server request
  ]

  -- `while ((message = parse_message(…)) != NULL)`: each message shortens the buffer, so its size is
  -- enough fuel.
  unfoldable pub serve_messages : ℕ → Server W → Storage → Result (Server W × Storage)
  unfolding dispatch
  serve_messages zero server s = err out_of_fuel
  serve_messages (suc f) server s = do
    (message, s') ← parse_message s
    elim message [
      | none ↦ ok (server, s')
      | some bytes ↦ do
        request ← deserialize_request bytes
        server' ← dispatch server request
        serve_messages f server' s'
    ]

  -- The outer loop; `rounds` has the events of each call of `greedy_read`, and what a call leaves
  -- comes first in the next one. At the end the process closes the connection and its buffers are
  -- freed.
  unfoldable pub service :
      List (List RecvEvent) → List RecvEvent → Server W → Storage → Result (Server W)
  unfolding receive serve_messages
  service [] left server s = err blocked
  service (events ∷ rounds) left server s = do
    let read = greedy_read (left ++ events) (storage_size - s.size) false
    let errno = read_errno (left ++ events) (storage_size - s.size) server.process.errno
    let received = receive s read.bytes
    (server', s') ← serve_messages (received.size + 1) (with_errno server errno) received
    let continue = service rounds read.events server' s'
    if read.exit then ok server' else continue
