-- ===== src/Client.antt =====
-- rpc/mylib.c: the stubs that replace file operations in a client program. This file has the state,
-- `send_request` and `wait_response`.
--
-- The original operations, which `dlsym` finds, are those of a `System`.
pub mod Stubs
pub mod Waiting
pub mod Calls
pub mod Remote
pub mod Transfer
pub mod Directory
pub mod Descriptor
pub mod Path
pub mod Position
use remote_file_procedure_ca.Prelude.{
  ℕ, ◌+◌, ◌-◌, Option, none, some, List, [], ◌∷◌, ◌++◌, ℤ, pos, length, get_elem?, leb, false,
  is_neg, if◌then◌else◌,
}
use remote_file_procedure_ca.Text.{Bytes}
use remote_file_procedure_ca.Result.{Result, ok, err, bad_memory, blocked, ◌>>=◌, ◌>>◌, require}
use remote_file_procedure_ca.Marshall.Request.{Request, serialize_request}
use remote_file_procedure_ca.Marshall.Response.{Response, deserialize_response}
use remote_file_procedure_ca.Socket.{Storage, storage_size, empty_storage}
use remote_file_procedure_ca.Socket.Write.{SendEvent, Sent, send_message, send_errno}
use remote_file_procedure_ca.Socket.Read.{RecvEvent, Read, greedy_read, read_errno}
use remote_file_procedure_ca.Socket.Message.{parse_message}
use remote_file_procedure_ca.Server.{Process}
use remote_file_procedure_ca.Server.Service.{receive}

-- The client process and its connection: what `send` will do and the bytes sent so far, the events
-- of each coming call of `greedy_read`, and those that the last one left.
pub record Client (W : Type 0) : Type 0 where
  pub process : Process W
  pub send_events : List SendEvent
  pub wire : Bytes
  pub rounds : List (List RecvEvent)
  pub left : List RecvEvent

-- `storage_buf` has `STORAGE_SIZE + 1` bytes.
unfoldable pub send_request : {W : Type 0} → Client W → Request → Result (Client W)
send_request client request = do
  stream ← serialize_request request
  require (leb (length stream) (storage_size + 1)) bad_memory
  let sent = send_message client.send_events stream
  done ← sent.result
  let errno = send_errno client.send_events stream client.process.errno
  ok (record client {
    process = record { errno = errno; world = client.process.world };
    send_events = sent.events;
    wire = client.wire ++ sent.wire;
  })

-- The loop of `wait_response`, with `errno`: the response, the events that are left, and `errno` behind
-- the last `recv`. That the server has
-- closed the connection is read into a variable that nothing looks at.
unfoldable pub wait_loop :
    List (List RecvEvent)
    → List RecvEvent
    → Storage
    → ℤ
    → Result (Response × List (List RecvEvent) × List RecvEvent × ℤ)
unfolding receive
wait_loop [] left s errno = err blocked
wait_loop (events ∷ rounds) left s errno = do
  let read = greedy_read (left ++ events) (storage_size - s.size) false
  let errno' = read_errno (left ++ events) (storage_size - s.size) errno
  (message, s') ← parse_message (receive s read.bytes)
  let again = wait_loop rounds read.events s' errno'
  let found = λ (bytes : Bytes). (do
    response ← deserialize_response bytes
    ok (response, rounds, read.events, errno'))
  elim message [ none ↦ again | some bytes ↦ found bytes ]

unfoldable pub wait_response : {W : Type 0} → Client W → Result (Response × Client W)
unfolding wait_loop
wait_response client = do
  (response, rounds, left, errno) ←
      wait_loop client.rounds client.left empty_storage client.process.errno
  ok (
    response,
    record client {
      process = record { errno = errno; world = client.process.world };
      rounds = rounds;
      left = left;
    },
  )

-- A request and its response.
unfoldable pub call_remote : {W : Type 0} → Client W → Request → Result (Response × Client W)
unfolding send_request wait_response
call_remote client request = do client ← send_request client request; wait_response client

-- `response->return_vals[i]`, followed.
unfoldable pub return_val : Response → ℕ → Result Bytes
return_val response i = elim (get_elem? response.return_vals i) [
  | none ↦ err bad_memory
  | some block ↦ elim block [ none ↦ err bad_memory | some bytes ↦ ok bytes ]
]

-- `if (result < 0) errno = response->errno_num`
unfoldable pub note_errno : {W : Type 0} → Client W → ℤ → Response → Client W
note_errno client result response =
    if is_neg result
    then record client {
      process = record { errno = response.errno_num; world = client.process.world };
    }
    else client
