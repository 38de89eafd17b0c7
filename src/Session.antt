-- ===== src/Session.antt =====
-- The stubs of rpc/mylib.c and the loop of rpc/server.c, joined by what goes over the connection: the
-- server finds in its buffer the bytes that the client has sent, and the client is brought the bytes
-- that the server has put on the wire.
pub mod Transfer
pub mod Descriptor
pub mod Path
pub mod Directory
pub mod Sequence
use remote_file_procedure_ca.Prelude.{
  ℕ, ◌+◌, ◌<◌, ◌^◌, ◌≡◌, ◌∙◌, List, [], ◌++◌, arith, ℤ, FitsInt, length,
}
use remote_file_procedure_ca.Text.{Bytes}
use remote_file_procedure_ca.Result.{ok}
use remote_file_procedure_ca.Marshall.Fields.RoundTrip.{AreSized}
use remote_file_procedure_ca.Marshall.Request.RoundTrip.{request_of, request_stream}
use remote_file_procedure_ca.Marshall.Response.RoundTrip.{response_stream}
use remote_file_procedure_ca.Socket.{Storage}
use remote_file_procedure_ca.Socket.Write.Stream.{message_header}
use remote_file_procedure_ca.Socket.Message.Memory.{Holds}
use remote_file_procedure_ca.Server.{Process, System, Server}
use remote_file_procedure_ca.Server.Answer.{answer}
use remote_file_procedure_ca.Server.Service.{Procedure, op_number, serve, serve_messages}
use remote_file_procedure_ca.Server.Wire.{
  dispatch-serve, HasRoom, Replied, serve_messages-request, op_number-FitsInt,
}
use remote_file_procedure_ca.Client.{Client}
use remote_file_procedure_ca.Client.Calls.{Exchange}

-- The loop of the server has answered the request in its buffer with this reply.
abbrev pub Served : {W : Type 0} → System W → Server W → Storage → Process W → Bytes → Type 0
Served {W} sys server s after reply =
    (server' : Server W) × (s' : Storage) × (serve_messages sys (s.size + 1) server s
      ≡ ok (server', s'))
    × Holds s' []
    × Replied server after reply server'

-- The connection carries a request with these parameters, and the answer with these values: the
-- server's buffer holds the request, which is shorter than 2^31 bytes, the server's side takes the
-- answer, and the client's side takes the request and brings the answer, in any chunks.
abbrev pub Carries :
    {V W : Type 0}
    → Client V
    → Server W
    → Storage
    → Process W
    → Procedure
    → List Bytes
    → List Bytes
    → Type 0
Carries client server s after procedure params vals =
    (length (request_stream (op_number procedure) params) < 2 ^ 31)
    × Holds s (
        message_header (request_stream (op_number procedure) params)
        ++ request_stream (op_number procedure) params)
    × HasRoom server (response_stream after.errno vals)
    × Exchange client (request_stream (op_number procedure) params)
        (response_stream after.errno vals)

module _ {V W : Type 0} (sys : System W) (client : Client V) (server : Server W) (s : Storage)
    (after : Process W) (errno_fits : FitsInt after.errno) where
  -- The server's side of a call, where the handler of the procedure answers with these values.
  pub answer-Served :
      (procedure : Procedure) (params vals : List Bytes)
      → length params < 2 ^ 31
      → length vals < 2 ^ 31
      → AreSized params
      → AreSized vals
      → Carries client server s after procedure params vals
      → serve sys procedure server (request_of (op_number procedure) params)
        ≡ answer server after vals
      → Served sys server s after (response_stream after.errno vals)
  answer-Served procedure params vals few few_vals sized sized_vals (short, held, room, exchange)
        handled =
      serve_messages-request sys server after vals errno_fits few_vals sized_vals room
        (op_number procedure) params s (op_number-FitsInt procedure) few sized short held
        (dispatch-serve sys server procedure params ∙ handled)
