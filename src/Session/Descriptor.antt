-- ===== src/Session/Descriptor.antt =====
-- A remote `close` and a remote `lseek`, from the stub of rpc/mylib.c through rpc/server.c and back.
use remote_file_procedure_ca.Prelude.{◌≡◌, false, [], ◌∷◌, arith, ℤ, FitsInt, FitsLong}
use remote_file_procedure_ca.Number.{print_int}
use remote_file_procedure_ca.Result.{ok}
use remote_file_procedure_ca.Marshall.Request.RoundTrip.{request_stream}
use remote_file_procedure_ca.Marshall.Response.RoundTrip.{response_stream}
use remote_file_procedure_ca.Socket.{Storage}
use remote_file_procedure_ca.Server.{Process, System, Server}
use remote_file_procedure_ca.Server.Handlers.{cleared}
use remote_file_procedure_ca.Server.Answer.{server_fd}
use remote_file_procedure_ca.Server.Replies.{serve_close-answer, serve_lseek-answer}
use remote_file_procedure_ca.Server.Service.{op_number, close_op, lseek_op, serve}
use remote_file_procedure_ca.Client.{Client}
use remote_file_procedure_ca.Client.Stubs.{is_local, close_stub, lseek_stub}
use remote_file_procedure_ca.Client.Remote.{Answered, numeral-sized, close_stub-remote}
use remote_file_procedure_ca.Client.Position.{seek_params, lseek_stub-remote}
use remote_file_procedure_ca.Session.{Served, Carries, answer-Served}

module _ {V W : Type 0} (local_sys : System V) (sys : System W) (client : Client V)
    (server : Server W) (s : Storage) (fd result : ℤ) (after : Process W)
    (remote : is_local fd ≡ false) (fd_fits : FitsInt fd) (errno_fits : FitsInt after.errno) where
  -- A remote `close` from end to end. Where the connection carries the request and the answer, the
  -- server closes its own descriptor, and the client returns the result of that call, with its errno
  -- where it is negative and otherwise EAGAIN, which the last `recv` of the exchange leaves. Descriptor, errno and result have the width of `int`.
  pub close-Served :
      FitsInt result
      → sys.sys_close (server_fd fd) (cleared server) ≡ (result, after)
      → Carries client server s after close_op (print_int fd ∷ []) (print_int result ∷ [])
      → Served sys server s after (response_stream after.errno (print_int result ∷ []))
        × ((client' : Client V) × (close_stub local_sys client fd ≡ ok (result, client'))
            × Answered client
                (request_stream (op_number close_op) (print_int fd ∷ []))
                after.errno
                result
                client')
  unfolding serve
  close-Served fits called carries = (
    answer-Served sys client server s after errno_fits close_op (print_int fd ∷ [])
        (print_int result ∷ []) (omega arith) (omega arith) (numeral-sized fd (omega arith), tt)
        (numeral-sized result (omega arith), tt) carries
        (serve_close-answer sys server fd result after fd_fits called (omega arith)),
    close_stub-remote client after.errno result errno_fits local_sys fd remote fd_fits fits
        carries.3,
  )

  -- A remote `lseek` from end to end. Where the connection carries the request and the answer, the
  -- server moves the position of its own descriptor, by the client's offset and whence, and the
  -- client returns the result of that call, with its errno where it is negative and otherwise
  -- EAGAIN, which the last `recv` of the exchange leaves. The numbers have
  -- the widths of their types.
  pub lseek-Served :
      (offset whence : ℤ)
      → FitsLong offset
      → FitsInt whence
      → FitsLong result
      → sys.sys_lseek (server_fd fd) offset whence (cleared server) ≡ (result, after)
      → Carries client server s after lseek_op
          (seek_params fd offset whence)
          (print_int result ∷ [])
      → Served sys server s after (response_stream after.errno (print_int result ∷ []))
        × ((client' : Client V) × (lseek_stub local_sys client fd offset whence
              ≡ ok (result, client'))
            × Answered client
                (request_stream (op_number lseek_op) (seek_params fd offset whence))
                after.errno
                result
                client')
  unfolding serve
  lseek-Served offset whence offset_fits whence_fits fits called carries = (
    answer-Served sys client server s after errno_fits lseek_op (seek_params fd offset whence)
        (print_int result ∷ []) (omega arith) (omega arith)
        (
          numeral-sized fd (omega arith),
          (numeral-sized offset offset_fits, (numeral-sized whence (omega arith), tt)),
        )
        (numeral-sized result fits, tt) carries
        (serve_lseek-answer sys server fd offset whence result after fd_fits offset_fits whence_fits
          called fits),
    lseek_stub-remote local_sys client after.errno fd offset whence result remote errno_fits fd_fits
        offset_fits whence_fits fits carries.3,
  )
