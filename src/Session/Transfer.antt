-- ===== src/Session/Transfer.antt =====
-- A remote `read` and a remote `write`, from the stub of rpc/mylib.c through rpc/server.c and back.
use remote_file_procedure_ca.Prelude.{
  ℕ, ◌<◌, ◌≤◌, ◌^◌, ◌≡◌, refl, false, [], ◌∷◌, ◌++◌, take, drop, length-take, arith, ℤ, pos, negsuc,
  FitsInt, FitsLong, length,
}
use remote_file_procedure_ca.Text.{Bytes}
use remote_file_procedure_ca.Number.{print_int}
use remote_file_procedure_ca.Result.{ok}
use remote_file_procedure_ca.Marshall.Request.RoundTrip.{request_of, request_stream}
use remote_file_procedure_ca.Marshall.Response.RoundTrip.{response_stream}
use remote_file_procedure_ca.Socket.{Storage}
use remote_file_procedure_ca.Server.{Process, System, Server}
use remote_file_procedure_ca.Server.Handlers.{cleared, serve_write}
use remote_file_procedure_ca.Server.Answer.{answer, server_fd}
use remote_file_procedure_ca.Server.Replies.{serve_read-answer, serve_write-answer}
use remote_file_procedure_ca.Server.Service.{op_number, read_op, write_op, serve}
use remote_file_procedure_ca.Client.{Client}
use remote_file_procedure_ca.Client.Calls.{HasSent}
use remote_file_procedure_ca.Client.Stubs.{is_local, read_stub, write_stub}
use remote_file_procedure_ca.Client.Remote.{Answered, numeral-sized}
use remote_file_procedure_ca.Client.Transfer.{
  transfer, transfer-sized, write_stub-remote, read_stub-remote, read_stub-failed,
}
use remote_file_procedure_ca.Session.{Served, Carries, answer-Served}

module _ {V W : Type 0} (local_sys : System V) (sys : System W) (client : Client V)
    (server : Server W) (s : Storage) (fd : ℤ) (buf : Bytes) (count : ℕ) (after : Process W)
    (remote : is_local fd ≡ false) (fd_fits : FitsInt fd) (le : count ≤ length buf)
    (small : count < 2 ^ 63) (errno_fits : FitsInt after.errno) where
  -- A remote `write` from end to end. Where the connection carries the request and the answer, the
  -- server writes the first `count` bytes of the client's buffer to its own descriptor and puts the
  -- answer on the wire, and the client returns the result of that call, with its errno where it is
  -- negative and otherwise EAGAIN, which the last `recv` of the exchange leaves. The buffer has `count` bytes at least, and the numbers have the widths of their types.
  pub write-Served :
      (result : ℤ)
      → FitsLong result
      → sys.sys_write (server_fd fd) (take count buf) (cleared server) ≡ (result, after)
      → Carries client server s after write_op (transfer fd buf count) (print_int result ∷ [])
      → Served sys server s after (response_stream after.errno (print_int result ∷ []))
        × ((client' : Client V) × (write_stub local_sys client fd buf count ≡ ok (result, client'))
            × Answered client
                (request_stream (op_number write_op) (transfer fd buf count))
                after.errno
                result
                client')
  unfolding serve serve_write
  write-Served result fits called carries =
      let params = transfer fd buf count in
      let size : length (take count buf) ≡ count = omega (arith, length-take count buf) in
      let handled : serve sys write_op server (request_of (op_number write_op) params)
          ≡ answer server after (print_int result ∷ []) =
        rw size at (
          serve_write-answer sys server fd (take count buf) result after fd_fits (omega arith)
            called fits) in
      (
        answer-Served sys client server s after errno_fits write_op params (print_int result ∷ [])
            (omega arith) (omega arith)
            (transfer-sized (op_number write_op) fd buf count fd_fits le (omega arith))
            (numeral-sized result fits, tt) carries handled,
        write_stub-remote local_sys client after.errno fd buf count errno_fits remote fd_fits le
            (omega arith) result fits carries.3,
      )

  -- A remote `read` from end to end. Where the connection carries the request and the answer, the
  -- server reads from its own descriptor and puts the answer on the wire, and the client returns the
  -- number of the bytes read and has them at the start of its buffer, whose other bytes stay; its
  -- errno is EAGAIN, from the last `recv` of the exchange. The
  -- buffer has `count` bytes at least, the call returns at most as many bytes as it was asked for,
  -- and the numbers have the widths of their types.
  pub read-Served :
      (content : Bytes)
      → length content ≤ count
      → sys.sys_read (server_fd fd) count (cleared server) ≡ (pos (length content), content, after)
      → Carries client server s after read_op
          (transfer fd buf count)
          (print_int (pos (length content)) ∷ content ∷ [])
      → Served sys server s after
          (response_stream after.errno (print_int (pos (length content)) ∷ content ∷ []))
        × ((client' : Client V) × (read_stub local_sys client fd buf count
              ≡ ok (pos (length content), content ++ drop (length content) buf, client'))
            × HasSent client (request_stream (op_number read_op) (transfer fd buf count)) client')
  unfolding serve
  read-Served content few called carries =
      let n = pos (length content) in
      (
        answer-Served sys client server s after errno_fits read_op (transfer fd buf count)
            (print_int n ∷ content ∷ []) (omega arith) (omega arith)
            (transfer-sized (op_number read_op) fd buf count fd_fits le (omega arith))
            (numeral-sized n (omega arith), (omega arith, tt)) carries
            (serve_read-answer sys server fd (take count buf) count n content after fd_fits called
              (omega arith) (refl, few, small)),
        read_stub-remote local_sys client after.errno fd buf count errno_fits remote fd_fits le
            (omega arith) content (omega arith) (omega arith) carries.3,
      )

  -- A remote `read` that fails, from end to end. Where the connection carries the request and the
  -- answer, and the call of the server returns a negative result and no bytes, the client returns
  -- that result with the server's errno, and its buffer stays as it is.
  pub read-failed :
      (m : ℕ)
      → FitsLong (negsuc m)
      → sys.sys_read (server_fd fd) count (cleared server) ≡ (negsuc m, [], after)
      → Carries client server s after read_op
          (transfer fd buf count)
          (print_int (negsuc m) ∷ [] ∷ [])
      → Served sys server s after (response_stream after.errno (print_int (negsuc m) ∷ [] ∷ []))
        × ((client' : Client V) × (read_stub local_sys client fd buf count
              ≡ ok (negsuc m, buf, client'))
            × Answered client
                (request_stream (op_number read_op) (transfer fd buf count))
                after.errno
                (negsuc m)
                client')
  unfolding serve
  read-failed m fits called carries = (
    answer-Served sys client server s after errno_fits read_op (transfer fd buf count)
        (print_int (negsuc m) ∷ [] ∷ []) (omega arith) (omega arith)
        (transfer-sized (op_number read_op) fd buf count fd_fits le (omega arith))
        (numeral-sized (negsuc m) fits, (omega arith, tt)) carries
        (serve_read-answer sys server fd (take count buf) count (negsuc m) [] after fd_fits called
          fits (refl, omega arith, small)),
    read_stub-failed local_sys client after.errno fd buf count errno_fits remote fd_fits le
        (omega arith) m fits carries.3,
  )
