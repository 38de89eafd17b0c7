-- ===== src/Session/Path.antt =====
-- A remote `open`, `stat` and `unlink`, from the stub of rpc/mylib.c through rpc/server.c and back.
use remote_file_procedure_ca.Prelude.{
  ℕ, ◌<◌, ◌≤◌, ◌^◌, ◌≡◌, [], ◌∷◌, ◌++◌, drop, arith, ℤ, pos, negsuc, FitsInt, length, eqb_ℤ,
  to_int-FitsInt, ◌+ℤ◌, Bool-cases, inl, inr,
}
use remote_file_procedure_ca.Text.{Bytes}
use remote_file_procedure_ca.Text.Search.{IsNulFree}
use remote_file_procedure_ca.Number.{print_int}
use remote_file_procedure_ca.Result.{ok}
use remote_file_procedure_ca.Marshall.Request.RoundTrip.{request_stream}
use remote_file_procedure_ca.Marshall.Response.RoundTrip.{response_stream}
use remote_file_procedure_ca.Socket.{Storage}
use remote_file_procedure_ca.Server.{Process, System, Server, fd_offset}
use remote_file_procedure_ca.Server.Handlers.{cleared, remote_fd}
use remote_file_procedure_ca.Server.Replies.{
  serve_open-answer, serve_stat-answer, serve_unlink-answer,
}
use remote_file_procedure_ca.Server.Service.{op_number, open_op, stat_op, unlink_op, serve}
use remote_file_procedure_ca.Client.{Client}
use remote_file_procedure_ca.Client.Stubs.{open_stub, stat_stub, unlink_stub}
use remote_file_procedure_ca.Client.Remote.{Answered, numeral-sized, unlink_stub-remote}
use remote_file_procedure_ca.Client.Path.{mode_of, open_params, open_stub-remote, stat_stub-remote}
use remote_file_procedure_ca.FileService.{client_fd}
use remote_file_procedure_ca.FileService.Handlers.{remote_fd-client_fd}
use remote_file_procedure_ca.Session.{Served, Carries, answer-Served}

remote_fd-FitsInt : (fd : ℤ) → FitsInt fd → FitsInt (remote_fd fd)
remote_fd-FitsInt fd fits = elim (Bool-cases (eqb_ℤ fd (negsuc 0))) [
  | inl failed ↦ rw failed fits
  | inr opened ↦ rw opened (to_int-FitsInt (fd +ℤ pos fd_offset))
]

module _ {V W : Type 0} (sys : System W) (client : Client V) (server : Server W) (s : Storage)
    (path : Bytes) (after : Process W) (nul_free : IsNulFree path)
    (path_sized : length path < 2 ^ 64) (errno_fits : FitsInt after.errno) where
  -- A remote `open` from end to end. Where the connection carries the request and the answer, the
  -- server opens the client's path with its flags, and with its mode where the flags have
  -- `O_CREAT`, and the client returns the server's descriptor moved up by `OFFSET`, as an
  -- `int`, or -1 where the server's call has returned -1, and then with
  -- the server's errno; otherwise its errno is EAGAIN, which the last `recv` of the exchange leaves. The
  -- path has no NUL, and the numbers have the widths of their types.
  pub open-Served :
      (flags : ℤ) (mode : ℕ) (fd : ℤ)
      → FitsInt flags
      → mode_of flags mode < 2 ^ 32
      → FitsInt fd
      → sys.sys_open path flags (mode_of flags mode) (cleared server) ≡ (fd, after)
      → Carries client server s after open_op
          (open_params path flags (mode_of flags mode))
          (print_int (client_fd fd) ∷ [])
      → Served sys server s after (response_stream after.errno (print_int (client_fd fd) ∷ []))
        × ((client' : Client V) × (open_stub client (path ++ 0 ∷ []) flags mode
              ≡ ok (client_fd fd, client'))
            × Answered client
                (request_stream (op_number open_op) (open_params path flags (mode_of flags mode)))
                after.errno
                (client_fd fd)
                client')
  unfolding serve
  open-Served flags mode fd flags_fit mode_fits fd_fits called carries =
      let m = mode_of flags mode in
      let fits = rw (remote_fd-client_fd fd) at (remote_fd-FitsInt fd fd_fits) in
      (
        answer-Served sys client server s after errno_fits open_op (open_params path flags m)
            (print_int (client_fd fd) ∷ []) (omega arith) (omega arith)
            (
              path_sized,
              (numeral-sized flags (omega arith), (numeral-sized (pos m) (omega arith), tt)),
            )
            (numeral-sized (client_fd fd) (omega (arith, fits)), tt) carries
            (rw (remote_fd-client_fd fd) at (
              serve_open-answer sys server path flags m fd after nul_free flags_fit mode_fits called
                fd_fits)),
        open_stub-remote client path after.errno (client_fd fd) nul_free path_sized errno_fits fits
            flags mode flags_fit mode_fits carries.3,
      )

  -- A remote `stat` from end to end. Where the connection carries the request and the answer, and
  -- the call of the server fills the structure, the client has the same bytes in its structure, and
  -- returns the result of that call, with its errno where it is negative and otherwise EAGAIN,
  -- which the last `recv` of the exchange leaves. The path has no NUL, and errno and result have the width of `int`.
  pub stat-Served :
      (result : ℤ) (temp_stat statbuf : Bytes)
      → FitsInt result
      → length temp_stat ≡ sys.stat_size
      → length temp_stat ≤ length statbuf
      → length temp_stat < 2 ^ 64
      → sys.sys_stat path (cleared server) ≡ (result, temp_stat, after)
      → Carries client server s after stat_op (path ∷ []) (print_int result ∷ temp_stat ∷ [])
      → Served sys server s after (response_stream after.errno (print_int result ∷ temp_stat ∷ []))
        × ((client' : Client V) × (stat_stub client (length temp_stat) (path ++ 0 ∷ []) statbuf
              ≡ ok (result, temp_stat ++ drop (length temp_stat) statbuf, client'))
            × Answered client
                (request_stream (op_number stat_op) (path ∷ []))
                after.errno
                result
                client')
  unfolding serve
  stat-Served result temp_stat statbuf fits size le sized called carries = (
    answer-Served sys client server s after errno_fits stat_op (path ∷ [])
        (print_int result ∷ temp_stat ∷ []) (omega arith) (omega arith) (path_sized, tt)
        (numeral-sized result (omega arith), (sized, tt)) carries
        (serve_stat-answer sys server path result temp_stat after nul_free called (omega arith)
          size),
    stat_stub-remote client path after.errno result nul_free path_sized errno_fits fits temp_stat
        statbuf le sized carries.3,
  )

  -- A remote `unlink` from end to end. Where the connection carries the request and the answer, the
  -- server removes the client's path, and the client returns the result of that call, with its errno
  -- where it is negative and otherwise EAGAIN, which the last `recv` of the exchange leaves. The path
  -- has no NUL, and errno and result have the width of `int`.
  pub unlink-Served :
      (result : ℤ)
      → FitsInt result
      → sys.sys_unlink path (cleared server) ≡ (result, after)
      → Carries client server s after unlink_op (path ∷ []) (print_int result ∷ [])
      → Served sys server s after (response_stream after.errno (print_int result ∷ []))
        × ((client' : Client V) × (unlink_stub client (path ++ 0 ∷ []) ≡ ok (result, client'))
            × Answered client
                (request_stream (op_number unlink_op) (path ∷ []))
                after.errno
                result
                client')
  unfolding serve
  unlink-Served result fits called carries = (
    answer-Served sys client server s after errno_fits unlink_op (path ∷ []) (print_int result ∷ [])
        (omega arith) (omega arith) (path_sized, tt) (numeral-sized result (omega arith), tt)
        carries (serve_unlink-answer sys server path result after nul_free called (omega arith)),
    unlink_stub-remote client after.errno result errno_fits path nul_free path_sized fits carries.3,
  )
