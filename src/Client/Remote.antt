-- ===== src/Client/Remote.antt =====
-- The stubs of rpc/mylib.c on an exchange with the server.
use remote_file_procedure_ca.Prelude.{
  Bool-cases, inl, inr, ◌<◌, ◌^◌, ◌≡◌, refl, true, false, none, List, [], ◌∷◌, ◌++◌, take-append,
  arith, ℤ, FitsInt, FitsLong, is_neg, length, length-append, leb, le→leb, if◌then◌else◌,
}
use remote_file_procedure_ca.Text.{Bytes}
use remote_file_procedure_ca.Text.Search.{IsNulFree, c_string-append}
use remote_file_procedure_ca.Number.{print_int}
use remote_file_procedure_ca.Number.Width.{length-print_int}
use remote_file_procedure_ca.Result.{ok}
use remote_file_procedure_ca.Marshall.Fields.RoundTrip.{AreSized}
use remote_file_procedure_ca.Marshall.Request.RoundTrip.{
  request_of, request_stream, serialize_request-stream,
}
use remote_file_procedure_ca.Marshall.Request.Pack.{
  init_request-eq, pack_pointer-eq, pack_integral-eq,
}
use remote_file_procedure_ca.Marshall.Response.RoundTrip.{
  response_of, response_stream, serialize_response-stream, deserialize-serialize_response,
}
use remote_file_procedure_ca.Socket.{errno_number, eagain}
use remote_file_procedure_ca.Socket.Write.Stream.{message_header}
use remote_file_procedure_ca.Server.{Process, System}
use remote_file_procedure_ca.Server.Packed.{atoi-param, atol-param}
use remote_file_procedure_ca.Server.Service.{op_number, close_op, unlink_op}
use remote_file_procedure_ca.Client.{Client, call_remote, return_val, note_errno}
use remote_file_procedure_ca.Client.Calls.{Exchange, HasSent, call_remote-whole}
use remote_file_procedure_ca.Client.Stubs.{
  is_local, finish_int, finish_long, unlink_stub, close_stub,
}

-- The process behind a remote call: `errno` is the server's where the result is negative, and otherwise
-- EAGAIN, which the last `recv` has left.
abbrev pub noted : {W : Type 0} → Client W → ℤ → ℤ → Process W
noted client errno result = record {
  errno = if is_neg result then errno else errno_number eagain;
  world = client.process.world;
}

-- The client behind a remote call that sent this request.
abbrev pub Answered : {W : Type 0} → Client W → Bytes → ℤ → ℤ → Client W → Type 0
Answered client stream errno result after =
    (after.process ≡ noted client errno result)
    × (after.wire ≡ client.wire ++ (message_header stream ++ stream))

module _ {W : Type 0} (client : Client W) (stream : Bytes) (errno result : ℤ)
    (vals : List Bytes) where
  pub note_errno-Answered :
      (after : Client W)
      → HasSent client stream after
      → Answered client stream errno result (note_errno after result (response_of errno vals))
  unfolding note_errno
  note_errno-Answered after (process, wire) = elim (Bool-cases (is_neg result)) [
    | inl negative ↦ rw (negative, note_errno) (rw process refl, wire)
    | inr fine ↦ rw (fine, note_errno) (process, wire)
  ]

  pub finish_int-eq :
      (after : Client W)
      → FitsInt result
      → finish_int after (response_of errno (print_int result ∷ vals))
        ≡ ok (result, note_errno after result (response_of errno (print_int result ∷ vals)))
  unfolding finish_int return_val
  finish_int-eq after fits = rw (atoi-param result fits)

  pub finish_long-eq :
      (after : Client W)
      → FitsLong result
      → finish_long after (response_of errno (print_int result ∷ vals))
        ≡ ok (result, note_errno after result (response_of errno (print_int result ∷ vals)))
  unfolding finish_long return_val
  finish_long-eq after fits = rw (atol-param result fits)

-- The exchange of a request and a response with these fields.
module _ {W : Type 0} (client : Client W) (op errno : ℤ) (params vals : List Bytes)
    (op_fits : FitsInt op) (errno_fits : FitsInt errno) (few : length params < 2 ^ 31)
    (few_vals : length vals < 2 ^ 31) (sized : AreSized params) (sized_vals : AreSized vals) where
  pub call_remote-eq :
      Exchange client (request_stream op params) (response_stream errno vals)
      → (after : Client W) × (call_remote client (request_of op params)
          ≡ ok (response_of errno vals, after))
        × HasSent client (request_stream op params) after
  call_remote-eq exchange =
      call_remote-whole client (request_of op params) (request_stream op params)
        (response_stream errno vals) (response_of errno vals)
        (serialize_request-stream op params op_fits few sized)
        (deserialize-serialize_response errno vals errno_fits few_vals sized_vals
          (response_stream errno vals) (0 ∷ [])
          (serialize_response-stream errno vals errno_fits few_vals sized_vals))
        exchange

pub numeral-sized : (z : ℤ) → FitsLong z → length (print_int z) < 2 ^ 64
numeral-sized z h = omega (arith, length-print_int z h)

module _ {W : Type 0} (client : Client W) (errno result : ℤ) (errno_fits : FitsInt errno) where
  -- Where the connection takes the request and brings a response, `unlink` sends one request with
  -- the path and returns the result in the response; errno is the server's where the result is
  -- negative, and otherwise EAGAIN. The path has no NUL, and errno and result have the width of
  -- `int`.
  pub unlink_stub-remote :
      (path : Bytes)
      → IsNulFree path
      → length path < 2 ^ 64
      → FitsInt result
      → Exchange client
          (request_stream (op_number unlink_op) (path ∷ []))
          (response_stream errno (print_int result ∷ []))
      → (after : Client W) × (unlink_stub client (path ++ 0 ∷ []) ≡ ok (result, after))
        × Answered client (request_stream (op_number unlink_op) (path ∷ [])) errno result after
  unfolding unlink_stub
  unlink_stub-remote path nul_free sized fits exchange =
      let op = op_number unlink_op in
      let (sent, e, has_sent) =
        call_remote-eq client op errno (path ∷ []) (print_int result ∷ []) (omega arith) errno_fits
          (omega arith) (omega arith) (sized, tt) (numeral-sized result (omega arith), tt)
          exchange in
      let enough : leb (length path) (length (path ++ 0 ∷ [])) ≡ true =
        le→leb (length path) (length (path ++ 0 ∷ []))
          (omega (arith, length-append path (0 ∷ []))) in
      let response = response_of errno (print_int result ∷ []) in
      (
        note_errno sent result response,
        rw (
          c_string-append path [] nul_free,
          init_request-eq op 1,
          pack_pointer-eq op (none ∷ []) 0 (path ++ 0 ∷ []) (length path),
          enough,
          take-append path (0 ∷ []),
          e,
          finish_int-eq client (request_stream op (path ∷ [])) errno result [] sent fits,
        ),
        note_errno-Answered client (request_stream op (path ∷ [])) errno result
            (print_int result ∷ []) sent has_sent,
      )

  -- Where the connection takes the request and brings a response, `close` of a remote descriptor
  -- sends one request with the descriptor and returns the result in the response; errno is the
  -- server's where the result is negative, and otherwise EAGAIN. Descriptor, errno and result
  -- have the width of `int`.
  pub close_stub-remote :
      (sys : System W) (fd : ℤ)
      → is_local fd ≡ false
      → FitsInt fd
      → FitsInt result
      → Exchange client
          (request_stream (op_number close_op) (print_int fd ∷ []))
          (response_stream errno (print_int result ∷ []))
      → (after : Client W) × (close_stub sys client fd ≡ ok (result, after))
        × Answered client
            (request_stream (op_number close_op) (print_int fd ∷ []))
            errno
            result
            after
  unfolding close_stub
  close_stub-remote sys fd remote fd_fits fits exchange =
      let op = op_number close_op in
      let params = print_int fd ∷ [] in
      let (sent, e, has_sent) =
        call_remote-eq client op errno params (print_int result ∷ []) (omega arith) errno_fits
          (omega arith) (omega arith) (numeral-sized fd (omega arith), tt)
          (numeral-sized result (omega arith), tt) exchange in
      (
        note_errno sent result (response_of errno (print_int result ∷ [])),
        rw (
          remote,
          init_request-eq op 1,
          pack_integral-eq op (none ∷ []) 0 fd (omega arith),
          e,
          finish_int-eq client (request_stream op params) errno result [] sent fits,
        ),
        note_errno-Answered client (request_stream op params) errno result (print_int result ∷ [])
            sent has_sent,
      )
