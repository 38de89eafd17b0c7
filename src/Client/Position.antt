-- ===== src/Client/Position.antt =====
-- `lseek` of rpc/mylib.c on an exchange with the server.
use remote_file_procedure_ca.Prelude.{
  ◌≡◌, false, none, some, List, [], ◌∷◌, arith, ℤ, FitsInt, FitsLong,
}
use remote_file_procedure_ca.Text.{Bytes}
use remote_file_procedure_ca.Number.{print_int}
use remote_file_procedure_ca.Result.{ok}
use remote_file_procedure_ca.Marshall.Request.RoundTrip.{request_stream}
use remote_file_procedure_ca.Marshall.Request.Pack.{init_request-eq, pack_integral-eq}
use remote_file_procedure_ca.Marshall.Response.RoundTrip.{response_of, response_stream}
use remote_file_procedure_ca.Server.{System}
use remote_file_procedure_ca.Server.Service.{op_number, lseek_op}
use remote_file_procedure_ca.Client.{Client, note_errno}
use remote_file_procedure_ca.Client.Calls.{Exchange}
use remote_file_procedure_ca.Client.Stubs.{is_local, lseek_stub}
use remote_file_procedure_ca.Client.Remote.{
  Answered, call_remote-eq, finish_long-eq, note_errno-Answered, numeral-sized,
}

abbrev pub seek_params : ℤ → ℤ → ℤ → List Bytes
seek_params fd offset whence = print_int fd ∷ print_int offset ∷ print_int whence ∷ []

pub lseek_stub-remote :
    {W : Type 0} (sys : System W) (client : Client W) (errno fd offset whence result : ℤ)
    → is_local fd ≡ false
    → FitsInt errno
    → FitsInt fd
    → FitsLong offset
    → FitsInt whence
    → FitsLong result
    → Exchange client
        (request_stream (op_number lseek_op) (seek_params fd offset whence))
        (response_stream errno (print_int result ∷ []))
    → (after : Client W) × (lseek_stub sys client fd offset whence ≡ ok (result, after))
      × Answered client
          (request_stream (op_number lseek_op) (seek_params fd offset whence))
          errno
          result
          after
unfolding lseek_stub
lseek_stub-remote sys client errno fd offset whence result remote errno_fits fd_fits offset_fits
      whence_fits fits exchange =
    let op = op_number lseek_op in
    let params = seek_params fd offset whence in
    let stream = request_stream op params in
    let (sent, e, has_sent) =
      call_remote-eq client op errno params (print_int result ∷ []) (omega arith) errno_fits
        (omega arith) (omega arith)
        (
          numeral-sized fd (omega arith),
          (numeral-sized offset offset_fits, (numeral-sized whence (omega arith), tt)),
        )
        (numeral-sized result fits, tt) exchange in
    (
      note_errno sent result (response_of errno (print_int result ∷ [])),
      rw (
        remote,
        init_request-eq op 3,
        pack_integral-eq op (none ∷ none ∷ none ∷ []) 0 fd (omega arith),
        pack_integral-eq op (some (print_int fd) ∷ none ∷ none ∷ []) 1 offset offset_fits,
        pack_integral-eq op (some (print_int fd) ∷ some (print_int offset) ∷ none ∷ []) 2 whence
            (omega arith),
        e,
        finish_long-eq client stream errno result [] sent fits,
      ),
      note_errno-Answered client stream errno result (print_int result ∷ []) sent has_sent,
    )
