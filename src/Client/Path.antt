-- ===== src/Client/Path.antt =====
-- `open` and `stat` of rpc/mylib.c on an exchange with the server.
use remote_file_procedure_ca.Prelude.{
  ℕ, ◌<◌, ◌≤◌, ◌^◌, ◌≡◌, true, none, some, List, [], ◌∷◌, ◌++◌, drop, take-append, arith, ℤ, pos,
  FitsInt, length, length-append, leb, le→leb, if◌then◌else◌, ap,
}
use remote_file_procedure_ca.Text.{Bytes}
use remote_file_procedure_ca.Text.Search.{IsNulFree, c_string-append}
use remote_file_procedure_ca.Number.{print_int}
use remote_file_procedure_ca.Result.{ok}
use remote_file_procedure_ca.Marshall.{copy_block}
use remote_file_procedure_ca.Marshall.Request.RoundTrip.{request_stream}
use remote_file_procedure_ca.Marshall.Request.Pack.{
  init_request-eq, pack_pointer-eq, pack_integral-eq,
}
use remote_file_procedure_ca.Marshall.Response.RoundTrip.{response_of, response_stream}
use remote_file_procedure_ca.Server.Packed.{atoi-param}
use remote_file_procedure_ca.Server.Service.{op_number, open_op, stat_op}
use remote_file_procedure_ca.Client.{Client, return_val, note_errno}
use remote_file_procedure_ca.Client.Calls.{Exchange}
use remote_file_procedure_ca.Client.Stubs.{wants_mode, copy_out, open_stub, stat_stub}
use remote_file_procedure_ca.Client.Remote.{
  Answered, call_remote-eq, finish_int-eq, note_errno-Answered, numeral-sized,
}

-- The third argument of `open`, which is only there with `O_CREAT`.
abbrev pub mode_of : ℤ → ℕ → ℕ
mode_of flags mode = if wants_mode flags then mode else 0

abbrev pub open_params : Bytes → ℤ → ℕ → List Bytes
open_params path flags mode = path ∷ print_int flags ∷ print_int (pos mode) ∷ []

-- `memcpy` of a whole text from a block that holds it.
pub copy_block-text : (text : Bytes) → copy_block (some (text ++ 0 ∷ [])) (length text) ≡ ok text
unfolding copy_block
copy_block-text text =
    let enough : leb (length text) (length (text ++ 0 ∷ [])) ≡ true =
      le→leb (length text) (length (text ++ 0 ∷ [])) (omega (arith, length-append text (0 ∷ []))) in
    rw enough (ap ok (take-append text (0 ∷ [])))

module _ {W : Type 0} (client : Client W) (path : Bytes) (errno result : ℤ)
    (nul_free : IsNulFree path) (path_sized : length path < 2 ^ 64) (errno_fits : FitsInt errno)
    (fits : FitsInt result) where
  pub open_stub-remote :
      (flags : ℤ) (mode : ℕ)
      → FitsInt flags
      → mode_of flags mode < 2 ^ 32
      → Exchange client
          (request_stream (op_number open_op) (open_params path flags (mode_of flags mode)))
          (response_stream errno (print_int result ∷ []))
      → (after : Client W) × (open_stub client (path ++ 0 ∷ []) flags mode ≡ ok (result, after))
        × Answered client
            (request_stream (op_number open_op) (open_params path flags (mode_of flags mode)))
            errno
            result
            after
  unfolding open_stub
  open_stub-remote flags mode flags_fit mode_fits exchange =
      let op = op_number open_op in
      let m = mode_of flags mode in
      let params = open_params path flags m in
      let stream = request_stream op params in
      let (sent, e, has_sent) =
        call_remote-eq client op errno params (print_int result ∷ []) (omega arith) errno_fits
          (omega arith) (omega arith)
          (
            path_sized,
            (numeral-sized flags (omega arith), (numeral-sized (pos m) (omega arith), tt)),
          )
          (numeral-sized result (omega arith), tt) exchange in
      let enough : leb (length path) (length (path ++ 0 ∷ [])) ≡ true =
        le→leb (length path) (length (path ++ 0 ∷ []))
          (omega (arith, length-append path (0 ∷ []))) in
      (
        note_errno sent result (response_of errno (print_int result ∷ [])),
        rw (
          c_string-append path [] nul_free,
          init_request-eq op 3,
          pack_pointer-eq op (none ∷ none ∷ none ∷ []) 0 (path ++ 0 ∷ []) (length path),
          enough,
          take-append path (0 ∷ []),
          pack_integral-eq op (some path ∷ none ∷ none ∷ []) 1 flags (omega arith),
          pack_integral-eq op (some path ∷ some (print_int flags) ∷ none ∷ []) 2 (pos m)
              (omega arith),
          e,
          finish_int-eq client stream errno result [] sent fits,
        ),
        note_errno-Answered client stream errno result (print_int result ∷ []) sent has_sent,
      )

  pub stat_stub-remote :
      (temp_stat statbuf : Bytes)
      → length temp_stat ≤ length statbuf
      → length temp_stat < 2 ^ 64
      → Exchange client
          (request_stream (op_number stat_op) (path ∷ []))
          (response_stream errno (print_int result ∷ temp_stat ∷ []))
      → (after : Client W) × (stat_stub client (length temp_stat) (path ++ 0 ∷ []) statbuf
          ≡ ok (result, temp_stat ++ drop (length temp_stat) statbuf, after))
        × Answered client (request_stream (op_number stat_op) (path ∷ [])) errno result after
  unfolding stat_stub return_val copy_out
  stat_stub-remote temp_stat statbuf le sized exchange =
      let op = op_number stat_op in
      let vals = print_int result ∷ temp_stat ∷ [] in
      let stream = request_stream op (path ∷ []) in
      let (sent, e, has_sent) =
        call_remote-eq client op errno (path ∷ []) vals (omega arith) errno_fits (omega arith)
          (omega arith) (path_sized, tt) (numeral-sized result (omega arith), (sized, tt))
          exchange in
      let enough : leb (length path) (length (path ++ 0 ∷ [])) ≡ true =
        le→leb (length path) (length (path ++ 0 ∷ []))
          (omega (arith, length-append path (0 ∷ []))) in
      (
        note_errno sent result (response_of errno vals),
        rw (
          c_string-append path [] nul_free,
          init_request-eq op 1,
          pack_pointer-eq op (none ∷ []) 0 (path ++ 0 ∷ []) (length path),
          enough,
          take-append path (0 ∷ []),
          e,
          stat_stub,
          copy_block-text temp_stat,
          le→leb (length temp_stat) (length statbuf) le,
          atoi-param result fits,
        ),
        note_errno-Answered client stream errno result vals sent has_sent,
      )
