-- ===== src/Client/Transfer.antt =====
-- `write` and `read` of rpc/mylib.c on an exchange with the server.
use remote_file_procedure_ca.Prelude.{
  ℕ, ◌<◌, ◌≤◌, ◌^◌, ◌≡◌, true, false, none, some, List, [], ◌∷◌, ◌++◌, take, drop, take-append,
  length-take, arith, ℤ, pos, negsuc, FitsInt, FitsLong, to_long, to_long-FitsLong, length,
  length-append, leb, le→leb,
}
use remote_file_procedure_ca.Text.{Bytes}
use remote_file_procedure_ca.Number.{print_int}
use remote_file_procedure_ca.Result.{ok}
use remote_file_procedure_ca.Marshall.{copy_block}
use remote_file_procedure_ca.Marshall.Fields.RoundTrip.{AreSized}
use remote_file_procedure_ca.Marshall.Request.{init_request, pack_integral, pack_pointer}
use remote_file_procedure_ca.Marshall.Request.RoundTrip.{request_of, request_stream}
use remote_file_procedure_ca.Marshall.Request.Pack.{
  request_with, init_request-eq, pack_pointer-eq, pack_integral-eq,
}
use remote_file_procedure_ca.Marshall.Response.RoundTrip.{response_of, response_stream}
use remote_file_procedure_ca.Server.{System}
use remote_file_procedure_ca.Server.Packed.{atol-param}
use remote_file_procedure_ca.Server.Service.{op_number, read_op, write_op}
use remote_file_procedure_ca.Client.{Client, call_remote, return_val, note_errno}
use remote_file_procedure_ca.Client.Calls.{Exchange, HasSent}
use remote_file_procedure_ca.Client.Stubs.{
  is_local, copy_second, copy_out, finish_read, read_stub, write_stub,
}
use remote_file_procedure_ca.Client.Remote.{
  Answered, call_remote-eq, finish_long-eq, note_errno-Answered, numeral-sized,
}

-- The parameters of a transfer: the descriptor, the first bytes of the buffer, and their number.
abbrev pub transfer : ℤ → Bytes → ℕ → List Bytes
transfer fd buf count = print_int fd ∷ take count buf ∷ print_int (to_long (pos count)) ∷ []

module _ (op fd : ℤ) (buf : Bytes) (count : ℕ) (fd_fits : FitsInt fd) (le : count ≤ length buf)
    (small : count < 2 ^ 64) where
  transfer_first :
      pack_integral (init_request op (pos 3)) 0 fd
      ≡ ok (request_with op (some (print_int fd) ∷ none ∷ none ∷ []))
  transfer_first =
      rw (init_request-eq op 3, pack_integral-eq op (none ∷ none ∷ none ∷ []) 0 fd (omega arith))

  transfer_second :
      pack_pointer (request_with op (some (print_int fd) ∷ none ∷ none ∷ [])) 1 buf count
      ≡ ok (request_with op (some (print_int fd) ∷ some (take count buf) ∷ none ∷ []))
  transfer_second = rw (
    pack_pointer-eq op (some (print_int fd) ∷ none ∷ none ∷ []) 1 buf count,
    le→leb count (length buf) le,
  )

  transfer_third :
      pack_integral
        (request_with op (some (print_int fd) ∷ some (take count buf) ∷ none ∷ []))
        2
        (to_long (pos count))
      ≡ ok (request_of op (transfer fd buf count))
  transfer_third = rw (
      pack_integral-eq op (some (print_int fd) ∷ some (take count buf) ∷ none ∷ []) 2
        (to_long (pos count)) (to_long-FitsLong count small))

  pub transfer-sized : AreSized (transfer fd buf count)
  transfer-sized = (
    numeral-sized fd (omega arith),
    (
      omega (arith, length-take count buf),
      (numeral-sized (to_long (pos count)) (to_long-FitsLong count small), tt),
    ),
  )

-- The end of `read`, by the sign of the result.
finish_read-done :
    {W : Type 0} (after : Client W) (errno : ℤ) (content buf : Bytes)
    → length content ≤ length buf
    → length content < 2 ^ 63
    → finish_read after (response_of errno (print_int (pos (length content)) ∷ content ∷ [])) buf
      ≡ ok (pos (length content), content ++ drop (length content) buf, after)
unfolding finish_read copy_second copy_out return_val copy_block note_errno
finish_read-done after errno content buf fits small =
    let n = length content in
    let copies : leb n (length (content ++ 0 ∷ [])) ≡ true =
      le→leb n (length (content ++ 0 ∷ [])) (omega (arith, length-append content (0 ∷ []))) in
    rw (
      atol-param (pos n) (omega arith),
      finish_read,
      copies,
      take-append content (0 ∷ []),
      le→leb n (length buf) fits,
    )

finish_read-failed :
    {W : Type 0} (after : Client W) (errno : ℤ) (m : ℕ) (buf : Bytes)
    → FitsLong (negsuc m)
    → finish_read after (response_of errno (print_int (negsuc m) ∷ [] ∷ [])) buf
      ≡ ok (
        negsuc m,
        buf,
        note_errno after (negsuc m) (response_of errno (print_int (negsuc m) ∷ [] ∷ [])),
      )
unfolding finish_read
finish_read-failed after errno m buf fits = rw (atol-param (negsuc m) fits, finish_read)

module _ {W : Type 0} (sys : System W) (client : Client W) (errno fd : ℤ) (buf : Bytes) (count : ℕ)
    (errno_fits : FitsInt errno) (remote : is_local fd ≡ false) (fd_fits : FitsInt fd)
    (le : count ≤ length buf) (small : count < 2 ^ 64) where
  call_transfer :
      (op : ℤ) (vals : List Bytes)
      → FitsInt op
      → length vals < 2 ^ 31
      → AreSized vals
      → Exchange client (request_stream op (transfer fd buf count)) (response_stream errno vals)
      → (after : Client W) × (call_remote client (request_of op (transfer fd buf count))
          ≡ ok (response_of errno vals, after))
        × HasSent client (request_stream op (transfer fd buf count)) after
  call_transfer op vals op_fits few sized exchange =
      call_remote-eq client op errno (transfer fd buf count) vals op_fits errno_fits (omega arith)
        few (transfer-sized op fd buf count fd_fits le small) sized exchange

  -- Where the connection takes the request and brings a response, `write` to a remote descriptor
  -- sends one request with the descriptor, the first `count` bytes of the buffer and the count, and
  -- returns the result in the response; errno is the server's where the result is negative, and
  -- otherwise EAGAIN. The buffer has `count` bytes at least, and the numbers have the widths of
  -- their types.
  pub write_stub-remote :
      (result : ℤ)
      → FitsLong result
      → Exchange client
          (request_stream (op_number write_op) (transfer fd buf count))
          (response_stream errno (print_int result ∷ []))
      → (after : Client W) × (write_stub sys client fd buf count ≡ ok (result, after))
        × Answered client
            (request_stream (op_number write_op) (transfer fd buf count))
            errno
            result
            after
  unfolding write_stub
  write_stub-remote result fits exchange =
      let op = op_number write_op in
      let stream = request_stream op (transfer fd buf count) in
      let (sent, e, has_sent) =
        call_transfer op (print_int result ∷ []) (omega arith) (omega arith)
          (numeral-sized result fits, tt) exchange in
      (
        note_errno sent result (response_of errno (print_int result ∷ [])),
        rw (
          remote,
          transfer_first op fd buf count fd_fits le small,
          transfer_second op fd buf count fd_fits le small,
          transfer_third op fd buf count fd_fits le small,
          e,
          finish_long-eq client stream errno result [] sent fits,
        ),
        note_errno-Answered client stream errno result (print_int result ∷ []) sent has_sent,
      )

  -- Where the connection takes the request and brings a response with at most as many bytes as the
  -- buffer holds, `read` of a remote descriptor returns their number, and puts them at the start of
  -- the buffer, whose other bytes stay. The buffer has `count` bytes at least, and the numbers have
  -- the widths of their types.
  pub read_stub-remote :
      (content : Bytes)
      → length content ≤ length buf
      → length content < 2 ^ 63
      → Exchange client
          (request_stream (op_number read_op) (transfer fd buf count))
          (response_stream errno (print_int (pos (length content)) ∷ content ∷ []))
      → (after : Client W) × (read_stub sys client fd buf count
          ≡ ok (pos (length content), content ++ drop (length content) buf, after))
        × HasSent client (request_stream (op_number read_op) (transfer fd buf count)) after
  unfolding read_stub
  read_stub-remote content fits content_small exchange =
      let op = op_number read_op in
      let n = length content in
      let stream = request_stream op (transfer fd buf count) in
      let (sent, e, has_sent) =
        call_transfer op (print_int (pos n) ∷ content ∷ []) (omega arith) (omega arith)
          (numeral-sized (pos n) (omega arith), (omega arith, tt)) exchange in
      (
        sent,
        rw (
          remote,
          transfer_first op fd buf count fd_fits le small,
          transfer_second op fd buf count fd_fits le small,
          transfer_third op fd buf count fd_fits le small,
          e,
          finish_read-done sent errno content buf fits content_small,
        ),
        has_sent,
      )

  -- Where the connection takes the request and brings a response with a negative result, `read` of
  -- a remote descriptor returns the result with the server's errno, and the buffer stays as it is.
  -- The buffer has `count` bytes at least, and the numbers have the widths of their types.
  pub read_stub-failed :
      (m : ℕ)
      → FitsLong (negsuc m)
      → Exchange client
          (request_stream (op_number read_op) (transfer fd buf count))
          (response_stream errno (print_int (negsuc m) ∷ [] ∷ []))
      → (after : Client W) × (read_stub sys client fd buf count ≡ ok (negsuc m, buf, after))
        × Answered client
            (request_stream (op_number read_op) (transfer fd buf count))
            errno
            (negsuc m)
            after
  unfolding read_stub
  read_stub-failed m fits exchange =
      let op = op_number read_op in
      let result = negsuc m in
      let stream = request_stream op (transfer fd buf count) in
      let (sent, e, has_sent) =
        call_transfer op (print_int result ∷ [] ∷ []) (omega arith) (omega arith)
          (numeral-sized result fits, (omega arith, tt)) exchange in
      (
        note_errno sent result (response_of errno (print_int result ∷ [] ∷ [])),
        rw (
          remote,
          transfer_first op fd buf count fd_fits le small,
          transfer_second op fd buf count fd_fits le small,
          transfer_third op fd buf count fd_fits le small,
          e,
          finish_read-failed sent errno m buf fits,
        ),
        note_errno-Answered client stream errno result (print_int result ∷ [] ∷ []) sent has_sent,
      )
