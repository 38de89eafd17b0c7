-- ===== src/Marshall/Response/RoundTrip.antt =====
-- Whole responses of rpc/marshall.c and their byte streams.
use remote_file_procedure_ca.Prelude.{
  ◌<◌, ◌^◌, ◌≡◌, List, ◌++◌, append_assoc, arith, ℤ, pos, FitsInt, length,
}
use remote_file_procedure_ca.Text.{Bytes}
use remote_file_procedure_ca.Result.{ok}
use remote_file_procedure_ca.Marshall.Header.{
  number_line, temp_line-header, header_line-print, scanned_field-print,
}
use remote_file_procedure_ca.Marshall.Fields.RoundTrip.{
  sizes_of, blocks_of, AreSized, layout, serialize_fields-layout, deserialize_fields-layout,
}
use remote_file_procedure_ca.Marshall.Response.{
  Response, header_errno, header_return_num, serialize_response, deserialize_response,
}

-- The response that carries these values.
abbrev pub response_of : ℤ → List Bytes → Response
response_of errno cs = record {
  errno_num = errno;
  return_num = pos (length cs);
  return_sizes = sizes_of cs;
  return_vals = blocks_of cs;
}

-- Its byte stream.
unfoldable pub response_stream : ℤ → List Bytes → Bytes
response_stream errno cs =
    number_line header_errno errno ++ (number_line header_return_num (pos (length cs)) ++ layout cs)

module _ (errno : ℤ) (cs : List Bytes) (errno_fits : FitsInt errno) (few : length cs < 2 ^ 31)
    (sized : AreSized cs) where
  -- `serialize_response` writes a response without a fault, as two header lines and the layout of
  -- the values. The errno is an `int`, there are fewer than 2^31 values, and each is shorter than
  -- 2^64 bytes.
  pub serialize_response-stream :
      serialize_response (response_of errno cs) ≡ ok (response_stream errno cs)
  unfolding serialize_response response_stream
  serialize_response-stream = rw (
    temp_line-header header_errno errno (omega arith) errno_fits,
    temp_line-header header_return_num (pos (length cs)) (omega arith) (omega arith),
    serialize_fields-layout cs sized,
  )

  deserialize_response-stream :
      (rest : Bytes)
      → deserialize_response (response_stream errno cs ++ rest) ≡ ok (response_of errno cs)
  unfolding deserialize_response response_stream
  deserialize_response-stream rest =
      let n = pos (length cs) in
      let first = number_line header_errno errno in
      let second = number_line header_return_num n in
      let n_fits : FitsInt n = omega arith in
      let regroup : (first ++ (second ++ layout cs)) ++ rest
          ≡ first ++ (second ++ (layout cs ++ rest)) =
        simp append_assoc in
      rw (
        regroup,
        deserialize_response,
        header_line-print header_errno errno (second ++ (layout cs ++ rest)) (omega arith)
            errno_fits,
        scanned_field-print errno errno_fits,
        header_line-print header_return_num n (layout cs ++ rest) (omega arith) n_fits,
        scanned_field-print n n_fits,
        deserialize_fields-layout cs rest sized,
      )

  -- What `serialize_response` writes for a response, `deserialize_response` reads as the same
  -- response, whatever bytes the values hold and whatever follows in the buffer. The errno is an
  -- `int`, there are fewer than 2^31 values, and each is shorter than 2^64 bytes.
  pub deserialize-serialize_response :
      (out rest : Bytes)
      → serialize_response (response_of errno cs) ≡ ok out
      → deserialize_response (out ++ rest) ≡ ok (response_of errno cs)
  deserialize-serialize_response out rest h =
      let out_eq : out ≡ response_stream errno cs = cc (h, serialize_response-stream) in
      rw out_eq (deserialize_response-stream rest)
