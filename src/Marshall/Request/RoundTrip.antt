-- ===== src/Marshall/Request/RoundTrip.antt =====
-- Whole requests of rpc/marshall.c and their byte streams.
use remote_file_procedure_ca.Prelude.{
  ◌<◌, ◌^◌, ◌≡◌, List, ◌++◌, append_assoc, arith, ℤ, pos, FitsInt, length,
}
use remote_file_procedure_ca.Text.{Bytes}
use remote_file_procedure_ca.Result.{ok}
use remote_file_procedure_ca.Marshall.Header.{
  number_line, temp_line-header, header_line-print, scanned_field-print,
}
use remote_file_procedure_ca.Marshall.Fields.RoundTrip.{
  sizes_of, blocks_of, AreSized, layout, serialize_fields-layout, deserialize_fields-layout,
}
use remote_file_procedure_ca.Marshall.Request.{
  Request, header_command, header_param_num, serialize_request, deserialize_request,
}

-- The request that carries these parameters.
abbrev pub request_of : ℤ → List Bytes → Request
request_of op cs = record {
  command_op = op;
  param_num = pos (length cs);
  param_sizes = sizes_of cs;
  params = blocks_of cs;
}

-- Its byte stream.
unfoldable pub request_stream : ℤ → List Bytes → Bytes
request_stream op cs =
    number_line header_command op ++ (number_line header_param_num (pos (length cs)) ++ layout cs)

module _ (op : ℤ) (cs : List Bytes) (op_fits : FitsInt op) (few : length cs < 2 ^ 31)
    (sized : AreSized cs) where
  -- `serialize_request` writes a request without a fault, as two header lines and the layout of the
  -- parameters. The operation is an `int`, there are fewer than 2^31 parameters, and each is
  -- shorter than 2^64 bytes.
  pub serialize_request-stream : serialize_request (request_of op cs) ≡ ok (request_stream op cs)
  unfolding serialize_request request_stream
  serialize_request-stream = rw (
    temp_line-header header_command op (omega arith) op_fits,
    temp_line-header header_param_num (pos (length cs)) (omega arith) (omega arith),
    serialize_fields-layout cs sized,
  )

  deserialize_request-stream :
      (rest : Bytes) → deserialize_request (request_stream op cs ++ rest) ≡ ok (request_of op cs)
  unfolding deserialize_request request_stream
  deserialize_request-stream rest =
      let n = pos (length cs) in
      let first = number_line header_command op in
      let second = number_line header_param_num n in
      let n_fits : FitsInt n = omega arith in
      let regroup : (first ++ (second ++ layout cs)) ++ rest
          ≡ first ++ (second ++ (layout cs ++ rest)) =
        simp append_assoc in
      rw (
        regroup,
        deserialize_request,
        header_line-print header_command op (second ++ (layout cs ++ rest)) (omega arith) op_fits,
        scanned_field-print op op_fits,
        header_line-print header_param_num n (layout cs ++ rest) (omega arith) n_fits,
        scanned_field-print n n_fits,
        deserialize_fields-layout cs rest sized,
      )

  -- What `serialize_request` writes for a request, `deserialize_request` reads as the same request,
  -- whatever bytes the parameters hold and whatever follows in the buffer. The operation is an
  -- `int`, there are fewer than 2^31 parameters, and each is shorter than 2^64 bytes.
  pub deserialize-serialize_request :
      (out rest : Bytes)
      → serialize_request (request_of op cs) ≡ ok out
      → deserialize_request (out ++ rest) ≡ ok (request_of op cs)
  deserialize-serialize_request out rest h =
      let out_eq : out ≡ request_stream op cs = cc (h, serialize_request-stream) in
      rw out_eq (deserialize_request-stream rest)
