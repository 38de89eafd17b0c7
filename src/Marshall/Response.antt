-- ===== src/Marshall/Response.antt =====
-- `rpc_response` of rpc/marshall.h and its operations in rpc/marshall.c.
pub mod Pack
pub mod RoundTrip
use remote_file_procedure_ca.Prelude.{
  ℕ, Option, none, some, List, [], ◌∷◌, ◌++◌, ℤ, pos, rounds, ltb_ℤ, replicate, length,
}
use remote_file_procedure_ca.Text.{Bytes, codes}
use remote_file_procedure_ca.Number.{print_int}
use remote_file_procedure_ca.Result.{Result, ok, assertion, ◌>>=◌, ◌>>◌, require}
use remote_file_procedure_ca.Marshall.{
  Block, colon, line_split, temp_line, copy_block, store, header_line, scanned_field,
}
use remote_file_procedure_ca.Marshall.Fields.{serialize_fields, deserialize_fields}

abbrev pub header_errno : Bytes
header_errno = codes "Errno"

abbrev pub header_return_num : Bytes
header_return_num = codes "ReturnNum"

pub record Response : Type 0 where
  pub errno_num : ℤ
  pub return_num : ℤ
  pub return_sizes : List ℕ
  pub return_vals : List Block

unfoldable pub init_response : ℤ → ℤ → Response
init_response errno_num return_num = record {
  errno_num = errno_num;
  return_num = return_num;
  return_sizes = replicate (rounds return_num) 0;
  return_vals = replicate (rounds return_num) none;
}

-- The bytes written at `buf`; their number is the function's result.
unfoldable pub serialize_response : Response → Result Bytes
unfolding temp_line
serialize_response response = do
  errno ← temp_line (header_errno ++ (colon ++ (print_int response.errno_num ++ line_split)))
  number ← temp_line (header_return_num ++ (colon ++ (print_int response.return_num ++ line_split)))
  fields ← serialize_fields (rounds response.return_num) response.return_sizes response.return_vals
  ok (errno ++ (number ++ fields))

unfoldable pub deserialize_response : Bytes → Result Response
unfolding header_line
deserialize_response buf = do
  (errno, second) ← header_line buf
  errno_num ← scanned_field errno
  (number, third) ← header_line second
  return_num ← scanned_field number
  (return_sizes, return_vals) ← deserialize_fields (rounds return_num) third
  ok (record {
    errno_num = errno_num;
    return_num = return_num;
    return_sizes = return_sizes;
    return_vals = return_vals;
  })

-- Writes one size and one block, behind the assertion.
put_return : Response → ℕ → ℕ → Bytes → Result Response
unfolding store
put_return response offset size content = do
  return_sizes ← store response.return_sizes offset size
  return_vals ← store response.return_vals offset (some (content ++ 0 ∷ []))
  ok (record response { return_sizes = return_sizes; return_vals = return_vals })

unfoldable pub marshall_integral : Response → ℕ → ℤ → Result Response
unfolding put_return temp_line
marshall_integral response offset val = do
  require (ltb_ℤ (pos offset) response.return_num) assertion
  text ← temp_line (print_int val)
  put_return response offset (length text) text

-- `buf` is the caller's memory from the pointer on.
unfoldable pub marshall_pointer : Response → ℕ → Bytes → ℕ → Result Response
unfolding put_return copy_block
marshall_pointer response offset buf buf_size = do
  require (ltb_ℤ (pos offset) response.return_num) assertion
  content ← copy_block (some buf) buf_size
  put_return response offset buf_size content
