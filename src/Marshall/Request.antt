-- ===== src/Marshall/Request.antt =====
-- `rpc_request` of rpc/marshall.h and its operations in rpc/marshall.c.
pub mod Pack
pub mod RoundTrip
use remote_file_procedure_ca.Prelude.{
  ℕ, Option, none, some, List, [], ◌∷◌, ◌++◌, ℤ, pos, rounds, ltb_ℤ, replicate, length,
}
use remote_file_procedure_ca.Text.{Bytes, codes}
use remote_file_procedure_ca.Number.{print_int}
use remote_file_procedure_ca.Result.{Result, ok, assertion, ◌>>=◌, ◌>>◌, require}
use remote_file_procedure_ca.Marshall.{
  Block, colon, line_split, temp_line, copy_block, store, header_line, scanned_field,
}
use remote_file_procedure_ca.Marshall.Fields.{serialize_fields, deserialize_fields}

abbrev pub header_command : Bytes
header_command = codes "Command"

abbrev pub header_param_num : Bytes
header_param_num = codes "ParamNum"

pub record Request : Type 0 where
  pub command_op : ℤ
  pub param_num : ℤ
  pub param_sizes : List ℕ
  pub params : List Block

-- `calloc` of a negative count gives NULL, which holds no element either.
unfoldable pub init_request : ℤ → ℤ → Request
init_request command_op param_num = record {
  command_op = command_op;
  param_num = param_num;
  param_sizes = replicate (rounds param_num) 0;
  params = replicate (rounds param_num) none;
}

-- The bytes written at `buf`; their number is the function's result.
unfoldable pub serialize_request : Request → Result Bytes
unfolding temp_line
serialize_request request = do
  command ← temp_line (header_command ++ (colon ++ (print_int request.command_op ++ line_split)))
  number ← temp_line (header_param_num ++ (colon ++ (print_int request.param_num ++ line_split)))
  fields ← serialize_fields (rounds request.param_num) request.param_sizes request.params
  ok (command ++ (number ++ fields))

unfoldable pub deserialize_request : Bytes → Result Request
unfolding header_line
deserialize_request buf = do
  (command, second) ← header_line buf
  command_op ← scanned_field command
  (number, third) ← header_line second
  param_num ← scanned_field number
  (param_sizes, params) ← deserialize_fields (rounds param_num) third
  ok (record {
    command_op = command_op;
    param_num = param_num;
    param_sizes = param_sizes;
    params = params;
  })

-- Writes one size and one block, behind the assertion.
put_param : Request → ℕ → ℕ → Bytes → Result Request
unfolding store
put_param request offset size content = do
  param_sizes ← store request.param_sizes offset size
  params ← store request.params offset (some (content ++ 0 ∷ []))
  ok (record request { param_sizes = param_sizes; params = params })

unfoldable pub pack_integral : Request → ℕ → ℤ → Result Request
unfolding put_param temp_line
pack_integral request offset val = do
  require (ltb_ℤ (pos offset) request.param_num) assertion
  text ← temp_line (print_int val)
  put_param request offset (length text) text

-- `buf` is the caller's memory from the pointer on.
unfoldable pub pack_pointer : Request → ℕ → Bytes → ℕ → Result Request
unfolding put_param copy_block
pack_pointer request offset buf buf_size = do
  require (ltb_ℤ (pos offset) request.param_num) assertion
  content ← copy_block (some buf) buf_size
  put_param request offset buf_size content
