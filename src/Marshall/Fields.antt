-- ===== src/Marshall/Fields.antt =====
-- The loops over `param_sizes` and `params` of a request, and over `return_sizes` and `return_vals`
-- of a response, which are the same code twice in rpc/marshall.c.
pub mod RoundTrip
use remote_file_procedure_ca.Prelude.{
  ℕ, zero, suc, ◌+◌, ◌<◌, ◌^◌, ◌≡◌, Option, none, some, List, [], ◌∷◌, ◌++◌, length, take, drop,
  leb, ltb,
}
use remote_file_procedure_ca.Text.{Bytes, strstr}
use remote_file_procedure_ca.Number.{print_size, sscanf_size}
use remote_file_procedure_ca.Result.{Result, ok, err, bad_memory, ◌>>=◌, ◌>>◌, require}
use remote_file_procedure_ca.Marshall.{Block, temp_buf_size, line_split, copy_block, temp_line}

-- Each field takes a line for its size and a line for its content.
unfoldable pub serialize_fields : ℕ → List ℕ → List Block → Result Bytes
unfolding temp_line copy_block
serialize_fields zero sizes vals = ok []
serialize_fields (suc n) [] vals = err bad_memory
serialize_fields (suc n) (s ∷ sizes) [] = err bad_memory
serialize_fields (suc n) (s ∷ sizes) (v ∷ vals) = do
  line ← temp_line (print_size s ++ line_split)
  content ← copy_block v s
  rest ← serialize_fields n sizes vals
  ok (line ++ (content ++ (line_split ++ rest)))

-- `calloc` has left 0 in a size that `sscanf` does not set.
abbrev pub scanned_size : Bytes → ℕ
scanned_size line = elim (sscanf_size line) [ none ↦ 0 | some size ↦ size ]

-- The size in the line that begins at `buf`, and where the content begins.
unfoldable pub size_line : Bytes → Result (ℕ × Bytes)
size_line buf = elim (strstr buf line_split) [
  | none ↦ err bad_memory
  | some line_end ↦ do
    require (ltb line_end temp_buf_size) bad_memory
    ok (scanned_size (take line_end buf), drop (line_end + 2) buf)
]

-- One field: its size, its new block, and where the next field begins.
unfoldable pub read_field : Bytes → Result (ℕ × Bytes × Bytes)
unfolding size_line
read_field buf = do
  (size, content) ← size_line buf
  require (leb size (length content)) bad_memory
  ok (size, take size content ++ 0 ∷ [], drop (size + 2) content)

-- The two arrays of `n` fields read from `buf`.
unfoldable pub deserialize_fields : ℕ → Bytes → Result (List ℕ × List Block)
unfolding read_field
deserialize_fields zero buf = ok ([], [])
deserialize_fields (suc n) buf = do
  (size, block, next) ← read_field buf
  (sizes, vals) ← deserialize_fields n next
  ok (size ∷ sizes, some block ∷ vals)
