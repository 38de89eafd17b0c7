-- ===== src/Marshall.antt =====
-- rpc/marshall.h and rpc/marshall.c: requests, responses and directory trees as byte streams. This
-- file has the constants and the parts that requests and responses share; the children have the
-- operations.
--
-- A block from `calloc` is the list of its bytes, its final NUL included, and `none` is a NULL
-- pointer. `temp_buf` is written by `sprintf` and by `memcpy`, and each write is checked against
-- its size.
pub mod Header
pub mod Fields
pub mod Slots
pub mod Request
pub mod Response
pub mod Tree
pub mod Print
use remote_file_procedure_ca.Prelude.{
  ℕ, zero, suc, ◌+◌, ◌-◌, ◌<◌, ◌≡◌, refl, Bool, true, false, Option, none, some, List, [], ◌∷◌,
  ◌++◌, arith, ℤ, length, get_elem?, set, take, drop, leb, ltb, ◌==◌, if◌then◌else◌,
}
use remote_file_procedure_ca.Text.{Bytes, codes, strstr}
use remote_file_procedure_ca.Number.{sscanf_int}
use remote_file_procedure_ca.Result.{
  Result, ok, err, assertion, bad_memory, uninitialised, ◌>>=◌, ◌>>◌, require,
}

abbrev pub temp_buf_size : ℕ
temp_buf_size = 1024

abbrev pub colon : Bytes
colon = b':' ∷ []

abbrev pub line_split : Bytes
line_split = 13 ∷ 10 ∷ []

-- A `char *` to a heap block.
abbrev pub Block : Type 0
Block = Option Bytes

-- `memcpy(dest, block, n)` as far as the source goes.
unfoldable pub copy_block : Block → ℕ → Result Bytes
copy_block none n = if n == 0 then ok [] else err bad_memory
copy_block (some b) n = if leb n (length b) then ok (take n b) else err bad_memory

-- `sprintf(temp_buf, …)`: the text and its NUL must fit.
unfoldable pub temp_line : Bytes → Result Bytes
temp_line out = if ltb (length out) temp_buf_size then ok out else err bad_memory

-- `array[i] = v`
unfoldable pub store {ℓ} : {A : Type ℓ} → List A → ℕ → A → Result (List A)
store xs i v = if ltb i (length xs) then ok (set xs i v) else err bad_memory

-- One header line: the text between its colon and its end, and where the next line begins. A line
-- end that is not found is NULL, below every colon.
unfoldable pub header_line : Bytes → Result (Bytes × Bytes)
header_line buf = elim (strstr buf line_split) [
  | none ↦ err assertion
  | some line_end ↦ elim (strstr buf colon) [
    | none ↦ err bad_memory
    | some at_colon ↦ do
      require (ltb at_colon line_end) assertion
      let len = line_end - at_colon - 1
      require (ltb len temp_buf_size) bad_memory
      ok (take len (drop (at_colon + 1) buf), drop (line_end + 2) buf)
  ]
]

-- `sscanf` into a field of a block from `malloc`: where nothing is read, the field has no value.
abbrev pub scanned_field : Bytes → Result ℤ
scanned_field text = elim (sscanf_int text) [ none ↦ err uninitialised | some z ↦ ok z ]
