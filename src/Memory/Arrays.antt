-- ===== src/Memory/Arrays.antt =====
-- The blocks of an `rpc_request` and of an `rpc_response` of rpc/marshall.c: what `init_`, `pack_`,
-- `marshall_` and `deserialize_` functions allocate, and `free_request` and `free_response`.
--
-- Both structures have the same blocks, and the functions on them are the same code twice.
pub mod Lifecycle
use remote_file_procedure_ca.Prelude.{ℕ, zero, suc, List, [], ◌∷◌, ℤ, pos, rounds, ltb_ℤ, replicate}
use remote_file_procedure_ca.Result.{Result, ok, err, bad_memory, assertion, ◌>>=◌, ◌>>◌, require}
use remote_file_procedure_ca.Marshall.{store}
use remote_file_procedure_ca.Memory.{Heap, malloc, calloc, free}

-- The addresses of the struct, of its array of sizes, of its array of pointers, and those pointers,
-- with the struct's count of them.
pub record Arrays : Type 0 where
  pub struct_block : ℕ
  pub sizes_block : ℕ
  pub vals_block : ℕ
  pub num : ℤ
  pub vals : List ℕ

-- The allocations of `init_request` and of `init_response`.
unfoldable pub init_blocks : ℤ → Heap → Arrays × Heap
init_blocks num h =
    let (struct_block, h1) = malloc h in
    let (sizes_block, h2) = calloc num h1 in
    let (vals_block, h3) = calloc num h2 in
    (
      record {
        struct_block = struct_block;
        sizes_block = sizes_block;
        vals_block = vals_block;
        num = num;
        vals = replicate (rounds num) 0;
      },
      h3,
    )

-- The allocation of `pack_integral`, `pack_pointer`, `marshall_integral` and `marshall_pointer`.
unfoldable pub pack_block : Arrays → ℕ → Heap → Result (Arrays × Heap)
unfolding store
pack_block arrays offset h = do
  require (ltb_ℤ (pos offset) arrays.num) assertion
  let (block, h') = malloc h
  vals ← store arrays.vals offset block
  ok (record arrays { vals = vals }, h')

-- Those of the loop of `deserialize_request` and of `deserialize_response`.
abbrev pub field_blocks : ℕ → Heap → List ℕ × Heap
field_blocks zero h = ([], h)
field_blocks (suc n) h =
    let (block, h1) = malloc h in let (blocks, h2) = field_blocks n h1 in (block ∷ blocks, h2)

-- The allocations of these two functions, where the input has the count `num`.
unfoldable pub deserialize_blocks : ℤ → Heap → Arrays × Heap
deserialize_blocks num h =
    let (struct_block, h1) = malloc h in
    let (sizes_block, h2) = calloc num h1 in
    let (vals_block, h3) = calloc num h2 in
    let (vals, h4) = field_blocks (rounds num) h3 in
    (
      record {
        struct_block = struct_block;
        sizes_block = sizes_block;
        vals_block = vals_block;
        num = num;
        vals = vals;
      },
      h4,
    )

-- `for (int i = 0; i < n; i++) free(vals[i])`
unfoldable pub free_vals : ℕ → List ℕ → Heap → Result Heap
unfolding free
free_vals zero vals h = ok h
free_vals (suc n) [] h = err bad_memory
free_vals (suc n) (block ∷ vals) h = do h ← free block h; free_vals n vals h

unfoldable pub free_request : Arrays → Heap → Result Heap
unfolding free free_vals
free_request request h = do
  h1 ← free_vals (rounds request.num) request.vals h
  h2 ← free request.vals_block h1
  h3 ← free request.sizes_block h2
  free request.struct_block h3

unfoldable pub free_response : Arrays → Heap → Result Heap
unfolding free free_vals
free_response response h = do
  h1 ← free_vals (rounds response.num) response.vals h
  h2 ← free response.vals_block h1
  h3 ← free response.sizes_block h2
  free response.struct_block h3
