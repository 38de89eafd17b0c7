-- ===== src/Marshall/Tree.antt =====
-- `struct dirtreenode` of include/dirtree.h, and the functions of rpc/marshall.c that write a tree
-- to a buffer and build it again from there.
pub mod Shape
pub mod RoundTrip
pub mod Total
use remote_file_procedure_ca.Prelude.{
  ℕ, zero, suc, ◌+◌, Option, none, some, List, [], ◌∷◌, ◌++◌, ℤ, pos, rounds, length,
}
use remote_file_procedure_ca.Text.{Bytes, codes, c_string}
use remote_file_procedure_ca.Number.{print_int, sscanf_int}
use remote_file_procedure_ca.Result.{Result, ok, err, bad_memory, out_of_fuel, ◌>>=◌}
use remote_file_procedure_ca.Marshall.{colon, line_split, temp_line, header_line}

abbrev pub header_tree_name : Bytes
header_tree_name = codes "NodeName"

abbrev pub header_tree_child_num : Bytes
header_tree_child_num = codes "ChildNum"

-- A pointer to a node, and an array of such pointers. `node name num_subdirs subdirs` has the
-- fields of the struct, with the block of the name; `null` is the NULL pointer.
mutual
  pub data DirTree : Type 0 where
    null : DirTree
    node : Bytes → ℤ → Subdirs → DirTree

  pub data Subdirs : Type 0 where
    nil : Subdirs
    cons : DirTree → Subdirs → Subdirs

-- What `serialize_node` writes from `buf` on. The loop over the children counts to `num_subdirs`,
-- and leaves the array where that is too large.
unfoldable mutual
  unfolding temp_line

  pub serialize_node : DirTree → Result Bytes
  serialize_node null = ok []
  serialize_node (node name num_subdirs subdirs) = do
    first ← temp_line (header_tree_name ++ (colon ++ (c_string name ++ line_split)))
    second ← temp_line (header_tree_child_num ++ (colon ++ (print_int num_subdirs ++ line_split)))
    children ← serialize_subdirs (rounds num_subdirs) subdirs
    ok (first ++ (second ++ children))

  pub serialize_subdirs : ℕ → Subdirs → Result Bytes
  serialize_subdirs zero subdirs = ok []
  serialize_subdirs (suc n) nil = err bad_memory
  serialize_subdirs (suc n) (cons child subdirs) = do
    first ← serialize_node child
    others ← serialize_subdirs n subdirs
    ok (first ++ others)

-- The number of bytes between the two positions is the length of what is written.
unfoldable pub serialize_dirtree : DirTree → Result Bytes
unfolding serialize_node
serialize_dirtree root = serialize_node root

-- `calloc` has left 0 in a count that `sscanf` does not set.
abbrev pub scanned_count : Bytes → ℤ
scanned_count text = elim (sscanf_int text) [ none ↦ pos 0 | some z ↦ z ]

-- The loop that reads `n` children with `read`; with the children comes where the input goes on.
unfoldable pub deserialize_subdirs :
    (Bytes → Result (DirTree × Bytes)) → ℕ → Bytes → Result (Subdirs × Bytes)
deserialize_subdirs read zero buf = ok (nil, buf)
deserialize_subdirs read (suc n) buf = do
  (child, next) ← read buf
  (others, end) ← deserialize_subdirs read n next
  ok (cons child others, end)

-- The fuel bounds the depth of the recursion.
unfoldable pub deserialize_node : ℕ → Bytes → Result (DirTree × Bytes)
unfolding header_line deserialize_subdirs
deserialize_node zero buf = err out_of_fuel
deserialize_node (suc f) buf = do
  (name, second) ← header_line buf
  (count, third) ← header_line second
  let num_subdirs = scanned_count count
  (subdirs, end) ← deserialize_subdirs (deserialize_node f) (rounds num_subdirs) third
  ok (node (name ++ 0 ∷ []) num_subdirs subdirs, end)

unfoldable pub deserialize_dirtree : Bytes → Result DirTree
unfolding deserialize_node
deserialize_dirtree buf = do (root, end) ← deserialize_node (length buf + 1) buf; ok root
