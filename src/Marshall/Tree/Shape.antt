-- ===== src/Marshall/Tree/Shape.antt =====
-- The trees that `getdirtree` builds, and their byte stream.
use remote_file_procedure_ca.Prelude.{
  ℕ, suc, ◌<◌, ◌≤◌, ◌^◌, ◌≡◌, refl, [], ◌∷◌, ◌++◌, pos, FitsInt, length, length-append, arith,
  lt→ltb,
}
use remote_file_procedure_ca.Text.{Bytes, c_string, IsLine}
use remote_file_procedure_ca.Result.{ok}
use remote_file_procedure_ca.Marshall.{colon, line_split, temp_line, temp_buf_size}
use remote_file_procedure_ca.Marshall.Header.{number_line, temp_line-header}
use remote_file_procedure_ca.Marshall.Tree.{
  DirTree, Subdirs, null, node, nil, cons, header_tree_name, header_tree_child_num, serialize_node,
  serialize_subdirs, serialize_dirtree,
}

-- The longest name that `serialize_node` can put in `temp_buf`, with its header and line end.
abbrev pub name_max : ℕ
name_max = 1012

abbrev pub count_subdirs : Subdirs → ℕ
count_subdirs nil = 0
count_subdirs (cons t ts) = suc (count_subdirs ts)

-- A block that holds a text of one line and its NUL.
abbrev pub IsNodeName : Bytes → Type 0
IsNodeName name =
    (name ≡ c_string name ++ 0 ∷ []) × IsLine (c_string name) × (length (c_string name) ≤ name_max)

-- No NULL pointers, counts that are the sizes of the arrays, and names that are lines.
abbrev mutual
  pub IsTree : DirTree → Type 0
  IsTree null = ⊥
  IsTree (node name num_subdirs subdirs) =
      IsNodeName name
      × (num_subdirs ≡ pos (count_subdirs subdirs))
      × (count_subdirs subdirs < 2 ^ 31)
      × AreTrees subdirs

  pub AreTrees : Subdirs → Type 0
  AreTrees nil = Unit
  AreTrees (cons t ts) = IsTree t × AreTrees ts

unfoldable pub text_line : Bytes → Bytes → Bytes
text_line name text = name ++ (colon ++ (text ++ line_split))

-- The stream of a tree: a line for the name, a line for the count, and the children in order.
unfoldable mutual
  pub tree_stream : DirTree → Bytes
  tree_stream null = []
  tree_stream (node name num_subdirs subdirs) =
      text_line header_tree_name (c_string name)
      ++ (number_line header_tree_child_num num_subdirs ++ subdirs_stream subdirs)

  pub subdirs_stream : Subdirs → Bytes
  subdirs_stream nil = []
  subdirs_stream (cons t ts) = tree_stream t ++ subdirs_stream ts

temp_line-name :
    (text : Bytes)
    → length text ≤ name_max
    → temp_line (header_tree_name ++ (colon ++ (text ++ line_split)))
      ≡ ok (text_line header_tree_name text)
unfolding temp_line text_line
temp_line-name text h = rw (
    lt→ltb (length (header_tree_name ++ (colon ++ (text ++ line_split)))) temp_buf_size
      (omega (arith, length-append text line_split)))

mutual
  unfolding serialize_node tree_stream

  serialize_node-eq : (t : DirTree) → IsTree t → serialize_node t ≡ ok (tree_stream t)
  serialize_node-eq null h = absurd h
  serialize_node-eq (node name num_subdirs subdirs) h =
      let fits : FitsInt num_subdirs = rw h.1 (omega arith) in
      rw (
        temp_line-name (c_string name) h.0.2,
        temp_line-header header_tree_child_num num_subdirs (omega arith) fits,
        h.1,
        serialize_subdirs-eq subdirs h.3,
      )

  serialize_subdirs-eq :
      (ts : Subdirs)
      → AreTrees ts
      → serialize_subdirs (count_subdirs ts) ts ≡ ok (subdirs_stream ts)
  serialize_subdirs-eq nil h = refl
  serialize_subdirs-eq (cons t ts) h = rw (serialize_node-eq t h.0, serialize_subdirs-eq ts h.1)

-- `serialize_dirtree` writes a tree without a fault, as its stream: two lines for a node, and the
-- streams of its children behind them. The tree has no NULL pointers, its counts are the sizes of
-- the arrays, and its names are lines of at most 1012 bytes.
pub serialize_dirtree-eq : (t : DirTree) → IsTree t → serialize_dirtree t ≡ ok (tree_stream t)
unfolding serialize_dirtree
serialize_dirtree-eq t h = serialize_node-eq t h
