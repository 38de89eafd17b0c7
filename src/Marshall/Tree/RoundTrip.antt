-- ===== src/Marshall/Tree/RoundTrip.antt =====
-- `deserialize_node` of rpc/marshall.c on the stream of a tree.
use remote_file_procedure_ca.Prelude.{
  ℕ, zero, suc, ◌+◌, ◌<◌, ◌≤◌, ◌≡◌, refl, ap, sym, ◌++◌, append_assoc, ℤ, rounds, FitsInt, length,
  length-append, arith,
}
use remote_file_procedure_ca.Text.{Bytes, c_string, IsLine}
use remote_file_procedure_ca.Number.{print_int}
use remote_file_procedure_ca.Number.RoundTrip.{sscanf_int-print}
use remote_file_procedure_ca.Result.{ok}
use remote_file_procedure_ca.Marshall.{line_split, header_line}
use remote_file_procedure_ca.Marshall.Header.{number_line, header_line-text, header_line-print}
use remote_file_procedure_ca.Marshall.Tree.{
  DirTree, Subdirs, null, node, nil, cons, header_tree_name, header_tree_child_num, scanned_count,
  deserialize_subdirs, deserialize_node, serialize_dirtree, deserialize_dirtree,
}
use remote_file_procedure_ca.Marshall.Tree.Shape.{
  IsTree, AreTrees, count_subdirs, text_line, tree_stream, subdirs_stream, serialize_dirtree-eq,
}

scanned_count-print : (z : ℤ) → FitsInt z → scanned_count (print_int z) ≡ z
scanned_count-print z h = rw (sscanf_int-print z h, scanned_count)

header_line-name :
    (text rest : Bytes)
    → IsLine text
    → length text ≤ 1012
    → header_line (text_line header_tree_name text ++ rest) ≡ ok (text, rest)
unfolding text_line
header_line-name text rest line short =
    header_line-text header_tree_name text rest (omega arith) line (omega arith)

length-node_stream :
    (name : Bytes) (num_subdirs : ℤ) (subdirs : Subdirs)
    → length (subdirs_stream subdirs) < length (tree_stream (node name num_subdirs subdirs))
unfolding tree_stream text_line
length-node_stream name num_subdirs subdirs =
    let second = number_line header_tree_child_num num_subdirs in
    omega (
      arith,
      length-append (c_string name ++ line_split) (second ++ subdirs_stream subdirs),
      length-append second (subdirs_stream subdirs),
    )

-- One node, given that its children are read.
node_step :
    (name : Bytes) (num_subdirs : ℤ) (subdirs : Subdirs) (f : ℕ) (rest : Bytes)
    → IsTree (node name num_subdirs subdirs)
    → deserialize_subdirs
        (deserialize_node f)
        (count_subdirs subdirs)
        (subdirs_stream subdirs ++ rest)
      ≡ ok (subdirs, rest)
    → deserialize_node (suc f) (tree_stream (node name num_subdirs subdirs) ++ rest)
      ≡ ok (node name num_subdirs subdirs, rest)
unfolding tree_stream deserialize_node
node_step name num_subdirs subdirs f rest (is_name, is_count, few, _) children =
    let first = text_line header_tree_name (c_string name) in
    let second = number_line header_tree_child_num num_subdirs in
    let end = subdirs_stream subdirs ++ rest in
    let fits : FitsInt num_subdirs = rw is_count (omega arith) in
    let regroup : (first ++ (second ++ subdirs_stream subdirs)) ++ rest ≡ first ++ (second ++ end) =
      simp append_assoc in
    rw
      (
        regroup,
        deserialize_node,
        header_line-name (c_string name) (second ++ end) is_name.1 is_name.2,
        header_line-print header_tree_child_num num_subdirs end (omega arith) fits,
        scanned_count-print num_subdirs fits,
        ap rounds is_count,
        children,
      )
      (ap (λ block. ok (node block num_subdirs subdirs, rest)) (sym is_name.0))

mutual
  unfolding tree_stream deserialize_subdirs

  deserialize_node-stream :
      (t : DirTree) (f : ℕ) (rest : Bytes)
      → IsTree t
      → length (tree_stream t) < f
      → deserialize_node f (tree_stream t ++ rest) ≡ ok (t, rest)
  deserialize_node-stream null f rest h lt = absurd h
  deserialize_node-stream (node name num_subdirs subdirs) zero rest h lt = elim lt [ ]
  deserialize_node-stream (node name num_subdirs subdirs) (suc f) rest h lt =
      node_step name num_subdirs subdirs f rest h (
        deserialize_subdirs-stream subdirs f rest h.3
          (omega (arith, length-node_stream name num_subdirs subdirs)))

  deserialize_subdirs-stream :
      (ts : Subdirs) (f : ℕ) (rest : Bytes)
      → AreTrees ts
      → length (subdirs_stream ts) < f
      → deserialize_subdirs (deserialize_node f) (count_subdirs ts) (subdirs_stream ts ++ rest)
        ≡ ok (ts, rest)
  deserialize_subdirs-stream nil f rest h lt = refl
  deserialize_subdirs-stream (cons t ts) f rest h lt =
      let regroup : (tree_stream t ++ subdirs_stream ts) ++ rest
          ≡ tree_stream t ++ (subdirs_stream ts ++ rest) =
        simp append_assoc in
      let bound = length-append (tree_stream t) (subdirs_stream ts) in
      rw (
        regroup,
        deserialize_subdirs,
        deserialize_node-stream t f (subdirs_stream ts ++ rest) h.0 (omega arith),
        deserialize_subdirs-stream ts f rest h.1 (omega arith),
      )

-- What `serialize_dirtree` writes for a tree, `deserialize_dirtree` reads as the same tree, whatever
-- follows in the buffer. The tree has no NULL pointers, its counts are the sizes of the arrays, and
-- its names are lines of at most 1012 bytes.
pub deserialize-serialize_dirtree :
    (t : DirTree) (out rest : Bytes)
    → IsTree t
    → serialize_dirtree t ≡ ok out
    → deserialize_dirtree (out ++ rest) ≡ ok t
unfolding deserialize_dirtree
deserialize-serialize_dirtree t out rest h e =
    let out_eq : out ≡ tree_stream t = cc (e, serialize_dirtree-eq t h) in
    rw (
      out_eq,
      deserialize_dirtree,
      deserialize_node-stream t (length (tree_stream t ++ rest) + 1) rest h
          (omega (arith, length-append (tree_stream t) rest)),
    )
