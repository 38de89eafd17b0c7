-- ===== src/Memory/Tree.antt =====
-- The blocks of a directory tree: what `deserialize_node` of rpc/marshall.c allocates, and
-- `free_dirtreenode`, which is `freedirtree` of rpc/mylib.c.
pub mod Lifecycle
use remote_file_procedure_ca.Prelude.{ℕ, zero, suc, List, [], ◌∷◌, ℤ, rounds}
use remote_file_procedure_ca.Result.{Result, ok, err, bad_memory, ◌>>=◌}
use remote_file_procedure_ca.Marshall.Tree.{DirTree, Subdirs, null, node, nil, cons}
use remote_file_procedure_ca.Memory.{Heap, malloc, calloc, free}

-- The addresses of a node, of its name and of its array of children, with the count of the node and
-- the children.
mutual
  pub data NodeBlocks : Type 0 where
    no_node : NodeBlocks
    node_at : ℕ → ℕ → ℕ → ℤ → ChildBlocks → NodeBlocks

  pub data ChildBlocks : Type 0 where
    no_child : ChildBlocks
    child_at : NodeBlocks → ChildBlocks → ChildBlocks

-- The allocations of `deserialize_node` where it builds this tree.
unfoldable mutual
  pub node_blocks : DirTree → Heap → NodeBlocks × Heap
  node_blocks null h = (no_node, h)
  node_blocks (node name num_subdirs subdirs) h =
      let (block, h1) = malloc h in
      let (name_block, h2) = malloc h1 in
      let (array, h3) = calloc num_subdirs h2 in
      let r = child_blocks subdirs h3 in (node_at block name_block array num_subdirs r.0, r.1)

  pub child_blocks : Subdirs → Heap → ChildBlocks × Heap
  child_blocks nil h = (no_child, h)
  child_blocks (cons child subdirs) h =
      let r = node_blocks child h in let s = child_blocks subdirs r.1 in (child_at r.0 s.0, s.1)

-- Of NULL nothing is freed. The loop over the children counts to `num_subdirs`.
unfoldable mutual
  unfolding free

  pub free_dirtreenode : NodeBlocks → Heap → Result Heap
  free_dirtreenode no_node h = ok h
  free_dirtreenode (node_at block name_block array num_subdirs subdirs) h = do
    h1 ← free name_block h
    h2 ← free_subdirs (rounds num_subdirs) subdirs h1
    h3 ← free array h2
    free block h3

  pub free_subdirs : ℕ → ChildBlocks → Heap → Result Heap
  free_subdirs zero subdirs h = ok h
  free_subdirs (suc n) no_child h = err bad_memory
  free_subdirs (suc n) (child_at child subdirs) h = do
    h1 ← free_dirtreenode child h
    free_subdirs n subdirs h1

-- Of rpc/mylib.c.
abbrev pub freedirtree : NodeBlocks → Heap → Result Heap
freedirtree = free_dirtreenode
