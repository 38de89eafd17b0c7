-- ===== src/Memory/Tree/Lifecycle.antt =====
-- A directory tree that a client has been sent, from `deserialize_dirtree` to `freedirtree`.
use remote_file_procedure_ca.Prelude.{
  ℕ, zero, suc, ◌+◌, ◌≡◌, refl, ap, List, [], ◌∷◌, ◌++◌, arith, pos, negsuc, rounds, length,
}
use remote_file_procedure_ca.Text.{Bytes}
use remote_file_procedure_ca.Result.{Result, ok, Returns, Returns-bind, Returns-then}
use remote_file_procedure_ca.Marshall.{header_line}
use remote_file_procedure_ca.Marshall.Tree.{
  DirTree, Subdirs, null, node, nil, cons, deserialize_dirtree, deserialize_node,
  deserialize_subdirs, scanned_count,
}
use remote_file_procedure_ca.Marshall.Tree.Shape.{count_subdirs}
use remote_file_procedure_ca.Memory.{Heap, malloc, calloc, count}
use remote_file_procedure_ca.Memory.Balance.{Balance, count-append, free-Balance}
use remote_file_procedure_ca.Memory.Tree.{
  NodeBlocks, ChildBlocks, no_node, node_at, no_child, child_at, node_blocks, child_blocks,
  free_dirtreenode, free_subdirs, freedirtree,
}

-- In every node the count is the length of the array.
abbrev mutual
  IsCounted : DirTree → Type 0
  IsCounted null = Unit
  IsCounted (node name num_subdirs subdirs) =
      (rounds num_subdirs ≡ count_subdirs subdirs) × AreCounted subdirs

  AreCounted : Subdirs → Type 0
  AreCounted nil = Unit
  AreCounted (cons t ts) = IsCounted t × AreCounted ts

-- The addresses of a tree.
abbrev mutual
  addresses : NodeBlocks → List ℕ
  addresses no_node = []
  addresses (node_at block name_block array num_subdirs subdirs) =
      name_block ∷ (all_addresses subdirs ++ (array ∷ block ∷ []))

  all_addresses : ChildBlocks → List ℕ
  all_addresses no_child = []
  all_addresses (child_at t ts) = addresses t ++ all_addresses ts

mutual
  unfolding node_blocks

  node_blocks-live :
      (t : DirTree) (q : ℕ) (h : Heap)
      → count (suc q) (node_blocks t h).1.live
        ≡ count (suc q) (addresses (node_blocks t h).0) + count (suc q) h.live
  node_blocks-live null q h = omega arith
  node_blocks-live (node name (pos n) subdirs) q h =
      let h3 = (malloc (malloc (malloc h).1).1).1 in
      ground (
        arith,
        child_blocks-live subdirs q h3,
        count-append (suc q) (all_addresses (child_blocks subdirs h3).0)
            (suc (suc (suc h.next)) ∷ suc h.next ∷ []),
      )
  node_blocks-live (node name (negsuc n) subdirs) q h =
      let h3 = (malloc (malloc h).1).1 in
      ground (
        arith,
        child_blocks-live subdirs q h3,
        count-append (suc q) (all_addresses (child_blocks subdirs h3).0) (0 ∷ suc h.next ∷ []),
      )

  child_blocks-live :
      (ts : Subdirs) (q : ℕ) (h : Heap)
      → count (suc q) (child_blocks ts h).1.live
        ≡ count (suc q) (all_addresses (child_blocks ts h).0) + count (suc q) h.live
  child_blocks-live nil q h = omega arith
  child_blocks-live (cons t ts) q h =
      let r = node_blocks t h in
      let s = child_blocks ts r.1 in
      omega (
        arith,
        node_blocks-live t q h,
        child_blocks-live ts q r.1,
        count-append (suc q) (addresses r.0) (all_addresses s.0),
      )

append_assoc-Balance :
    (xs ys zs : List ℕ) (base h : Heap)
    → Balance ((xs ++ ys) ++ zs) base h
    → Balance (xs ++ (ys ++ zs)) base h
append_assoc-Balance xs ys zs base h b q = omega (
  arith,
  b q,
  count-append (suc q) (xs ++ ys) zs,
  count-append (suc q) xs ys,
  count-append (suc q) xs (ys ++ zs),
  count-append (suc q) ys zs,
)

mutual
  unfolding node_blocks free_dirtreenode

  free_dirtreenode-Balance :
      (t : DirTree) (h0 : Heap) (ps : List ℕ) (base h : Heap)
      → IsCounted t
      → Balance (addresses (node_blocks t h0).0 ++ ps) base h
      → (h' : Heap) × (free_dirtreenode (node_blocks t h0).0 h ≡ ok h') × Balance ps base h'
  free_dirtreenode-Balance null h0 ps base h counted b = (h, refl, b)
  free_dirtreenode-Balance (node name num_subdirs subdirs) h0 ps base h (length_eq, counted) b =
      let (block, k1) = malloc h0 in
      let (name_block, k2) = malloc k1 in
      let (array, k3) = calloc num_subdirs k2 in
      let kids = all_addresses (child_blocks subdirs k3).0 in
      let (h1, freed1, b1) =
        free-Balance name_block ((kids ++ (array ∷ block ∷ [])) ++ ps) base h b in
      let (h2, freed2, b2) =
        free_subdirs-Balance subdirs k3 (array ∷ block ∷ ps) base h1 counted
          (append_assoc-Balance kids (array ∷ block ∷ []) ps base h1 b1) in
      let (h3, freed3, b3) = free-Balance array (block ∷ ps) base h2 b2 in
      let (h4, freed4, b4) = free-Balance block ps base h3 b3 in
      (h4, rw (freed1, length_eq, freed2, freed3) freed4, b4)

  free_subdirs-Balance :
      (ts : Subdirs) (h0 : Heap) (ps : List ℕ) (base h : Heap)
      → AreCounted ts
      → Balance (all_addresses (child_blocks ts h0).0 ++ ps) base h
      → (h' : Heap) × (free_subdirs (count_subdirs ts) (child_blocks ts h0).0 h ≡ ok h')
        × Balance ps base h'
  free_subdirs-Balance nil h0 ps base h counted b = (h, refl, b)
  free_subdirs-Balance (cons t ts) h0 ps base h (first, counted) b =
      let r = node_blocks t h0 in
      let s = child_blocks ts r.1 in
      let (h1, freed1, b1) =
        free_dirtreenode-Balance t h0 (all_addresses s.0 ++ ps) base h first
          (append_assoc-Balance (addresses r.0) (all_addresses s.0) ps base h b) in
      let (h2, freed2, b2) = free_subdirs-Balance ts r.1 ps base h1 counted b1 in
      (h2, rw freed1 freed2, b2)

deserialize_subdirs-AreCounted :
    (read : Bytes → Result (DirTree × Bytes)) (n : ℕ) (buf : Bytes)
    → ((input : Bytes) → Returns (λ r. IsCounted r.0) (read input))
    → Returns (λ r. (n ≡ count_subdirs r.0) × AreCounted r.0) (deserialize_subdirs read n buf)
unfolding deserialize_subdirs
deserialize_subdirs-AreCounted read zero buf h = (refl, tt)
deserialize_subdirs-AreCounted read (suc n) buf h =
    Returns-bind (λ r. IsCounted r.0) (λ r. (suc n ≡ count_subdirs r.0) × AreCounted r.0) (read buf)
      _ (h buf)
      (λ (child, next) first.
        Returns-bind (λ r. (n ≡ count_subdirs r.0) × AreCounted r.0)
          (λ r. (suc n ≡ count_subdirs r.0) × AreCounted r.0) (deserialize_subdirs read n next) _
          (deserialize_subdirs-AreCounted read n next h)
          (λ (others, end) (same, counted). (ap suc same, (first, counted))))

deserialize_node-IsCounted :
    (f : ℕ) (buf : Bytes) → Returns (λ r. IsCounted r.0) (deserialize_node f buf)
unfolding deserialize_node
deserialize_node-IsCounted zero buf = tt
deserialize_node-IsCounted (suc f) buf =
    Returns-then (λ r. IsCounted r.0) (header_line buf) _
      (λ (name, second).
        Returns-then (λ r. IsCounted r.0) (header_line second) _
          (λ (text, third).
            let n = rounds (scanned_count text) in
            Returns-bind (λ r. (n ≡ count_subdirs r.0) × AreCounted r.0) (λ r. IsCounted r.0)
              (deserialize_subdirs (deserialize_node f) n third) _
              (deserialize_subdirs-AreCounted (deserialize_node f) n third
                (deserialize_node-IsCounted f))
              (λ (subdirs, end) counted. counted)))

deserialize_dirtree-IsCounted : (buf : Bytes) → Returns IsCounted (deserialize_dirtree buf)
unfolding deserialize_dirtree
deserialize_dirtree-IsCounted buf =
    Returns-bind (λ r. IsCounted r.0) IsCounted (deserialize_node (length buf + 1) buf) _
      (deserialize_node-IsCounted (length buf + 1) buf) (λ r counted. counted)

-- A directory tree that `deserialize_dirtree` has built, whatever the input, is freed by
-- `freedirtree` without a fault: no block is freed twice, and then in use are the blocks from before,
-- and no others.
pub deserialize_dirtree-free :
    (buf : Bytes) (t : DirTree) (h : Heap)
    → deserialize_dirtree buf ≡ ok t
    → (h' : Heap) × (freedirtree (node_blocks t h).0 (node_blocks t h).1 ≡ ok h') × Balance [] h h'
deserialize_dirtree-free buf t h built =
    let counted : IsCounted t = rw built at (deserialize_dirtree-IsCounted buf) in
    let blocks = (node_blocks t h).0 in
    free_dirtreenode-Balance t h [] h (node_blocks t h).1 counted
      (λ q. omega (arith, node_blocks-live t q h, count-append (suc q) (addresses blocks) []))
