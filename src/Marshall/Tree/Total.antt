-- ===== src/Marshall/Tree/Total.antt =====
-- The recursion of `deserialize_node` of rpc/marshall.c, by the bytes that each node takes.
use remote_file_procedure_ca.Prelude.{
  ℕ, zero, suc, ◌+◌, ◌-◌, ◌<◌, ◌≢◌, [], ◌∷◌, Bool, true, false, rounds, length, length-drop, arith,
  Option-cases, inl, inr, ltb,
}
use remote_file_procedure_ca.Text.{Bytes, strstr}
use remote_file_procedure_ca.Text.Search.{strstr-lt}
use remote_file_procedure_ca.Result.{
  Result, Fault, ok, err, bad_memory, assertion, out_of_fuel, ◌>>=◌, ◌>>◌, require,
}
use remote_file_procedure_ca.Marshall.{temp_buf_size, colon, line_split, header_line}
use remote_file_procedure_ca.Marshall.Tree.{
  DirTree, deserialize_subdirs, deserialize_node, deserialize_dirtree, scanned_count,
}

-- A reader ends, and leaves less than `m` bytes of its input.
abbrev Leaves : {A : Type 0} → ℕ → Result (A × Bytes) → Type 0
Leaves m (ok (a, rest)) = length rest < m
Leaves m (err e) = e ≢ out_of_fuel

Leaves-bind :
    {A B : Type 0} (k j : ℕ) (m : Result (A × Bytes)) (f : A × Bytes → Result (B × Bytes))
    → Leaves k m
    → ((a : A) (rest : Bytes) → length rest < k → Leaves j (f (a, rest)))
    → Leaves j (m >>= f)
Leaves-bind k j (ok (a, rest)) f h step = step a rest h
Leaves-bind k j (err e) f h step = h

Leaves-require :
    {A : Type 0} (j : ℕ) (b : Bool) (e : Fault) (m : Result (A × Bytes))
    → e ≢ out_of_fuel
    → Leaves j m
    → Leaves j (require b e >> m)
Leaves-require j true e m h hm = hm
Leaves-require j false e m h hm = h

-- A header line takes at least a byte.
header_line-Leaves : (buf : Bytes) → Leaves (length buf) (header_line buf)
unfolding header_line
header_line-Leaves buf = elim (Option-cases (strstr buf line_split)) [
  | inl missing ↦ rw (missing, header_line) (cc)
  | inr (line_end, found) ↦ elim (Option-cases (strstr buf colon)) [
    | inl missing ↦ rw (found, missing, header_line) (cc)
    | inr (at_colon, found_colon) ↦
        rw (found, found_colon, header_line)
          (Leaves-require (length buf) (ltb at_colon line_end) assertion _ (cc) (
            Leaves-require (length buf) (ltb (line_end - at_colon - 1) temp_buf_size) bad_memory _
              (cc)
              (omega (
                arith,
                length-drop (line_end + 2) buf,
                strstr-lt buf 13 (10 ∷ []) line_end found,
              ))))
  ]
]

module _ (read : Bytes → Result (DirTree × Bytes)) (n : ℕ)
    (ends : (buf : Bytes) → length buf < n → Leaves (length buf) (read buf)) where
  subdirs-Leaves :
      (k : ℕ) (buf : Bytes)
      → length buf < n
      → Leaves (suc (length buf)) (deserialize_subdirs read k buf)
  unfolding deserialize_subdirs
  subdirs-Leaves zero buf h = omega arith
  subdirs-Leaves (suc k) buf h =
      Leaves-bind (length buf) (suc (length buf)) (read buf) _ (ends buf h) λ child next le_next.
        Leaves-bind (suc (length next)) (suc (length buf)) (deserialize_subdirs read k next) _
          (subdirs-Leaves k next (omega arith)) (λ others end le_end. omega arith)

deserialize_node-Leaves :
    (f : ℕ) (buf : Bytes) → length buf < f → Leaves (length buf) (deserialize_node f buf)
unfolding deserialize_node
deserialize_node-Leaves zero buf h = elim h [ ]
deserialize_node-Leaves (suc f) buf h =
    Leaves-bind (length buf) (length buf) (header_line buf) _ (header_line-Leaves buf)
      λ name second le_second.
        Leaves-bind (length second) (length buf) (header_line second) _ (header_line-Leaves second)
          λ count third le_third.
            let n = rounds (scanned_count count) in
            Leaves-bind (suc (length third)) (length buf)
              (deserialize_subdirs (deserialize_node f) n third) _
              (subdirs-Leaves (deserialize_node f) f (deserialize_node-Leaves f) n third
                (omega arith))
              (λ subdirs end le_end. omega arith)

bind-ne-out_of_fuel :
    (m : Result (DirTree × Bytes)) (k : ℕ) → Leaves k m → (m >>= λ r. ok r.0) ≢ err out_of_fuel
bind-ne-out_of_fuel (ok r) k h = cc
bind-ne-out_of_fuel (err e) k h = λ p. h (cc)

-- Whatever the bytes, the recursion of `deserialize_dirtree` ends within its fuel, the length of the
-- buffer and one: the result is a tree or one of the program's own faults.
pub deserialize_dirtree-ne-out_of_fuel : (buf : Bytes) → deserialize_dirtree buf ≢ err out_of_fuel
unfolding deserialize_dirtree
deserialize_dirtree-ne-out_of_fuel buf =
    bind-ne-out_of_fuel (deserialize_node (length buf + 1) buf) (length buf)
      (deserialize_node-Leaves (length buf + 1) buf (omega arith))
