-- ===== src/Socket/Message/Memory.antt =====
-- The receive buffer as the bytes that are in use, and NULs behind them.
use remote_file_procedure_ca.Prelude.{
  ℕ, zero, suc, ◌+◌, ◌-◌, ◌≡◌, refl, ap, [], ◌∷◌, ◌++◌, append_assoc, arith, length, length-append,
  drop, drop-append, replicate,
}
use remote_file_procedure_ca.Text.{Bytes}
use remote_file_procedure_ca.Socket.{Storage, read_bytes}
use remote_file_procedure_ca.Socket.Message.{prune}

abbrev pub zeros : ℕ → Bytes
zeros n = replicate n 0

-- The buffer holds this text.
abbrev pub Holds : Storage → Bytes → Type 0
Holds s text = (k : ℕ) × (s.buf ≡ text ++ zeros k) × (s.size ≡ length text)

pub read_bytes-append : (xs ys : Bytes) → read_bytes (length xs) (xs ++ ys) ≡ xs
read_bytes-append [] ys = refl
read_bytes-append (x ∷ xs) ys = ap (λ l. x ∷ l) (read_bytes-append xs ys)

replicate-append : (j k : ℕ) → zeros j ++ zeros k ≡ zeros (j + k)
replicate-append zero k = let e : 0 + k ≡ k = omega arith in rw e
replicate-append (suc j) k =
    let e : suc j + k ≡ suc (j + k) = omega arith in rw e (ap (λ l. 0 ∷ l) (replicate-append j k))

-- Pruning leaves what stands behind the message.
pub prune-Holds :
    (s : Storage) (front rest : Bytes)
    → Holds s (front ++ rest)
    → Holds (prune s (length front)) rest
unfolding prune
prune-Holds s front rest (k, buf_eq, size_eq) =
    let new_size : s.size - length front ≡ length rest = omega (arith, length-append front rest) in
    let moved : drop (length front) ((front ++ rest) ++ zeros k) ≡ rest ++ zeros k =
      rw append_assoc (drop-append front (rest ++ zeros k)) in
    let cleared : drop s.size s.buf ≡ zeros k =
      rw (size_eq, buf_eq) (drop-append (front ++ rest) (zeros k)) in
    (
      s.size - length rest + k,
      rw (cleared, buf_eq, moved, new_size, read_bytes-append rest (zeros k))
          (ap (λ l. rest ++ l) (replicate-append (s.size - length rest) k)),
      new_size,
    )
