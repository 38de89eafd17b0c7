-- ===== src/Tests/Sample.antt =====
-- The TCP samples with a small network.
use remote_file_procedure_ca.Prelude.{
  ℕ, zero, suc, ◌+◌, ◌≡◌, ◌≤◌, refl, none, [], pos, replicate, length, ltb, if◌then◌else◌,
  Bool-cases, inl, inr, ap, arith,
}
use remote_file_procedure_ca.Text.{Bytes}
use remote_file_procedure_ca.Network.{Network}
use remote_file_procedure_ca.TcpSample.{Streams, server_main}
use remote_file_procedure_ca.TcpSample.Bounds.{StreamLaws, IsSafe}
use remote_file_procedure_ca.TcpSample.Bounds.Server.{server_main-IsSafe}

-- The kernel counts the calls of `recv`. Each of the first three brings as many bytes as it is asked for,
-- and the others none.
abbrev network : Network ℕ
network = record {
  getenv = λ name. none;
  inet_addr = λ address. 0;
  socket = λ domain type protocol k. (pos 3, k);
  set_reusable = λ fd k. (pos 0, k);
  bind = λ fd addr k. (pos 0, k);
  listen = λ fd log k. (pos 0, k);
  connect = λ fd addr k. (pos 0, k);
  accept = λ fd k. (pos 4, k);
  get_flags = λ fd k. (pos 0, k);
  set_flags = λ fd flags k. (pos 0, k);
  close = λ fd k. (pos 0, k);
  fork = λ k. (pos 1, k);
  waitpid = λ k. (pos 0, k);
}

abbrev fill : ℕ → Bytes
fill n = replicate n b'x'

abbrev bring : ℕ → ℕ → Bytes
bring n k = if ltb k 3 then fill n else []

abbrev streams : Streams ℕ
streams = record {
  recv = λ fd n k. (pos (length (bring n k)), bring n k, k + 1);
  send = λ fd bytes k. (pos (length bytes), k);
  stdout = λ bytes k. k;
  stderr = λ bytes k. k;
}

length-fill : (n : ℕ) → length (fill n) ≡ n
length-fill zero = refl
length-fill (suc n) = ap suc (length-fill n)

length-bring : (n k : ℕ) → length (bring n k) ≤ n
length-bring n k = elim (Bool-cases (ltb k 3)) [
  | inl early ↦ rw early (omega (arith, length-fill n))
  | inr late ↦ rw late (omega arith)
]

abbrev laws : StreamLaws streams
laws = record { recv_law = λ k fd n. (refl, length-bring n k) }

abbrev stack : Bytes
stack = replicate 101 b'?'

server_main-IsSafe_example : IsSafe (λ status. status ≡ 0) (server_main network streams 3 stack 0)
server_main-IsSafe_example = server_main-IsSafe network streams laws 3 stack 0 refl
