-- ===== src/Server/Answer.antt =====
-- Answers of the handlers of rpc/server.c: what is sent, and the buffers that the calls fill.
use remote_file_procedure_ca.Prelude.{
  ℕ, zero, suc, ◌+◌, ◌%◌, ◌^◌, ◌<◌, ◌≤◌, ◌≡◌, refl, ap, List, [], ◌∷◌, arith, ℤ, pos, negsuc, ◌+ℤ◌,
  ◌-ℤ◌, to_int, to_int-FitsInt, eqb_ℤ, FitsInt, FitsLong, length, take, Bool-cases, inl, inr,
}
use remote_file_procedure_ca.Text.{Bytes}
use remote_file_procedure_ca.Result.{Result}
use remote_file_procedure_ca.Marshall.Response.RoundTrip.{response_of}
use remote_file_procedure_ca.Socket.{read_bytes}
use remote_file_procedure_ca.Server.{fd_offset, Process, Server, send_response}
use remote_file_procedure_ca.Server.Handlers.{remote_fd, size_returned, call_buffer, restored}

-- `send_response` of these values, which a response that is too long for its buffer lets fail.
abbrev pub answer : {W : Type 0} → Server W → Process W → List Bytes → Result (Server W)
answer server after vals = send_response (restored server after) (response_of after.errno vals)

pub FitsInt-FitsLong : (z : ℤ) → FitsInt z → FitsLong z
FitsInt-FitsLong z h = omega arith

pub remote_fd-FitsLong : (fd : ℤ) → FitsLong fd → FitsLong (remote_fd fd)
remote_fd-FitsLong fd h = elim (Bool-cases (eqb_ℤ fd (negsuc 0))) [
  | inl failed ↦ rw failed h
  | inr opened ↦
      rw opened
        (FitsInt-FitsLong (to_int (fd +ℤ pos fd_offset)) (to_int-FitsInt (fd +ℤ pos fd_offset)))
]

pub length-read_bytes : (n : ℕ) (mem : Bytes) → length (read_bytes n mem) ≡ n
length-read_bytes zero mem = refl
length-read_bytes (suc n) [] = ap suc (length-read_bytes n [])
length-read_bytes (suc n) (c ∷ mem) = ap suc (length-read_bytes n mem)

pub take-read_bytes :
    (n : ℕ) (stored : Bytes)
    → length stored ≤ n
    → take (length stored) (read_bytes n stored) ≡ stored
take-read_bytes n [] h = refl
take-read_bytes zero (c ∷ stored) h = elim h [ ]
take-read_bytes (suc n) (c ∷ stored) h = ap (λ l. c ∷ l) (take-read_bytes n stored (omega arith))

pub read_bytes-length : (mem : Bytes) → read_bytes (length mem) mem ≡ mem
read_bytes-length [] = refl
read_bytes-length (c ∷ mem) = ap (λ l. c ∷ l) (read_bytes-length mem)

-- A call stores as many bytes as its result says, and no more than it was asked for.
abbrev pub Stores : ℤ → Bytes → ℕ → Type 0
Stores result stored count =
    (size_returned result ≡ length stored) × (length stored ≤ count) × (count < 2 ^ 63)

pub call_buffer-take :
    (result : ℤ) (stored : Bytes) (count : ℕ)
    → Stores result stored count
    → (size_returned result ≤ length (call_buffer count stored))
      × (take (size_returned result) (call_buffer count stored) ≡ stored)
call_buffer-take result stored count (size, le, small) =
    let exact : (count + 1) % 2 ^ 64 ≡ count + 1 = omega arith in
    rw (exact, size)
      (
        omega (arith, length-read_bytes (count + 1) stored),
        take-read_bytes (count + 1) stored (omega arith),
      )

-- The file descriptor that `local_fd` finds in a parameter.
abbrev pub server_fd : ℤ → ℤ
server_fd fd = to_int (fd -ℤ pos fd_offset)
