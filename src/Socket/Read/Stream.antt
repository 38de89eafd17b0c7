-- ===== src/Socket/Read/Stream.antt =====
-- The bytes that `greedy_read` of rpc/socket.c takes from a connection.
use remote_file_procedure_ca.Prelude.{
  ℕ, zero, suc, ◌-◌, ◌≤◌, ◌≡◌, refl, ap, inl, inr, List, [], ◌∷◌, ◌++◌, append_assoc, length,
  length-append, length-take, drop, take-append-drop, Bool, leb, leb→le, arith, Bool-cases,
}
use remote_file_procedure_ca.Text.{Bytes}
use remote_file_procedure_ca.Socket.{eintr, eagain, ewouldblock, other}
use remote_file_procedure_ca.Socket.Read.{
  RecvEvent, arrived, closed, failed, left_over, greedy_read,
}

-- The bytes that arrive over these events.
abbrev pub stream : List RecvEvent → Bytes
stream [] = []
stream (arrived c rest ∷ events) = c ∷ (rest ++ stream events)
stream (closed ∷ events) = stream events
stream (failed e ∷ events) = stream events

stream-left_over :
    (rest : Bytes) (events : List RecvEvent)
    → stream (left_over rest events) ≡ rest ++ stream events
stream-left_over [] events = refl
stream-left_over (c ∷ rest) events = refl

-- Whatever the calls of `recv` do, the bytes that `greedy_read` stores, followed by those still to
-- come, are the bytes that arrive, in order; and it stores no more than it has room for.
pub greedy_read-stream :
    (events : List RecvEvent) (n : ℕ) (exit : Bool)
    → let r = greedy_read events n exit in
      (r.bytes ++ stream r.events ≡ stream events) × (length r.bytes ≤ n)
unfolding greedy_read
greedy_read-stream events zero exit = (refl, omega arith)
greedy_read-stream [] (suc n) exit = (refl, omega arith)
greedy_read-stream (arrived c rest ∷ events) (suc n) exit =
    elim (Bool-cases (leb (length rest) n)) [
      | inl fits ↦
          let (whole, le) = greedy_read-stream events (n - length rest) exit in
          rw fits (
            rw append_assoc (ap (λ l. c ∷ (rest ++ l)) whole),
            omega (
              arith,
              leb→le (length rest) n fits,
              length-append rest (greedy_read events (n - length rest) exit).bytes,
            ),
          )
      | inr short ↦ rw short (
        rw (stream-left_over (drop n rest) events, ← append_assoc, take-append-drop n rest) refl,
        omega (arith, length-take n rest),
      )
    ]
greedy_read-stream (closed ∷ events) (suc n) exit = (refl, omega arith)
greedy_read-stream (failed eintr ∷ events) (suc n) exit = greedy_read-stream events (suc n) exit
greedy_read-stream (failed eagain ∷ events) (suc n) exit = (refl, omega arith)
greedy_read-stream (failed ewouldblock ∷ events) (suc n) exit = (refl, omega arith)
greedy_read-stream (failed (other number) ∷ events) (suc n) exit = (refl, omega arith)
