-- ===== src/Server/Receive.antt =====
-- Bytes that arrive in the receive buffer of rpc/server.c or rpc/mylib.c, one round of `greedy_read` at a
-- time.
use remote_file_procedure_ca.Prelude.{
  ℕ, ℤ, zero, suc, ◌+◌, ◌-◌, ◌<◌, ◌≤◌, ◌≡◌, refl, sym, ap, Bool, true, false, List, [], ◌∷◌, ◌++◌,
  append-nil, arith, length, length-append, drop, ltb, lt→ltb, le→leb,
}
use remote_file_procedure_ca.Text.{Bytes}
use remote_file_procedure_ca.Socket.{
  errno_number, eagain, empty_storage, Storage, storage_size, write_bytes,
}
use remote_file_procedure_ca.Socket.Read.{RecvEvent, arrived, greedy_read, read_errno}
use remote_file_procedure_ca.Socket.Message.Memory.{Holds, zeros}
use remote_file_procedure_ca.Server.Service.{receive}

-- A round in which these bytes arrive at once, or none.
abbrev pub events_of : Bytes → List RecvEvent
events_of [] = []
events_of (c ∷ rest) = arrived c rest ∷ []

abbrev pub rounds_of : List Bytes → List (List RecvEvent)
rounds_of [] = []
rounds_of (chunk ∷ chunks) = events_of chunk ∷ rounds_of chunks

greedy_read-nil :
    (n : ℕ) (exit : Bool) → greedy_read [] n exit ≡ record { bytes = []; exit = exit; events = [] }
unfolding greedy_read
greedy_read-nil zero exit = refl
greedy_read-nil (suc n) exit = refl

pub greedy_read-chunk :
    (chunk : Bytes) (n : ℕ)
    → length chunk ≤ n
    → greedy_read (events_of chunk) n false ≡ record { bytes = chunk; exit = false; events = [] }
unfolding greedy_read
greedy_read-chunk [] n h = greedy_read-nil n false
greedy_read-chunk (c ∷ rest) zero h = absurd (omega arith)
greedy_read-chunk (c ∷ rest) (suc n) h =
    rw
      (
        le→leb (length rest) n (omega arith),
        greedy_read-nil (n - length rest) false,
        append-nil rest,
      )
      refl

-- With room for one byte more, the last `recv` of a round finds nothing.
pub read_errno-chunk :
    (chunk : Bytes) (n : ℕ) (errno : ℤ)
    → length chunk < n
    → read_errno (events_of chunk) n errno ≡ errno_number eagain
unfolding read_errno
read_errno-chunk [] zero errno h = absurd (omega arith)
read_errno-chunk [] (suc n) errno h = refl
read_errno-chunk (c ∷ rest) zero errno h = absurd (omega arith)
read_errno-chunk (c ∷ rest) (suc n) errno h =
    let left : n - length rest ≡ suc (n - length rest - 1) = omega arith in
    rw (le→leb (length rest) n (omega arith), left, read_errno) refl

drop-zeros : (n k : ℕ) → drop n (zeros k) ≡ zeros (k - n)
drop-zeros zero k = let e : k - 0 ≡ k = omega arith in rw e
drop-zeros (suc n) zero = let e : 0 - suc n ≡ 0 = omega arith in rw e
drop-zeros (suc n) (suc k) = let e : suc k - suc n ≡ k - n = omega arith in rw e (drop-zeros n k)

write_bytes-append :
    (part bytes : Bytes) (k : ℕ)
    → write_bytes (length part) bytes (part ++ zeros k)
      ≡ (part ++ bytes) ++ zeros (k - length bytes)
write_bytes-append [] bytes k = ap (λ l. bytes ++ l) (drop-zeros (length bytes) k)
write_bytes-append (c ∷ part) bytes k = ap (λ l. c ∷ l) (write_bytes-append part bytes k)

-- Bytes that arrive stand behind those in the buffer.
pub receive-Holds :
    (s : Storage) (part bytes : Bytes)
    → Holds s part
    → length (part ++ bytes) < storage_size
    → Holds (receive s bytes) (part ++ bytes)
unfolding receive
receive-Holds s part bytes (k, buf_eq, size_eq) h =
    let total = length-append part bytes in
    let room : ltb (length part + length bytes) storage_size ≡ true =
      lt→ltb (length part + length bytes) storage_size (omega arith) in
    (
      k - length bytes,
      rw (size_eq, buf_eq) (write_bytes-append part bytes k),
      rw (size_eq, room) (sym total),
    )

pub empty-Holds : Holds empty_storage []
empty-Holds = (0, refl, refl)
