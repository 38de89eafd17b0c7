-- ===== src/Socket/Read.antt =====
-- `greedy_read` of rpc/socket.c.
pub mod Stream
use remote_file_procedure_ca.Prelude.{
  ℕ, zero, suc, ◌+◌, ◌-◌, List, [], ◌∷◌, ◌++◌, length, take, drop, Bool, true, false, leb, ltb,
  if◌then◌else◌, ℤ,
}
use remote_file_procedure_ca.Text.{Bytes}
use remote_file_procedure_ca.Socket.{Errno, eintr, eagain, ewouldblock, other, errno_number}

-- A call of `recv`: bytes are there, one at least; the peer has closed the connection; or the call
-- fails. Where the list of events ends, nothing more has arrived, and `recv` fails with EAGAIN.
pub data RecvEvent : Type 0 where
  arrived : ℕ → Bytes → RecvEvent
  closed : RecvEvent
  failed : Errno → RecvEvent

-- The bytes stored from `buf_start` on, `*exit`, and the events that are left. The function's result
-- is the number of bytes.
pub record Read : Type 0 where
  pub bytes : Bytes
  pub exit : Bool
  pub events : List RecvEvent

abbrev keep : Bytes → Read → Read
keep front r = record { bytes = front ++ r.bytes; exit = r.exit; events = r.events }

-- What `recv` does not take stays for the next call.
abbrev pub left_over : Bytes → List RecvEvent → List RecvEvent
left_over [] events = events
left_over (c ∷ rest) events = arrived c rest ∷ events

-- `buf_size` is the room that is left.
unfoldable pub greedy_read : List RecvEvent → ℕ → Bool → Read
greedy_read events zero exit = record { bytes = []; exit = exit; events = events }
greedy_read [] (suc n) exit = record { bytes = []; exit = exit; events = [] }
greedy_read (arrived c rest ∷ events) (suc n) exit =
    let more = greedy_read events (n - length rest) exit in
    if leb (length rest) n
    then keep (c ∷ rest) more
    else record { bytes = c ∷ take n rest; exit = exit; events = left_over (drop n rest) events }
greedy_read (closed ∷ events) (suc n) exit = record { bytes = []; exit = true; events = events }
greedy_read (failed eintr ∷ events) (suc n) exit = greedy_read events (suc n) exit
greedy_read (failed eagain ∷ events) (suc n) exit = record {
  bytes = [];
  exit = exit;
  events = events;
}
greedy_read (failed ewouldblock ∷ events) (suc n) exit = record {
  bytes = [];
  exit = exit;
  events = events;
}
greedy_read (failed (other number) ∷ events) (suc n) exit = record {
  bytes = [];
  exit = true;
  events = events;
}

-- What the same calls leave in `errno`: one that succeeds leaves it as it is.
unfoldable pub read_errno : List RecvEvent → ℕ → ℤ → ℤ
read_errno events zero errno = errno
read_errno [] (suc n) errno = errno_number eagain
read_errno (arrived c rest ∷ events) (suc n) errno =
    let more = read_errno events (n - length rest) errno in
    if leb (length rest) n then more else errno
read_errno (closed ∷ events) (suc n) errno = errno
read_errno (failed eintr ∷ events) (suc n) errno = read_errno events (suc n) (errno_number eintr)
read_errno (failed eagain ∷ events) (suc n) errno = errno_number eagain
read_errno (failed ewouldblock ∷ events) (suc n) errno = errno_number ewouldblock
read_errno (failed (other number) ∷ events) (suc n) errno = number
