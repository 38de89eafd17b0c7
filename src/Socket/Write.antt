-- ===== src/Socket/Write.antt =====
-- `robust_write` and `send_message` of rpc/socket.c.
pub mod Stream
use Prim.Native.Nat.{min}
use remote_file_procedure_ca.Prelude.{
  ℕ, zero, suc, ◌+◌, ◌-◌, List, [], ◌∷◌, ◌++◌, length, take, drop, Bool, true, false, leb, ltb,
  ◌==◌, ℤ, if◌then◌else◌,
}
use remote_file_procedure_ca.Text.{Bytes}
use remote_file_procedure_ca.Number.{print_size}
use remote_file_procedure_ca.Result.{Result, ok, err, assertion, bad_memory, blocked}
use remote_file_procedure_ca.Marshall.{colon, copy_block}
use remote_file_procedure_ca.Socket.{
  Errno, eintr, eagain, ewouldblock, other, errno_number, header_msg_len, header_split,
  header_max_len,
}

-- A call of `send`: the kernel has room for so many bytes, or the call fails.
pub data SendEvent : Type 0 where
  room : ℕ → SendEvent
  failed : Errno → SendEvent

-- What a writer returns, the bytes it put on the wire, and the events that are left.
pub record Sent {ℓ} (A : Type ℓ) : Type ℓ where
  pub result : Result A
  pub wire : Bytes
  pub events : List SendEvent

-- `errno != EINTR && errno != EAGAIN && errno != EWOULDBLOCK`
abbrev pub is_problem : Errno → Bool
is_problem (other number) = true
is_problem _ = false

abbrev prepend {ℓ} : {A : Type ℓ} → Bytes → Sent A → Sent A
prepend bytes s = record { result = s.result; wire = bytes ++ s.wire; events = s.events }

-- The loop of `robust_write`: `pending` is the data from `buf_start + curr_write` on, so it is
-- empty when `curr_write < to_write` fails. `blocked` is a loop that still runs when the events end.
unfoldable pub write_loop : List SendEvent → ℕ → Bytes → Sent ℕ
write_loop events curr_write [] = record { result = ok curr_write; wire = []; events = events }
write_loop [] curr_write (c ∷ pending) = record { result = err blocked; wire = []; events = [] }
write_loop (room n ∷ events) curr_write (c ∷ pending) =
    let write = min n (length (c ∷ pending)) in
    prepend (take write (c ∷ pending))
      (write_loop events (curr_write + write) (drop write (c ∷ pending)))
write_loop (failed e ∷ events) curr_write (c ∷ pending) =
    let again = write_loop events curr_write (c ∷ pending) in
    if is_problem e then record { result = ok curr_write; wire = []; events = events } else again

unfoldable pub robust_write : List SendEvent → Bytes → Sent ℕ
unfolding write_loop
robust_write events buf = write_loop events 0 buf

-- The buffer of `send_message`: the header, then the content. It has room for 128 bytes more than
-- the content.
unfoldable pub frame : Bytes → Result Bytes
frame content =
    let header = header_msg_len ++ (colon ++ (print_size (length content) ++ header_split)) in
    if leb (length header) header_max_len then ok (header ++ content) else err bad_memory

abbrev check_sent : ℕ → Sent ℕ → Sent (Unit {0})
check_sent total s = record {
  result = elim s.result [ ok n ↦ (if n == total then ok tt else err assertion) | err e ↦ err e ];
  wire = s.wire;
  events = s.events;
}

abbrev send_frame : List SendEvent → Result Bytes → Sent (Unit {0})
send_frame events (ok bytes) = check_sent (length bytes) (robust_write events bytes)
send_frame events (err e) = record { result = err e; wire = []; events = events }

-- `buf` is the content, `to_write` bytes from `buf_start` on.
unfoldable pub send_message : List SendEvent → Bytes → Sent (Unit {0})
unfolding robust_write frame
send_message events buf = send_frame events (frame buf)

-- What the calls of `send` in `write_loop` leave in `errno`: one that succeeds leaves it as it is.
unfoldable pub write_errno : List SendEvent → Bytes → ℤ → ℤ
write_errno events [] errno = errno
write_errno [] (c ∷ pending) errno = errno
write_errno (room n ∷ events) (c ∷ pending) errno =
    write_errno events (drop (min n (length (c ∷ pending))) (c ∷ pending)) errno
write_errno (failed e ∷ events) (c ∷ pending) errno =
    let again = write_errno events (c ∷ pending) (errno_number e) in
    if is_problem e then errno_number e else again

-- The same for `send_message`.
unfoldable pub send_errno : List SendEvent → Bytes → ℤ → ℤ
unfolding write_errno frame
send_errno events buf errno = elim (frame buf) [
  | ok bytes ↦ write_errno events bytes errno
  | err fault ↦ errno
]
