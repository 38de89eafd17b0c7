-- ===== src/Socket.antt =====
-- rpc/socket.h and rpc/socket.c: messages over a TCP connection. This file has the constants, the
-- bytes of a message on the wire, and the receive buffer.
--
-- The kernel is a list of events, one for each system call: what `send` and `recv` return is the
-- choice of the environment.
pub mod Write
pub mod Read
pub mod Message
use remote_file_procedure_ca.Prelude.{
  ℕ, zero, suc, ◌+◌, ◌*◌, List, [], ◌∷◌, ◌++◌, length, take, drop, Bool, true, false, ℤ, pos,
}
use remote_file_procedure_ca.Text.{Bytes, codes}

abbrev pub storage_size : ℕ
storage_size = 1024 * 1024

abbrev pub header_msg_len : Bytes
header_msg_len = codes "Message-Length"

abbrev pub header_split : Bytes
header_split = 13 ∷ 10 ∷ 13 ∷ 10 ∷ []

abbrev pub header_max_len : ℕ
header_max_len = 128

-- The values of `errno` that the loops tell apart, and the numbers that Linux has for them.
pub data Errno : Type 0 where
  eintr eagain ewouldblock : Errno
  other : ℤ → Errno

abbrev pub errno_number : Errno → ℤ
errno_number eintr = pos 4
errno_number eagain = pos 11
errno_number ewouldblock = pos 11
errno_number (other number) = number

-- `n` bytes of memory from the start of `mem`, where the cells behind the list are 0.
abbrev pub read_bytes : ℕ → Bytes → Bytes
read_bytes zero mem = []
read_bytes (suc n) [] = 0 ∷ read_bytes n []
read_bytes (suc n) (c ∷ mem) = c ∷ read_bytes n mem

-- `memcpy(mem + i, bytes, length bytes)`
abbrev pub write_bytes : ℕ → Bytes → Bytes → Bytes
write_bytes zero bytes mem = bytes ++ drop (length bytes) mem
write_bytes (suc i) bytes [] = 0 ∷ write_bytes i bytes []
write_bytes (suc i) bytes (c ∷ mem) = c ∷ write_bytes i bytes mem

-- A receive buffer and the count of its bytes in use. It is allocated with `calloc`, so the cells
-- behind the list `buf` are 0.
pub record Storage : Type 0 where
  pub buf : Bytes
  pub size : ℕ

-- Its state before anything has arrived.
abbrev pub empty_storage : Storage
empty_storage = record { buf = []; size = 0 }
