-- ===== src/Socket/Message.antt =====
-- `parse_message` of rpc/socket.c: takes the next message out of the receive buffer.
pub mod Memory
pub mod Header
pub mod Whole
pub mod Partial
pub mod Malformed
pub mod Size
use remote_file_procedure_ca.Prelude.{
  ℕ, ◌+◌, ◌-◌, ◌%◌, ◌^◌, Option, none, some, List, [], ◌∷◌, ◌++◌, length, take, drop, replicate,
  Bool, true, false, leb, ltb, to_size, if◌then◌else◌,
}
use remote_file_procedure_ca.Text.{Bytes, strstr}
use remote_file_procedure_ca.Number.{atoi}
use remote_file_procedure_ca.Result.{Result, ok, err, bad_memory, ◌>>=◌, ◌>>◌, require}
use remote_file_procedure_ca.Marshall.{colon}
use remote_file_procedure_ca.Socket.{Storage, header_split, read_bytes}

-- The size of `message_len_buf`.
abbrev pub message_len_max : ℕ
message_len_max = 100

-- `memmove` and `memset`: the bytes behind `message_end` move to the front, and the cells up to the
-- old size that they leave are cleared.
unfoldable pub prune : Storage → ℕ → Storage
prune s message_end =
    let new_size = s.size - message_end in
    record {
      buf =
          read_bytes new_size (drop message_end s.buf)
          ++ (replicate (s.size - new_size) 0 ++ drop s.size s.buf);
      size = new_size;
    }

-- The copy of a message that the buffer holds, and the buffer without it. Where the sum of the
-- lengths wraps around, `memcpy` is asked for nearly 2^64 bytes.
unfoldable pub take_message : Storage → ℕ → ℕ → Result (Option Bytes × Storage)
unfolding prune
take_message s message_begin message_len =
    if leb ((message_begin + message_len) % 2 ^ 64) s.size
    then (do
      require (ltb (message_begin + message_len) (2 ^ 64)) bad_memory
      ok (
        some (read_bytes message_len (drop message_begin s.buf) ++ 0 ∷ []),
        prune s (message_begin + message_len),
      ))
    else ok (none, s)

-- The length in the header, which ends at `header_len` and has its colon at `colon_pos`.
unfoldable pub header_number : Bytes → ℕ → ℕ → Result ℕ
header_number buf header_len colon_pos =
    let len = header_len - colon_pos - 1 in
    require (ltb len message_len_max) bad_memory
    >> ok (to_size (atoi (take len (drop (colon_pos + 1) buf))))

-- The new message, with a NUL behind it, or `none` where there is none yet.
unfoldable pub parse_message : Storage → Result (Option Bytes × Storage)
unfolding take_message header_number
parse_message s = elim (strstr s.buf header_split) [
  | none ↦ ok (none, s)
  | some header_len ↦ elim (strstr s.buf colon) [
    | none ↦ ok (none, s)
    | some colon_pos ↦
        let found = (do
          message_len ← header_number s.buf header_len colon_pos
          take_message s (header_len + 4) message_len) in
        if ltb colon_pos header_len then found else ok (none, s)
  ]
]
