-- ===== src/Tests/Wire.antt =====
-- rpc/socket.c on concrete events and buffers.
use remote_file_procedure_ca.Prelude.{
  pos, ◌≤◌, ◌≡◌, refl, false, none, some, List, [], ◌∷◌, ◌++◌, arith, length,
}
use remote_file_procedure_ca.Text.{Bytes, codes}
use remote_file_procedure_ca.Number.{print_int, print_size}
use remote_file_procedure_ca.Result.{ok, err, bad_memory}
use remote_file_procedure_ca.Socket.{Storage, eintr, eagain, other}
use remote_file_procedure_ca.Socket.Write.{SendEvent, room, failed, robust_write, send_message}
use remote_file_procedure_ca.Socket.Write.Stream.{
  IsPrefixSent, robust_write-prefix, IsHealthy, message_header, send_message-whole,
}
use remote_file_procedure_ca.Socket.Read.{arrived, closed, greedy_read}
use remote_file_procedure_ca.Socket.Read.Stream.{stream, greedy_read-stream}
use remote_file_procedure_ca.Socket.Message.{parse_message}
use remote_file_procedure_ca.Socket.Message.Memory.{Holds}
use remote_file_procedure_ca.Socket.Message.Header.{header_of}
use remote_file_procedure_ca.Socket.Message.Whole.{parse_message-whole}
use remote_file_procedure_ca.Socket.Message.Partial.{parse_message-partial}
use remote_file_procedure_ca.Socket.Message.Malformed.{parse_message-negative}

abbrev hello : Bytes
hello = codes "hello"

-- Calls of `send` that are interrupted and take a few bytes.
abbrev slow : List SendEvent
slow = room 2 ∷ failed eintr ∷ room 0 ∷ room 1 ∷ failed eagain ∷ room 60 ∷ []

slow-IsHealthy : IsHealthy slow
slow-IsHealthy = (refl, (refl, tt))

-- A connection that breaks behind two bytes.
abbrev broken : List SendEvent
broken = room 2 ∷ failed (other (pos 104)) ∷ []

robust_write-prefix_example : IsPrefixSent 0 hello (robust_write broken hello)
robust_write-prefix_example = robust_write-prefix broken hello

-- The bytes of a message.
hello_header : message_header hello ≡ codes "Message-Length:5\r\n\r\n"
unfolding message_header print_size
hello_header = refl

send_message-whole_example :
    ((send_message slow hello).result ≡ ok tt)
    × ((send_message slow hello).wire ≡ message_header hello ++ hello)
unfolding message_header print_size
send_message-whole_example =
    send_message-whole slow hello slow-IsHealthy (omega arith) (omega arith)

greedy_read-stream_example :
    let r = greedy_read (arrived b'a' (codes "bcd") ∷ closed ∷ []) 3 false in
    (r.bytes ++ stream r.events ≡ codes "abcd") × (length r.bytes ≤ 3)
greedy_read-stream_example = greedy_read-stream (arrived b'a' (codes "bcd") ∷ closed ∷ []) 3 false

-- A buffer with a message and the beginning of another one.
abbrev two : Storage
two = record { buf = codes "Message-Length:5\r\n\r\nhelloMess"; size = 29 }

two-Holds : Holds two ((message_header hello ++ hello) ++ codes "Mess")
unfolding message_header print_size
two-Holds = (0, refl, refl)

parse_message-whole_example :
    (s' : Storage) × (parse_message two ≡ ok (some (hello ++ 0 ∷ []), s')) × Holds s' (codes "Mess")
parse_message-whole_example =
    parse_message-whole two hello (codes "Mess") (omega arith) two-Holds (omega arith)

-- A buffer with the first part of a message.
abbrev half : Storage
half = record { buf = codes "Message-Length:5\r\n\r\nhel"; size = 23 }

half-Holds : Holds half (codes "Message-Length:5\r\n\r\nhel")
half-Holds = (0, refl, refl)

half-split : codes "Message-Length:5\r\n\r\nhel" ++ codes "lo" ≡ message_header hello ++ hello
unfolding message_header print_size
half-split = refl

parse_message-partial_example : parse_message half ≡ ok (none, half)
parse_message-partial_example =
    parse_message-partial half hello (codes "Message-Length:5\r\n\r\nhel") (codes "lo")
      (omega arith) half-Holds half-split (omega arith)

-- A buffer with a header for -1 bytes.
abbrev minus_one : Storage
minus_one = record { buf = codes "Message-Length:-1\r\n\r\n"; size = 21 }

parse_message-negative_example : parse_message minus_one ≡ err bad_memory
unfolding header_of print_int print_size
parse_message-negative_example =
    parse_message-negative minus_one 0 [] refl (omega arith) (omega arith) (omega arith)
