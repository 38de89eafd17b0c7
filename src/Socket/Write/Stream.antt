-- ===== src/Socket/Write/Stream.antt =====
-- The bytes that `robust_write` and `send_message` of rpc/socket.c put on the wire.
use Prim.Native.Nat.{min}
use remote_file_procedure_ca.Prelude.{
  ℕ, ◌+◌, ◌<◌, ◌≤◌, ◌^◌, ◌≡◌, refl, ap, ◌∙◌, ◌⊎◌, inl, inr, List, [], ◌∷◌, ◌++◌, append_assoc,
  length, length-append, length-take, length-drop, take, drop, take-append-drop, true, false,
  le→leb, ◌==◌, arith, Bool-cases,
}
use remote_file_procedure_ca.Text.{Bytes}
use remote_file_procedure_ca.Number.{print_size}
use remote_file_procedure_ca.Number.Width.{length-print_size}
use remote_file_procedure_ca.Result.{ok, err, assertion, blocked}
use remote_file_procedure_ca.Marshall.{colon}
use remote_file_procedure_ca.Socket.{header_msg_len, header_split, header_max_len}
use remote_file_procedure_ca.Socket.Write.{
  SendEvent, room, failed, Sent, is_problem, prepend, write_loop, robust_write, frame, send_message,
}

-- The bytes sent are the first ones of the data, and the count is right.
abbrev pub IsPrefixSent : ℕ → Bytes → Sent ℕ → Type 0
IsPrefixSent curr pending s =
    (rest : Bytes) × (s.wire ++ rest ≡ pending)
    × ((s.result ≡ ok (curr + length s.wire)) ⊎ (s.result ≡ err blocked))

-- A round that sends `k` bytes, given what the rounds after it do.
prepend-IsPrefixSent :
    (k curr : ℕ) (pending : Bytes) (s : Sent ℕ)
    → k ≤ length pending
    → IsPrefixSent (curr + k) (drop k pending) s
    → IsPrefixSent curr pending (prepend (take k pending) s)
prepend-IsPrefixSent k curr pending s le (rest, whole, count) =
    let length_eq : length (take k pending ++ s.wire) ≡ k + length s.wire =
      omega (arith, length-append (take k pending) s.wire, length-take k pending) in
    (
      rest,
      append_assoc (take k pending) s.wire rest
          ∙ ap (λ l. take k pending ++ l) whole
          ∙ take-append-drop k pending,
      elim count [
        | inl all_counted ↦ inl (all_counted ∙ ap ok (omega arith))
        | inr waits ↦ inr waits
      ],
    )

write_loop-prefix :
    (events : List SendEvent) (curr : ℕ) (pending : Bytes)
    → IsPrefixSent curr pending (write_loop events curr pending)
unfolding write_loop
write_loop-prefix events curr [] = ([], refl, inl (ap ok (omega arith)))
write_loop-prefix [] curr (c ∷ pending) = (c ∷ pending, refl, inr refl)
write_loop-prefix (room n ∷ events) curr (c ∷ pending) =
    let k = min n (length (c ∷ pending)) in
    prepend-IsPrefixSent k curr (c ∷ pending) (write_loop events (curr + k) (drop k (c ∷ pending)))
      (omega arith) (write_loop-prefix events (curr + k) (drop k (c ∷ pending)))
write_loop-prefix (failed e ∷ events) curr (c ∷ pending) = elim (Bool-cases (is_problem e)) [
  | inl problem ↦ rw problem (c ∷ pending, refl, inl (ap ok (omega arith)))
  | inr fine ↦ rw fine (write_loop-prefix events curr (c ∷ pending))
]

-- Whatever the calls of `send` do, `robust_write` sends a first part of the data, in order and with no
-- byte twice, and returns its length unless it still waits.
pub robust_write-prefix :
    (events : List SendEvent) (buf : Bytes) → IsPrefixSent 0 buf (robust_write events buf)
unfolding robust_write
robust_write-prefix events buf = write_loop-prefix events 0 buf

-- How many bytes the kernel takes over these events.
abbrev pub total_room : List SendEvent → ℕ
total_room [] = 0
total_room (room n ∷ events) = n + total_room events
total_room (failed e ∷ events) = total_room events

-- No call fails for good.
abbrev pub IsHealthy : List SendEvent → Type 0
IsHealthy [] = Unit
IsHealthy (room n ∷ events) = IsHealthy events
IsHealthy (failed e ∷ events) = (is_problem e ≡ false) × IsHealthy events

abbrev IsWhole : ℕ → Bytes → Sent ℕ → Type 0
IsWhole curr pending s = (s.result ≡ ok (curr + length pending)) × (s.wire ≡ pending)

prepend-IsWhole :
    (k curr : ℕ) (pending : Bytes) (s : Sent ℕ)
    → k ≤ length pending
    → IsWhole (curr + k) (drop k pending) s
    → IsWhole curr pending (prepend (take k pending) s)
prepend-IsWhole k curr pending s le (count, whole) =
    let total : curr + k + length (drop k pending) ≡ curr + length pending =
      omega (arith, length-drop k pending) in
    (count ∙ ap ok total, ap (λ l. take k pending ++ l) whole ∙ take-append-drop k pending)

write_loop-IsWhole :
    (events : List SendEvent) (curr : ℕ) (pending : Bytes)
    → IsHealthy events
    → length pending ≤ total_room events
    → IsWhole curr pending (write_loop events curr pending)
unfolding write_loop
write_loop-IsWhole events curr [] h le = (ap ok (omega arith), refl)
write_loop-IsWhole [] curr (c ∷ pending) h le = elim le [ ]
write_loop-IsWhole (room n ∷ events) curr (c ∷ pending) h le =
    let k = min n (length (c ∷ pending)) in
    prepend-IsWhole k curr (c ∷ pending) (write_loop events (curr + k) (drop k (c ∷ pending)))
      (omega arith)
      (write_loop-IsWhole events (curr + k) (drop k (c ∷ pending)) h
        (omega (arith, length-drop k (c ∷ pending))))
write_loop-IsWhole (failed e ∷ events) curr (c ∷ pending) h le =
    rw h.0 (write_loop-IsWhole events curr (c ∷ pending) h.1 le)

-- Where the calls of `send` fail only for the moment and take enough bytes in the end,
-- `robust_write` sends all the data, however it was cut up, and returns its length.
pub robust_write-whole :
    (events : List SendEvent) (buf : Bytes)
    → IsHealthy events
    → length buf ≤ total_room events
    → ((robust_write events buf).result ≡ ok (length buf)) × ((robust_write events buf).wire ≡ buf)
unfolding robust_write
robust_write-whole events buf h le =
    let (count, whole) = write_loop-IsWhole events 0 buf h le in
    (count ∙ ap ok (omega arith), whole)

-- The bytes of a message on the wire.
unfoldable pub message_header : Bytes → Bytes
message_header content = header_msg_len ++ (colon ++ (print_size (length content) ++ header_split))

pub frame-eq :
    (content : Bytes)
    → length content < 2 ^ 64
    → frame content ≡ ok (message_header content ++ content)
unfolding frame message_header
frame-eq content h =
    let digits = print_size (length content) in
    rw (
      le→leb (length (header_msg_len ++ (colon ++ (digits ++ header_split)))) header_max_len
        (omega (arith, length-append digits header_split, length-print_size (length content) h)))

-- Where the calls of `send` fail only for the moment and take enough bytes in the end,
-- `send_message` returns with its assertion true, and has sent the header and the content, of fewer
-- than 2^64 bytes.
pub send_message-whole :
    (events : List SendEvent) (content : Bytes)
    → IsHealthy events
    → length (message_header content ++ content) ≤ total_room events
    → length content < 2 ^ 64
    → ((send_message events content).result ≡ ok tt)
      × ((send_message events content).wire ≡ message_header content ++ content)
unfolding send_message message_header
send_message-whole events content h le small =
    let bytes = message_header content ++ content in
    let (count, whole) = robust_write-whole events bytes h le in
    let same : (length bytes == length bytes) ≡ true = ground arith in
    (
      rw (frame-eq content small, send_message, count, same),
      rw (frame-eq content small, send_message) whole,
    )

-- Where `robust_write` returns before all of a message of fewer than 2^64 bytes is sent, the
-- assertion of `send_message` fails.
send_message_gives_up :
    (events : List SendEvent) (content : Bytes) (n : ℕ)
    → length content < 2 ^ 64
    → n < length (message_header content ++ content)
    → (robust_write events (message_header content ++ content)).result ≡ ok n
    → (send_message events content).result ≡ err assertion
unfolding send_message message_header
send_message_gives_up events content n small less e =
    let differ : (n == length (message_header content ++ content)) ≡ false = ground arith in
    rw (frame-eq content small, send_message, e, differ)
