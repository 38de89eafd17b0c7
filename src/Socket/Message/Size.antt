-- ===== src/Socket/Message/Size.antt =====
-- The size of the receive buffer behind `parse_message` of rpc/socket.c.
use remote_file_procedure_ca.Prelude.{
  ℕ, ◌+◌, ◌-◌, ◌%◌, ◌^◌, ◌<◌, ◌≡◌, refl, inl, inr, Option, none, some, [], ◌∷◌, ◌++◌, arith, drop,
  leb, ltb, leb→le, ltb→lt, Bool-cases, Option-cases,
}
use remote_file_procedure_ca.Text.{Bytes, strstr}
use remote_file_procedure_ca.Result.{Result, ok, err, bad_memory, ◌>>=◌}
use remote_file_procedure_ca.Marshall.{colon}
use remote_file_procedure_ca.Socket.{Storage, header_split, read_bytes}
use remote_file_procedure_ca.Socket.Message.{prune, take_message, header_number, parse_message}

-- A message that is returned has made the buffer smaller.
abbrev Shrinks : Storage → Result (Option Bytes × Storage) → Type 0
Shrinks s result = (bytes : Bytes) (s' : Storage) → result ≡ ok (some bytes, s') → s'.size < s.size

nothing-Shrinks : (s : Storage) → Shrinks s (ok (none, s))
nothing-Shrinks s bytes s' e = cc

take_message-Shrinks :
    (s : Storage) (begin len : ℕ) → 0 < begin → Shrinks s (take_message s begin len)
unfolding take_message prune
take_message-Shrinks s begin len positive bytes s' e =
    elim (Bool-cases (leb ((begin + len) % 2 ^ 64) s.size)) [
      | inr waits ↦ nothing-Shrinks s bytes s' (rw waits at e)
      | inl arrived ↦ elim (Bool-cases (ltb (begin + len) (2 ^ 64))) [
        | inr wraps ↦
            let faulty : take_message s begin len ≡ err bad_memory =
              rw (arrived, take_message, wraps) refl in
            cc (faulty, e)
        | inl exact ↦
            let n = begin + len in
            let taken : take_message s begin len
                ≡ ok (some (read_bytes len (drop begin s.buf) ++ 0 ∷ []), prune s n) =
              rw (arrived, take_message, exact) refl in
            let pruned : s' ≡ prune s n = cc (taken, e) in
            let size : (prune s n).size ≡ s.size - n = refl in
            rw pruned (omega (arith, leb→le (n % 2 ^ 64) s.size arrived, ltb→lt n (2 ^ 64) exact))
      ]
    ]

bind-Shrinks :
    (s : Storage) (m : Result ℕ) (next : ℕ → Result (Option Bytes × Storage))
    → ((n : ℕ) → Shrinks s (next n))
    → Shrinks s (m >>= next)
bind-Shrinks s (ok n) next h = h n
bind-Shrinks s (err fault) next h = λ bytes s' e. cc

found-Shrinks :
    (s : Storage) (header_len colon_pos : ℕ)
    → Shrinks s
        (header_number s.buf header_len colon_pos >>= λ n. take_message s (header_len + 4) n)
found-Shrinks s header_len colon_pos =
    bind-Shrinks s (header_number s.buf header_len colon_pos) _
      λ n. take_message-Shrinks s (header_len + 4) n (omega arith)

-- Where `parse_message` returns a message, the buffer is smaller than before, whatever it holds.
pub parse_message-smaller :
    (s : Storage) (bytes : Bytes) (s' : Storage)
    → parse_message s ≡ ok (some bytes, s')
    → s'.size < s.size
unfolding parse_message
parse_message-smaller s bytes s' e = elim (Option-cases (strstr s.buf header_split)) [
  | inl absent ↦
      let nothing : parse_message s ≡ ok (none, s) = rw (absent, parse_message) refl in
      cc (nothing, e)
  | inr (header_len, split) ↦ elim (Option-cases (strstr s.buf colon)) [
    | inl absent ↦
        let nothing : parse_message s ≡ ok (none, s) = rw (split, parse_message, absent) refl in
        cc (nothing, e)
    | inr (colon_pos, found) ↦ elim (Bool-cases (ltb colon_pos header_len)) [
      | inl before ↦
          let step : parse_message s ≡ (
              header_number s.buf header_len colon_pos >>= λ n. take_message s (header_len + 4) n) =
            rw (split, parse_message, found, before) refl in
          found-Shrinks s header_len colon_pos bytes s' (rw step at e)
      | inr behind ↦
          let nothing : parse_message s ≡ ok (none, s) =
            rw (split, parse_message, found, behind) refl in
          cc (nothing, e)
    ]
  ]
]
