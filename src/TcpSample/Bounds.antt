-- ===== src/TcpSample/Bounds.antt =====
-- The buffers of tcp-sample/client.c and tcp-sample/server.c.
pub mod Server
pub mod Client
use remote_file_procedure_ca.Prelude.{
  ℕ, zero, suc, ◌+◌, ◌<◌, ◌≤◌, ◌≡◌, refl, sym, ap, ◌∙◌, Bool, true, false, List, [], ◌∷◌, ◌++◌, ℤ,
  pos, negsuc, is_neg, ltb_ℤ, length, length-append, length-drop, length-set, drop, set, ltb,
  lt→ltb, pos_part, arith, inl, inr, Bool-cases, Option-cases, Option, none, some,
}
use remote_file_procedure_ca.Text.{Bytes, codes}
use remote_file_procedure_ca.Result.{Fault}
use remote_file_procedure_ca.Marshall.Print.{has_nul, has_nul-append}
use remote_file_procedure_ca.Network.{Network, Address, af_inet, sock_stream, htons}
use remote_file_procedure_ca.Socket.{write_bytes}
use remote_file_procedure_ca.TcpSample.{
  Streams, exit_on, variable, client_address, sample_port, server_backlog, Life, done, exited,
  faulted, talking, continue, terminate, text, recv_into, print_reply, client_main, reply, reply_if,
  converse, session, sessions, server_main, max_msg_len,
}

-- What the code relies on: `recv` stores as many bytes as its result says, at most as many as it was
-- asked for, and none where the result is negative.
pub record StreamLaws {K : Type 0} (streams : Streams K) : Type 0 where
  pub recv_law :
      (k : K) (fd : ℤ) (n : ℕ)
      → (length (streams.recv fd n k).1 ≡ pos_part (streams.recv fd n k).0)
        × (length (streams.recv fd n k).1 ≤ n)

-- The process goes on with a good value, or ends with status 1, or its client goes on sending: it does
-- not go wrong.
abbrev pub IsSafe : {K A : Type 0} → (A → Type 0) → Life K A → Type 0
IsSafe Good (done a k) = Good a
IsSafe Good (exited status k) = status ≡ 1
IsSafe Good (faulted fault) = ⊥
IsSafe Good (talking k) = Unit

pub continue-IsSafe :
    {K A B : Type 0} (Good : A → Type 0) (After : B → Type 0) (m : Life K A)
    (rest : A → K → Life K B)
    → IsSafe Good m
    → ((a : A) (k : K) → Good a → IsSafe After (rest a k))
    → IsSafe After (continue m rest)
continue-IsSafe Good After (done a k) rest h next = next a k h
continue-IsSafe Good After (exited status k) rest h next = h
continue-IsSafe Good After (faulted fault) rest h next = h
continue-IsSafe Good After (talking k) rest h next = tt

-- A buffer of `MAXMSGLEN + 1` bytes.
abbrev pub IsBuffer : Bytes → Type 0
IsBuffer buf = length buf ≡ 101

-- A buffer with so many bytes received.
abbrev pub HasReceived : ℤ → Bytes → Type 0
HasReceived rv buf =
    (content : Bytes) × (rest : Bytes) × (buf ≡ content ++ rest)
    × (length content ≡ pos_part rv)
    × (pos_part rv ≤ 100)
    × IsBuffer buf

pub exit_on-IsSafe :
    {K B : Type 0} (After : B → Type 0) (test : Bool) (k : K) (rest : Unit {0} → K → Life K B)
    → ((k' : K) → IsSafe After (rest tt k'))
    → IsSafe After (continue (exit_on test k) rest)
exit_on-IsSafe After true k rest next = refl
exit_on-IsSafe After false k rest next = next k

set-append : (xs ys : Bytes) (c v : ℕ) → set (xs ++ c ∷ ys) (length xs) v ≡ xs ++ v ∷ ys
set-append [] ys c v = refl
set-append (x ∷ xs) ys c v = ap (λ l. x ∷ l) (set-append xs ys c v)

set-has_nul :
    (content rest : Bytes)
    → length content < length (content ++ rest)
    → has_nul (set (content ++ rest) (length content) 0) ≡ true
set-has_nul content [] room = absurd (omega (arith, length-append content []))
set-has_nul content (c ∷ rest) room =
    ap has_nul (set-append content rest c 0) ∙ has_nul-append content rest

pub terminate-IsSafe :
    {K : Type 0} (rv : ℤ) (buf : Bytes) (k : K)
    → HasReceived rv buf
    → IsSafe (λ b. (has_nul b ≡ true) × IsBuffer b) (terminate (pos_part rv) buf k)
unfolding terminate
terminate-IsSafe rv buf k (content, rest, split, size, small, is_buffer) =
    let inside : ltb (pos_part rv) (length buf) ≡ true =
      lt→ltb (pos_part rv) (length buf) (omega arith) in
    let room : length content < length (content ++ rest) =
      omega (arith, size, small, is_buffer, ap length split) in
    let ends : has_nul (set buf (pos_part rv) 0) ≡ true =
      rw (split, ← size) (set-has_nul content rest room) in
    rw (inside, IsSafe) (ends, length-set buf (pos_part rv) 0 ∙ is_buffer)

pub text-IsSafe :
    {K : Type 0} (buf : Bytes) (k : K)
    → has_nul buf ≡ true
    → IsSafe (λ message. Unit {0}) (text buf k)
unfolding text
text-IsSafe buf k ends = rw (ends, IsSafe) tt

module _ {K : Type 0} (net : Network K) (streams : Streams K) (laws : StreamLaws streams) where
  pub recv_into-IsSafe :
      (fd : ℤ) (buf : Bytes) (k : K)
      → IsBuffer buf
      → IsSafe (λ r. HasReceived r.0 r.1) (recv_into net streams fd buf k)
  unfolding recv_into
  recv_into-IsSafe fd buf k is_buffer =
      let stored = (streams.recv fd max_msg_len k).1 in
      let (size, few) = laws.recv_law k fd max_msg_len in
      (
        stored,
        drop (length stored) buf,
        refl,
        size,
        omega (arith, size, few),
        omega (
          arith,
          few,
          is_buffer,
          length-append stored (drop (length stored) buf),
          length-drop (length stored) buf,
        ),
      )
